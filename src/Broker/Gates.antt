-- ===== src/Broker/Gates.antt =====
-- `Ask`, `Decide` and `Pending` of internal/broker/broker.go over the table `gates`, in the order in
-- which its rows were inserted, and the journal. The JSON encodings are parameters.
use local_engineer.Prelude.{
  ℕ, ◌+◌, Bool, true, false, not, ◌&&◌, List, [], ◌∷◌, ◌++◌, Option, none, some, ltb, if◌then◌else◌,
  Result, ok, err, is_empty, keep, sort_by, reverse,
}
use local_engineer.GoStrings.{Text, codes, text_eq, trim_space}
use local_engineer.Ledger.Journal.{
  OpKind, Operation, Journal, JournalError, begin, fail, after, update, operations, uncertain,
}
use local_engineer.Broker.{
  Kind, Decision, pending, approved, rejected, expired, Gate, is_open, Policy, Evidence, needs,
  bounded, kind_name, gate_id, past,
}

pub record Store : Type 0 where
  pub gates : List Gate
  pub journal : Journal

pub data BrokerError : Type 0 where
  unreadable unencodable not_saved not_closed : BrokerError
  not_begun : JournalError → BrokerError
  no_gate : Text → BrokerError
  already : Text → Decision → BrokerError

-- What surrounds one call: its time, the end of a new gate's name, and which of its calls of the
-- database go through.
pub record Moment : Type 0 where
  pub now : ℕ
  pub fresh : Text
  pub reads : Bool
  pub reads_journal : Bool
  pub begins : Bool
  pub saves : Bool
  pub fails : Bool
  pub closes : Bool

pub record Codec : Type 0 where
  pub encode : Evidence → Option Text
  pub intent : Text → Kind → Text → Text → Option Text
  pub intent_gate : Text → Option Text
  pub outcome : Decision → Text → Text → Option Text
  pub failed_body : Text → Text
  pub save_error : Text

-- `ON CONFLICT (id) DO UPDATE SET`: the other columns of the row stay.
abbrev pub answered : Gate → Gate → Gate
answered g old = record old {
  decision = g.decision;
  decided_by = g.decided_by;
  note = g.note;
  decided_at = g.decided_at;
}

-- `save`.
unfoldable pub save : Gate → List Gate → List Gate
save g [] = g ∷ []
save g (h ∷ hs) = let rest = save g hs in if text_eq h.id g.id then answered g h ∷ hs else h ∷ rest

abbrev pub older : Gate → Gate → Bool
older a b = ltb a.created_at b.created_at

-- `list` with `WHERE id = ?`: the column is the table's key.
unfoldable pub find_gate : Text → List Gate → Option Gate
find_gate i [] = none
find_gate i (g ∷ gs) = if text_eq g.id i then some g else find_gate i gs

abbrev pub about : Text → Kind → Text → Gate → Bool
about task kind candidate g =
    text_eq g.task_id task
    && text_eq (kind_name g.kind) (kind_name kind)
    && text_eq g.candidate candidate

abbrev pub is_answer : Decision → Bool
is_answer approved = true
is_answer rejected = true
is_answer _ = false

abbrev pub usable : ℕ → Gate → Bool
usable now g = is_answer g.decision && not (past now g.expires_at)

unfoldable pub first : (Gate → Bool) → List Gate → Option Gate
first p [] = none
first p (g ∷ gs) = if p g then some g else first p gs

-- `decidedFor`: the latest answer to the same question on the same content.
unfoldable pub decided_for : ℕ → Text → Kind → Text → List Gate → Option Gate
decided_for now task kind candidate gates =
    if is_empty candidate
    then none
    else first (usable now) (reverse (sort_by older (keep (about task kind candidate) gates)))

abbrev pub deadline : ℕ → ℕ → Option ℕ
deadline now timeout = if ltb 0 timeout then some (now + timeout) else none

abbrev pub automatic : Text → Kind → Gate
automatic task kind = record {
  id = [];
  task_id = task;
  kind = kind;
  question = [];
  evidence = [];
  candidate = [];
  decision = approved;
  decided_by = [];
  note = codes "no gate required by policy";
  created_at = 0;
  decided_at = none;
  expires_at = none;
}

abbrev pub new_gate : Policy → Moment → Text → Kind → Text → Text → Text → Text → Gate
new_gate policy m task kind question why body candidate = record {
  id = gate_id m.fresh task kind candidate;
  task_id = task;
  kind = kind;
  question = trim_space (question ++ codes " (" ++ why ++ codes ")");
  evidence = body;
  candidate = candidate;
  decision = pending;
  decided_by = [];
  note = [];
  created_at = m.now;
  decided_at = none;
  expires_at = deadline m.now policy.timeout;
}

abbrev pub Answer : Type 0
Answer = Result BrokerError Gate × Store

-- The calls of the programs that share a workspace, in the order in which they commit.
pub data Call : Type 0 where
  asks : Policy → Text → Kind → Text → Evidence → Text → Call
  decides : Text → Decision → Text → Text → Call
  lists : (Text → Moment) → Call

module _ (codec : Codec) where
  -- From the journal's entry to the row, which is what a person then sees.
  unfoldable pub open_gate : Moment → Text → Gate → Store → Answer
  open_gate m why g s =
      elim (begin m.now m.begins g.task_id OpKind.approval (codec.intent g.id g.kind g.question why)
        [] s.journal) [
          | err e ↦ (err (not_begun e), s)
          | ok (h, j) ↦
              if m.saves then (ok g, record { gates = save g s.gates; journal = j }) else (
                err not_saved,
                record s {
                  journal = after j (fail codec.failed_body m.now m.fails codec.save_error h j);
                },
              )
        ]

  -- `Ask`, when the policy gives a reason.
  unfoldable pub ask_person :
      Policy → Moment → Text → Kind → Text → Text → Evidence → Text → Store → Answer
  ask_person policy m task kind question why ev candidate s =
      if not m.reads && not (is_empty candidate)
      then (err unreadable, s)
      else elim (decided_for m.now task kind candidate s.gates) [
        | some g ↦ (ok g, s)
        | none ↦ elim (codec.encode (bounded ev)) [
          | none ↦ (err unencodable, s)
          | some body ↦ open_gate m why (new_gate policy m task kind question why body candidate) s
        ]
      ]

  unfoldable pub ask : Policy → Moment → Text → Kind → Text → Evidence → Text → Store → Answer
  ask policy m task kind question ev candidate s = elim (needs policy kind ev) [
    | none ↦ (ok (automatic task kind), s)
    | some why ↦ ask_person policy m task kind question why ev candidate s
  ]

  abbrev asks_about : Text → Operation → Bool
  asks_about gate o = elim (codec.intent_gate o.intent) [ none ↦ false | some g ↦ text_eq g gate ]

  abbrev pub is_approval : OpKind → Bool
  is_approval OpKind.approval = true
  is_approval _ = false

  -- The loop of `Decide` over the operations of the task: the first open approval of the gate.
  unfoldable pub open_approval : Text → List Operation → Option Operation
  open_approval gate [] = none
  open_approval gate (o ∷ os) =
      if is_approval o.kind && uncertain o && asks_about gate o
      then some o
      else open_approval gate os

  -- The end of `Decide`, with `complete`: `UPDATE operations SET outcome = ?, finished_at = ?`.
  unfoldable pub close : Moment → Text → Gate → Store → Answer
  close m gate g s =
      if not m.reads_journal
      then (err unreadable, s)
      else elim (open_approval gate (operations g.task_id s.journal)) [
        | none ↦ (ok g, s)
        | some o ↦ elim (codec.outcome g.decision g.decided_by g.note) [
          | none ↦ (err not_closed, s)
          | some body ↦
              if m.closes
              then (
                ok g,
                record s {
                  journal = record s.journal {
                    rows =
                        update o.id (λ r. record r { outcome = body; finished_at = m.now })
                          s.journal.rows;
                  };
                },
              )
              else (err not_closed, s)
        ]
      ]

  abbrev pub decided : Moment → Decision → Text → Text → Gate → Gate
  decided m decision by note g = record g {
    decision = decision;
    decided_by = by;
    note = note;
    decided_at = some m.now;
  }

  -- `Decide`.
  unfoldable pub decide : Moment → Text → Decision → Text → Text → Store → Answer
  decide m gate decision by note s =
      if not m.reads then (err unreadable, s) else elim (find_gate gate s.gates) [
        | none ↦ (err (no_gate gate), s)
        | some g ↦
            if not (is_open g.decision)
            then (err (already gate g.decision), s)
            else if m.saves
            then close m gate (decided m decision by note g)
                (record s { gates = save (decided m decision by note g) s.gates })
            else (err not_saved, s)
      ]

  -- The loop of `Pending`: a gate past its deadline is decided as expired on the way, by a call with
  -- a moment of its own.
  unfoldable pub expire_all : ℕ → (Text → Moment) → List Gate → Store → List Gate × Store
  expire_all now moments [] s = ([], s)
  expire_all now moments (g ∷ gs) s =
      let (r, s') =
        decide (moments g.id) g.id expired (codes "system")
          (codes "nobody answered within the policy timeout") s in
      let (shown, after_decide) = expire_all now moments gs s' in
      let (kept, same) = expire_all now moments gs s in
      if past now g.expires_at
      then (elim r [ ok g' ↦ g' | err e ↦ g ] ∷ shown, after_decide)
      else (g ∷ kept, same)

  -- `Pending`.
  unfoldable pub pending_gates :
      Moment → (Text → Moment) → Store → Result BrokerError (List Gate) × Store
  pending_gates m moments s =
      if not m.reads
      then (err unreadable, s)
      else let (shown, s') =
          expire_all m.now moments (sort_by older (keep (λ g. is_open g.decision) s.gates)) s in
        (ok (sort_by older shown), s')

  unfoldable pub step : Store → Moment × Call → Store
  step s (m, asks policy task kind question ev candidate) =
      (ask policy m task kind question ev candidate s).1
  step s (m, decides gate decision by note) = (decide m gate decision by note s).1
  step s (m, lists moments) = (pending_gates m moments s).1

  unfoldable pub run : Store → List (Moment × Call) → Store
  run s [] = s
  run s (c ∷ cs) = run (step s c) cs

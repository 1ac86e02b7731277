-- ===== src/Native/Reconcile.antt =====
-- `reconcile` of internal/engine/native/reconcile.go and `Step` of internal/engine/native/native.go:
-- what an attempt does with a batch that was interrupted. The JSON of the journal is a parameter.
pub mod Rest
pub mod Whole
pub mod Chain
mod Examples
use local_engineer.Prelude.{
  ℕ, suc, Bool, true, false, not, ◌&&◌, ◌||◌, List, [], ◌∷◌, ◌++◌, Option, none, some, Result, ok,
  err, ◌==◌, if◌then◌else◌, is_empty, any,
}
use local_engineer.GoStrings.{Text, codes, text_eq}
use local_engineer.Trust.{Fence, restore_fence, wrap}
use local_engineer.Ledger.Journal.{Operation, Journal, operations, uncertain}
use local_engineer.Native.{ToolCall, ToolResult, tool_run_recipe}
use local_engineer.Native.Exec.{Request}
use local_engineer.Native.Loop.{
  Message, Transcript, Budget, Engine, LoopHost, StepError, not_reconciled, only_in_edit, Flow,
  fails, Live, tool_message,
}
use local_engineer.Native.Loop.Calls.{persist, unless_failed}
use local_engineer.Native.Loop.Turn.{resume}
use local_engineer.Native.Loop.Batches.{is_role}

-- What the intent of a journalled decision says.
pub record Intent : Type 0 where
  pub session : Text
  pub step : ℕ
  pub id : Text
  pub arguments : Text

pub record Decoding : Type 0 where
  pub intent_of : Text → Option Intent
  pub result_of : Text → Option ToolResult

pub data ReconcileError : Type 0 where
  no_journal unreadable no_fence no_manifest no_batch bad_outcome broken_chain moved :
      ReconcileError
  uncertain_effect : Text → ReconcileError

-- The last turn that asked for calls, and what follows it.
unfoldable pub last_batch : List Message → Option (List ToolCall × List Message)
last_batch [] = none
last_batch (m ∷ ms) = elim (last_batch ms) [
  | some r ↦ some r
  | none ↦
      if is_role (codes "assistant") m && not (is_empty m.tool_calls)
      then some (m.tool_calls, ms)
      else none
]

abbrev pub completed : List Message → ToolCall → Bool
completed after c = any (λ m. is_role (codes "tool") m && text_eq m.tool_call_id c.id) after

pub record Rebuilt : Type 0 where
  pub messages : List Message
  pub recovered : List (ToolCall × ToolResult)
  pub boundary : Bool
  pub candidate : Text

abbrev pub not_executed_note : Text
not_executed_note = codes "Not executed: process stopped before this action was journalled."

unfoldable pub with_rest :
    (Rebuilt → Rebuilt) → Result ReconcileError Rebuilt → Result ReconcileError Rebuilt
with_rest f (ok r) = ok (f r)
with_rest f (err e) = err e

module _ (d : Decoding) (tr : Transcript) (fence : Fence) where
  abbrev pub is_intent : ToolCall → Option Intent → Bool
  is_intent c none = false
  is_intent c (some i) =
      text_eq i.session tr.fence_token
      && i.step == tr.steps
      && text_eq i.id c.id
      && text_eq i.arguments c.arguments

  -- The last operation of this session and step with the call's name and arguments.
  unfoldable pub match_op : ToolCall → List Operation → Option Operation
  match_op c [] = none
  match_op c (o ∷ os) = elim (match_op c os) [
    | some p ↦ some p
    | none ↦ if is_intent c (d.intent_of o.intent) then some o else none
  ]

  abbrev pub unstarted : ToolCall → Rebuilt → Rebuilt
  unstarted c r = record r {
    messages = tool_message c not_executed_note ∷ r.messages;
    boundary = true;
  }

  abbrev pub restored : ToolCall → ToolResult → Rebuilt → Rebuilt
  restored c result r = record r {
    messages =
        tool_message c (wrap fence (codes "result of " ++ c.name) result.content) ∷ r.messages;
    recovered = (c, result) ∷ r.recovered;
  }

  -- The loop over the calls of the batch; `last` is the candidate after the action before.
  unfoldable pub rebuild :
      List Operation → List Message → List ToolCall → Text → Result ReconcileError Rebuilt
  rebuild ops after [] last =
      ok (record { messages = []; recovered = []; boundary = false; candidate = last })
  rebuild ops after (c ∷ cs) last =
      let skipped = rebuild ops after cs last in
      if completed after c then skipped else elim (match_op c ops) [
        | none ↦ with_rest (unstarted c) (rebuild ops after cs last)
        | some o ↦
            if uncertain o then err (uncertain_effect c.id) else elim (d.result_of o.outcome) [
              | none ↦ err bad_outcome
              | some result ↦
                  let rest = rebuild ops after cs o.candidate_after in
                  if text_eq o.candidate_before last
                  then with_rest (restored c result) rest
                  else err broken_chain
            ]
      ]

-- A recovered result counts like one of the loop.
abbrev count_if : Bool → ℕ → ℕ
count_if b n = if b then suc n else n

abbrev pub recount_one : ToolCall × ToolResult → Transcript → Transcript
recount_one (c, result) tr = record tr {
  tools = suc tr.tools;
  invalid_calls = count_if result.invalid tr.invalid_calls;
  verify_runs = count_if (text_eq c.name tool_run_recipe) tr.verify_runs;
  closed = tr.closed || result.done;
  claims_done = tr.claims_done || result.done;
  summary = if result.done then result.summary else tr.summary;
}

unfoldable pub recount : List (ToolCall × ToolResult) → Transcript → Transcript
recount [] tr = tr
recount (r ∷ rs) tr = recount rs (recount_one r tr)

abbrev pub at_boundary : Bool → Transcript → Transcript
at_boundary false tr = tr
at_boundary true tr = record tr {
  closed = true;
  budget_exhausted = true;
  summary = codes "interrupted batch reconciled; unfinished calls require a new phase";
}

abbrev pub reconciled : Rebuilt → Text → Transcript → Transcript
reconciled r current tr =
    at_boundary r.boundary
      (record (recount r.recovered (record tr { messages = tr.messages ++ r.messages })) {
        pending = false;
        candidate = current;
      })

-- The transcript that `reconcile` saves.
unfoldable pub reconcile_batch :
    Decoding
    → Fence
    → Option (List Operation)
    → Text
    → Transcript
    → Result ReconcileError Transcript
reconcile_batch d fence none current tr = elim (last_batch tr.messages) [
  | none ↦ err no_batch
  | some batch ↦ err unreadable
]
reconcile_batch d fence (some ops) current tr = elim (last_batch tr.messages) [
  | none ↦ err no_batch
  | some batch ↦ elim (rebuild d tr fence ops batch.1 batch.0 tr.candidate) [
    | err e ↦ err e
    | ok r ↦
        if is_empty r.candidate || not (text_eq r.candidate current)
        then err moved
        else ok (reconciled r current tr)
  ]
]

module _ {W : Type 0} (host : LoopHost W) (req : Request) (engine : Engine) (budget : Budget) where
  -- `reconcile`, from its first check to the call of `SaveTranscript`; `reads` says whether the
  -- journal can be read.
  unfoldable pub reconcile :
      Decoding → (ReconcileError → Text) → Bool → (Live W → Flow × Live W) → Live W → Flow × Live W
  reconcile d explain reads rest s = elim s.journal [
    | none ↦ (fails (not_reconciled (explain no_journal)), s)
    | some j ↦ elim (restore_fence s.tr.fence_token) [
      | none ↦ (fails (not_reconciled (explain no_fence)), s)
      | some fence ↦ elim (host.tools.manifest s.world) [
        | none ↦ (fails (not_reconciled (explain no_manifest)), s)
        | some current ↦
            elim (reconcile_batch d fence (if reads then some (operations req.task_id j) else none)
              current s.tr) [
                | err e ↦ (fails (not_reconciled (explain e)), s)
                | ok tr ↦
                    unless_failed host req fence
                      (persist host req fence (record s { tr = tr; messages = tr.messages })) rest
              ]
      ]
    ]
  ]

  -- `Step`: only in EDIT, and after the recovery of a batch that is pending.
  unfoldable pub step :
      Decoding → (ReconcileError → Text) → Bool → Bool → Text → Text → Live W → Flow × Live W
  step d explain reads in_edit system brief s =
      if not in_edit
      then (fails only_in_edit, s)
      else if s.tr.pending
      then reconcile d explain reads (resume host req engine budget system brief) s
      else resume host req engine budget system brief s

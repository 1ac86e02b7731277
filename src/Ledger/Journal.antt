-- ===== src/Ledger/Journal.antt =====
-- internal/ledger/ledger.go: the journal that is written before each side effect and after it. The
-- table `operations` is a list, the latest row first. `none` for a body is a failed `json.Marshal`,
-- and `commits` says whether the transaction went through.
pub mod Rows
pub mod Keys
pub mod Certainty
pub mod Handles
use local_engineer.Prelude.{
  ℕ, suc, ◌+◌, Bool, true, false, not, ◌&&◌, List, [], ◌∷◌, Option, none, some, ltb, ◌==◌,
  if◌then◌else◌, Result, ok, err, is_empty, keep, sort_by,
}
use local_engineer.GoStrings.{Text, codes, text_eq}

pub data OpKind : Type 0 where
  inspect_file search retrieval decision edit recipe_run review : OpKind
  checkpoint approval session_start session_end : OpKind

-- A row; the empty text stands for a NULL column, as the queries read it by COALESCE.
pub record Operation : Type 0 where
  pub id : ℕ
  pub task_id : Text
  pub seq : ℕ
  pub kind : OpKind
  pub intent : Text
  pub outcome : Text
  pub candidate_before : Text
  pub candidate_after : Text
  pub evidence_id : Text
  pub started_at : ℕ
  pub finished_at : ℕ
  pub cause : Text

-- `Uncertain`: the outcome was never written.
abbrev pub uncertain : Operation → Bool
uncertain o = is_empty o.outcome

-- The rows, and the key that SQLite gives next.
pub record Journal : Type 0 where
  pub rows : List Operation
  pub next_id : ℕ

pub record Handle : Type 0 where
  pub id : ℕ
  pub seq : ℕ
  pub task_id : Text
  pub kind : OpKind
  pub done : Bool

pub data JournalError : Type 0 where
  unmarshallable : JournalError
  not_committed : JournalError
  already_finished : ℕ → JournalError

-- `COALESCE(MAX(seq), 0)` of a task.
unfoldable pub max_seq : Text → List Operation → ℕ
max_seq task [] = 0
max_seq task (o ∷ os) =
    let rest = max_seq task os in if text_eq o.task_id task && ltb rest o.seq then o.seq else rest

abbrev pub new_row : ℕ → Text → OpKind → Text → Text → Journal → Operation
new_row now task kind intent before j = record {
  id = j.next_id;
  task_id = task;
  seq = suc (max_seq task j.rows);
  kind = kind;
  intent = intent;
  outcome = [];
  candidate_before = before;
  candidate_after = [];
  evidence_id = [];
  started_at = now;
  finished_at = 0;
  cause = [];
}

-- `Begin`.
unfoldable pub begin :
    ℕ → Bool → Text → OpKind → Option Text → Text → Journal → Result JournalError (Handle × Journal)
begin now commits task kind none before j = err unmarshallable
begin now commits task kind (some intent) before j =
    let row = new_row now task kind intent before j in
    let h : Handle = record {
      id = row.id;
      seq = row.seq;
      task_id = task;
      kind = kind;
      done = false;
    } in
    if commits
    then ok (h, record { rows = row ∷ j.rows; next_id = suc j.next_id })
    else err not_committed

-- `UPDATE operations SET … WHERE id = ?`.
unfoldable pub update : ℕ → (Operation → Operation) → List Operation → List Operation
update i f [] = []
update i f (o ∷ os) = let rest = update i f os in if o.id == i then f o ∷ rest else o ∷ rest

abbrev pub finished_row : ℕ → Text → Text → Text → Operation → Operation
finished_row now outcome after evidence o = record o {
  outcome = outcome;
  candidate_after = after;
  evidence_id = evidence;
  finished_at = now;
}

abbrev pub interrupted_row : ℕ → Text → Operation → Operation
interrupted_row now cause o = record o { cause = cause; finished_at = now }

-- `finish`, which `Complete` and `Fail` call; the caller goes on with the handle that it returns.
unfoldable pub finish :
    ℕ → Bool → Option Text → Text → Text → Handle → Journal → Result JournalError (Handle × Journal)
finish now commits none after evidence h j =
    if h.done then err (already_finished h.id) else err unmarshallable
finish now commits (some outcome) after evidence h j =
    if h.done
    then err (already_finished h.id)
    else if commits
    then ok (
      record h { done = true },
      record j { rows = update h.id (finished_row now outcome after evidence) j.rows },
    )
    else err not_committed

-- `Complete`.
unfoldable pub complete :
    ℕ → Bool → Option Text → Text → Text → Handle → Journal → Result JournalError (Handle × Journal)
complete now commits outcome after evidence h j = finish now commits outcome after evidence h j

-- `Fail`: `failed_body` is the JSON of a failed status with its cause.
unfoldable pub fail :
    (Text → Text) → ℕ → Bool → Text → Handle → Journal → Result JournalError (Handle × Journal)
fail failed_body now commits cause h j = finish now commits (some (failed_body cause)) [] [] h j

abbrev pub cause_text : Option Text → Text
cause_text none = codes "interrupted"
cause_text (some cause) = cause

-- `Interrupted` leaves the outcome NULL and keeps the cause beside it.
unfoldable pub interrupted :
    ℕ → Bool → Option Text → Handle → Journal → Result JournalError (Handle × Journal)
interrupted now commits cause h j =
    if h.done
    then err (already_finished h.id)
    else if commits
    then ok (
      record h { done = true },
      record j { rows = update h.id (interrupted_row now (cause_text cause)) j.rows },
    )
    else err not_committed

-- `Operations`: a task's rows in the order of their sequence.
unfoldable pub operations : Text → Journal → List Operation
operations task j = sort_by (λ a b. ltb a.seq b.seq) (keep (λ o. text_eq o.task_id task) j.rows)

unfoldable pub find_row : ℕ → List Operation → Option Operation
find_row i [] = none
find_row i (o ∷ os) = if o.id == i then some o else find_row i os

-- The calls of a run of the program, in the order in which they commit.
pub data Call : Type 0 where
  begins : Text → OpKind → Option Text → Text → Call
  finishes : Handle → Option Text → Text → Text → Call
  interrupts : Handle → Option Text → Call

abbrev pub after : Journal → Result JournalError (Handle × Journal) → Journal
after j (ok (h, j')) = j'
after j (err e) = j

unfoldable pub step : Journal → ℕ × Bool × Call → Journal
step j (now, commits, begins task kind intent before) =
    after j (begin now commits task kind intent before j)
step j (now, commits, finishes h outcome candidate evidence) =
    after j (finish now commits outcome candidate evidence h j)
step j (now, commits, interrupts h cause) = after j (interrupted now commits cause h j)

unfoldable pub run : Journal → List (ℕ × Bool × Call) → Journal
run j [] = j
run j (c ∷ cs) = run (step j c) cs

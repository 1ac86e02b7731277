-- ===== src/Supervisor.antt =====
-- internal/supervisor/lifecycle.go: what is recorded of a task that another program carries out, and what
-- is read back. The JSON encodings are parameters. A query that fails is not modelled.
pub mod Finish
pub mod Records
pub mod Verdicts
mod Examples
use local_engineer.Prelude.{
  ℕ, suc, ◌+◌, Bool, true, false, not, ◌&&◌, ◌||◌, List, [], ◌∷◌, ◌++◌, Option, none, some, ltb,
  leb, ◌==◌, if◌then◌else◌, Result, ok, err, is_empty, length, drop, map, sort_by, reverse,
}
use local_engineer.GoStrings.{Text, codes, text_eq, text_lt, split, has_prefix, trim_space}
use local_engineer.Policy.{PolicySet, check}
use local_engineer.Recipe.{Status, RunResult}
use local_engineer.Ledger.Journal.{
  OpKind, Operation, Journal, JournalError, begin, complete, operations, Handle,
}
use local_engineer.Task.{State, Row, get, set_state}

pub record Decision : Type 0 where
  pub question : Text
  pub answer : Text
  pub at : ℕ

pub record CheckResult : Type 0 where
  pub name : Text
  pub status : Status
  pub headline : Text

pub record VerificationRecord : Type 0 where
  pub accepted : Bool
  pub candidate : Text
  pub reasons : List Text
  pub out_of_scope : List Text
  pub checks : List CheckResult

pub data Verdict : Type 0 where
  verified unverified not_verified : Verdict

pub record Review : Type 0 where
  pub task_id : Text
  pub intent : Text
  pub verdict : Verdict
  pub decisions : List Decision
  pub files_changed_count : ℕ
  pub files_changed : List Text
  pub checks : List CheckResult
  pub protected : List Text
  pub warnings : List Text
  pub finished_at : ℕ

-- `Outcome` of internal/task/runner.go, as far as it is recorded.
pub record Outcome : Type 0 where
  pub accepted : Bool
  pub candidate : Text
  pub reasons : List Text
  pub out_of_scope : List Text
  pub results : List RunResult

-- The JSON of what is recorded; `none` where it cannot be written or read.
pub record Codec : Type 0 where
  pub started : Text → Option Text
  pub decision : Text → Text → Option Text
  pub read_decision : Text → Option (Text × Text × Text)
  pub verification : VerificationRecord → Option Text
  pub read_verification : Text → Option VerificationRecord
  pub review : Review → Option Text

pub data SupervisorError : Type 0 where
  no_objective : SupervisorError
  not_created : SupervisorError
  no_answer : SupervisorError
  no_task : Text → SupervisorError
  not_journalled : JournalError → SupervisorError
  not_set : SupervisorError

-- When an event is begun and completed, and whether each of the two transactions goes through.
pub record Moment : Type 0 where
  pub begun_at : ℕ
  pub begins : Bool
  pub completed_at : ℕ
  pub completes : Bool

-- The end of `RecordEvent`: what `Complete` says, after an event that is begun.
abbrev pub closed : Journal → Result JournalError (Handle × Journal) → Option JournalError × Journal
closed begun (err e) = (some e, begun)
closed begun (ok (done, completed)) = (none, completed)

abbrev pub close_event :
    Moment
    → Option Text
    → Result JournalError (Handle × Journal)
    → Journal
    → Option JournalError × Journal
close_event m detail (err e) j = (some e, j)
close_event m detail (ok (h, begun)) j =
    closed begun (complete m.completed_at m.completes detail [] [] h begun)

-- `RecordEvent`.
unfoldable pub record_event :
    Moment → Text → OpKind → Option Text → Journal → Option JournalError × Journal
record_event m task kind detail j =
    close_event m detail (begin m.begun_at m.begins task kind detail [] j) j

abbrev pub journalled : Option JournalError → Option SupervisorError
journalled none = none
journalled (some e) = some (not_journalled e)

-- The tables that a supervised task is kept in.
pub record Store : Type 0 where
  pub tasks : List Row
  pub journal : Journal

abbrev pub new_task : ℕ → Text → Text → Row
new_task now id title = record {
  id = id;
  title = title;
  state = State.pending;
  updated_at = now;
  finished_at = none;
}

abbrev pub check_result : RunResult → CheckResult
check_result r = record { name = r.recipe; status = r.status; headline = r.summary.headline }

abbrev pub record_of : Outcome → VerificationRecord
record_of o = record {
  accepted = o.accepted;
  candidate = o.candidate;
  reasons = o.reasons;
  out_of_scope = o.out_of_scope;
  checks = map check_result o.results;
}

module _ (codec : Codec) where
  -- `StartTask`, with the name of the task: `creates` says whether its row is committed.
  unfoldable pub start_task :
      ℕ → Bool → Moment → Text → Text → Store → Option SupervisorError × Store
  start_task now creates m id objective s =
      if is_empty (trim_space objective) then (some no_objective, s) else elim (get id s.tasks) [
        | some t ↦ (some not_created, s)
        | none ↦
            let (e, j) =
              record_event m id OpKind.session_start (codec.started (trim_space objective))
                s.journal in
            if creates
            then (
              journalled e,
              record { tasks = new_task now id (trim_space objective) ∷ s.tasks; journal = j },
            )
            else (some not_created, s)
      ]

  -- `RecordAnswer`.
  unfoldable pub record_answer :
      Moment → Text → Text → Text → Journal → Option SupervisorError × Journal
  record_answer m task question answer j =
      let (e, next) =
        record_event m task OpKind.decision
          (codec.decision (trim_space question) (trim_space answer)) j in
      if is_empty (trim_space question) || is_empty (trim_space answer)
      then (some no_answer, j)
      else (journalled e, next)

  -- What `Decisions` keeps of one row.
  abbrev pub user_decision : Operation → Option (Text × Text × Text) → List Decision
  user_decision o none = []
  user_decision o (some (question, answer, source)) =
      if text_eq source (codes "user")
      then record { question = question; answer = answer; at = o.started_at } ∷ []
      else []

  abbrev pub is_decision : OpKind → Bool
  is_decision OpKind.decision = true
  is_decision _ = false

  unfoldable pub decisions_in : List Operation → List Decision
  decisions_in [] = []
  decisions_in (o ∷ os) =
      (if is_decision o.kind then user_decision o (codec.read_decision o.intent) else [])
      ++ decisions_in os

  -- `Decisions`.
  unfoldable pub decisions : Text → Journal → List Decision
  decisions task j = decisions_in (operations task j)

  -- `RecordVerification`; there may be no outcome to record.
  unfoldable pub record_verification :
      Moment → Text → Option Outcome → Journal → Option SupervisorError × Journal
  record_verification m task none j = (none, j)
  record_verification m task (some o) j =
      let (e, next) = record_event m task OpKind.recipe_run (codec.verification (record_of o)) j in
      (journalled e, next)

  abbrev pub is_run : OpKind → Bool
  is_run OpKind.recipe_run = true
  is_run _ = false

  abbrev pub or_latest :
      Option VerificationRecord → Option VerificationRecord → Option VerificationRecord
  or_latest none latest = latest
  or_latest (some r) latest = some r

  abbrev pub verification_in : Operation → Option VerificationRecord
  verification_in o = if is_run o.kind then codec.read_verification o.intent else none

  -- The loop of `LastVerification`.
  unfoldable pub latest_in : List Operation → Option VerificationRecord → Option VerificationRecord
  latest_in [] latest = latest
  latest_in (o ∷ os) latest = latest_in os (or_latest (verification_in o) latest)

  -- `LastVerification`.
  unfoldable pub last_verification : Text → Journal → Option VerificationRecord
  last_verification task j = latest_in (operations task j) none

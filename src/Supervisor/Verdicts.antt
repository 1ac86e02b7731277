-- ===== src/Supervisor/Verdicts.antt =====
-- A supervised task is accepted exactly when its last recorded verification was.
use local_engineer.Prelude.{ℕ, ◌≡◌, ◌&&◌, List, [], ◌∷◌, Option, none, some, if◌then◌else◌}
use local_engineer.GoStrings.{Text, text_eq}
use local_engineer.Ledger.Journal.{Journal}
use local_engineer.Task.{State, Row, terminal}
use local_engineer.Supervisor.{
  VerificationRecord, Codec, Moment, Outcome, record_of, record_answer, record_verification,
}

-- What the program that carries out a task reports while it works.
pub data Event : Type 0 where
  answered : Text → Text → Event
  checked : Option Outcome → Event

-- What is reported is written as JSON that reads back as it was.
abbrev pub ReadsBack : Codec → Moment × Text × Event → Type 0
ReadsBack codec (m, task, answered question answer) = Unit {0}
ReadsBack codec (m, task, checked none) = Unit {0}
ReadsBack codec (m, task, checked (some o)) =
    (x : Text) × (codec.verification (record_of o) ≡ some x)
    × (codec.read_verification x ≡ some (record_of o))

-- The verification that counts after an event of a task: the new one, if its intent was committed.
abbrev pub judged :
    Text → Moment × Text × Event → Option VerificationRecord → Option VerificationRecord
judged task (m, of_task, answered question answer) latest = latest
judged task (m, of_task, checked none) latest = latest
judged task (m, of_task, checked (some o)) latest =
    if m.begins && text_eq of_task task then some (record_of o) else latest

unfoldable pub judge_all :
    Text → List (Moment × Text × Event) → Option VerificationRecord → Option VerificationRecord
judge_all task [] latest = latest
judge_all task (e ∷ es) latest = judge_all task es (judged task e latest)

-- The row of a task that is closed.
abbrev pub ended : ℕ → State → Row → Row
ended now state t = record t {
  state = state;
  updated_at = now;
  finished_at = if terminal state then some now else none;
}

abbrev after_set : ℕ → State → Option Row → Option Row
after_set now state none = none
after_set now state (some t) = some (ended now state t)

module _ (codec : Codec) where
  abbrev pub report : Moment × Text × Event → Journal → Journal
  report (m, task, answered question answer) j = (record_answer codec m task question answer j).1
  report (m, task, checked o) j = (record_verification codec m task o j).1

  unfoldable pub report_all : List (Moment × Text × Event) → Journal → Journal
  report_all [] j = j
  report_all (e ∷ es) j = report_all es (report e j)

-- ===== src/Task/Driver.antt =====
-- The loop of runPhases in internal/task/phases.go: the budgets at the head of each turn, and the case
-- of the phase that the task is in.
pub mod Termination
pub mod Acceptance
pub mod Loops
mod Examples
use local_engineer.Prelude.{
  ℕ, zero, suc, Bool, true, false, List, Option, none, some, if◌then◌else◌,
}
use local_engineer.GoStrings.{Text}
use local_engineer.Workflow.{Phase}
use local_engineer.Task.{State}
use local_engineer.Task.Verify.{
  Work, Why, no_time, no_tokens, Turn, crashed, stopped, moved, World, verify,
}
use local_engineer.Task.Finalize.{Closing, finalize}
use local_engineer.Task.Phases.{
  Opening, Planner, Editor, Reviewer, intake, localize, assess, planning, edit, review,
}

-- The answers of the world to one turn.
pub record Answers : Type 0 where
  pub out_of_time : Bool
  pub out_of_tokens : Bool
  pub candidate : Option Text
  pub opening : Opening
  pub planner : Planner
  pub editor : Editor
  pub reviewer : Reviewer
  pub world : World
  pub closing : Closing

unfoldable pub in_phase : Phase → Answers → Work → Turn
in_phase Phase.intake a w = intake a.opening a.world w
in_phase Phase.localize a w = localize a.opening a.world w
in_phase Phase.impact a w = assess a.opening a.world w
in_phase Phase.planning a w = planning a.planner a.world w
in_phase Phase.edit a w = edit a.editor a.world w
in_phase Phase.verify a w = verify a.world w
in_phase Phase.review a w = review a.reviewer a.world w
in_phase Phase.finalize a w = finalize a.closing a.world w

-- One round of the loop.
unfoldable pub turn : Answers → Work → Turn
turn a w =
    if a.out_of_time
    then stopped State.blocked no_time w
    else if a.out_of_tokens
    then stopped State.blocked no_tokens w
    else elim a.candidate [
      | none ↦ crashed
      | some candidate ↦ in_phase w.phase a (record w { candidate = candidate })
    ]

-- How a run of the loop ends; `unfinished` when the fuel is spent.
pub data Ending : Type 0 where
  driver_error unfinished : Ending
  ended : State → Why → Work → Ending

-- The loop, with the answers to the turns that are left counted down.
unfoldable pub drive : (ℕ → Answers) → ℕ → Work → Ending
drive answers zero w = unfinished
drive answers (suc fuel) w = elim (turn (answers fuel) w) [
  | crashed ↦ driver_error
  | stopped state why w' ↦ ended state why w'
  | moved w' ↦ drive answers fuel w'
]

-- ===== src/Workflow/Store.antt =====
-- internal/task/workflow_store.go: `SaveWorkflow`, which persists a task's workflow and journals
-- each change of phase in the same transaction. The stored body and the clock are left out.
pub mod History
use local_engineer.Prelude.{
  ℕ, suc, Bool, true, false, not, List, [], ◌∷◌, ◌++◌, Option, none, some, if◌then◌else◌, Result,
  ok, err, length,
}
use local_engineer.GoStrings.{Text}
use local_engineer.Workflow.{Phase, intake, Forbidden, transition, same_phase}

-- A journal row that `SaveWorkflow` writes: the phase left (`none` at the first save), the phase
-- entered, and the candidate.
pub record PhaseMove : Type 0 where
  pub from : Option Phase
  pub to : Phase
  pub candidate : Text

-- One task's row of `task_workflow`, if there is one, and its phase rows of `operations`, the
-- latest first.
pub record Saved : Type 0 where
  pub phase : Option Phase
  pub journal : List PhaseMove

pub data SaveError : Type 0 where
  forbidden_move : Forbidden → SaveError
  not_at_intake : Phase → SaveError

check_previous : Option Phase → Phase → Option SaveError
check_previous none next = if same_phase next intake then none else some (not_at_intake next)
check_previous (some previous) next =
    if same_phase previous next
    then none
    else elim (transition previous next) [ none ↦ none | some e ↦ some (forbidden_move e) ]

-- Saving again in the same phase adds no row.
journal_row : Option Phase → Phase → Text → List PhaseMove → List PhaseMove
journal_row none next candidate rows =
    record { from = none; to = next; candidate = candidate } ∷ rows
journal_row (some previous) next candidate rows =
    if same_phase previous next
    then rows
    else record { from = some previous; to = next; candidate = candidate } ∷ rows

-- `SaveWorkflow`; an error rolls the transaction back, so the caller keeps what was saved.
unfoldable pub save_workflow : Saved → Phase → Text → Result SaveError Saved
unfolding check_previous journal_row
save_workflow s next candidate = elim (check_previous s.phase next) [
  | some e ↦ err e
  | none ↦ ok (record { phase = some next; journal = journal_row s.phase next candidate s.journal })
]

-- A caller that goes on after a refused save.
abbrev pub kept : Saved → Result SaveError Saved → Saved
kept s (ok s') = s'
kept s (err e) = s

unfoldable pub save_all : Saved → List (Phase × Text) → Saved
save_all s [] = s
save_all s ((next, candidate) ∷ saves) = save_all (kept s (save_workflow s next candidate)) saves

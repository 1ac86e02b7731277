-- ===== src/Task.antt =====
-- internal/task: the states of a task in internal/task/task.go, with Reopen, which decides when a
-- finished task may run again. The children model the driver of internal/task/phases.go.
pub mod Reopen
pub mod Verify
pub mod Phases
pub mod Finalize
pub mod Driver
pub mod Packs
mod Examples
use local_engineer.Prelude.{
  ℕ, Bool, true, false, List, [], ◌∷◌, Option, none, some, Result, ok, err, if◌then◌else◌,
}
use local_engineer.GoStrings.{Text, text_eq}

pub data State : Type 0 where
  pending running paused blocked in_review accepted failed abandoned : State

unfoldable pub terminal : State → Bool
terminal accepted = true
terminal failed = true
terminal abandoned = true
terminal _ = false

-- The columns of a task that its state is kept in, and its title.
pub record Row : Type 0 where
  pub id : Text
  pub title : Text
  pub state : State
  pub updated_at : ℕ
  pub finished_at : Option ℕ

-- `UPDATE tasks SET … WHERE id = ?`.
unfoldable pub set_state : ℕ → Text → State → List Row → List Row
set_state now id state [] = []
set_state now id state (t ∷ ts) =
    let rest = set_state now id state ts in
    if text_eq t.id id
    then record t {
      state = state;
      updated_at = now;
      finished_at = if terminal state then some now else none;
    }
      ∷ rest
    else t ∷ rest

unfoldable pub get : Text → List Row → Option Row
get id [] = none
get id (t ∷ ts) = if text_eq t.id id then some t else get id ts

pub data RetryError : Type 0 where
  no_such_task : Text → RetryError
  already_accepted : Text → RetryError
  already_runnable : Text → State → RetryError

-- `Reopen`.
unfoldable pub reopen : ℕ → Text → List Row → Result RetryError (Row × List Row)
reopen now id ts = elim (get id ts) [
  | none ↦ err (no_such_task id)
  | some t ↦ elim t.state [
    | accepted ↦ err (already_accepted id)
    | state ↦
        if terminal state
        then ok (record t { state = pending }, set_state now id pending ts)
        else err (already_runnable id state)
  ]
]

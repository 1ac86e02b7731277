-- ===== src/Workflow.antt =====
-- internal/workflow/state.go: the phases of a task and the moves that `Transition` allows. The plan,
-- the failures and the store of the phase stand in the children.
pub mod Plan
pub mod Failure
pub mod Order
pub mod Store
mod Examples
use local_engineer.Prelude.{
  Bool, true, false, List, [], ◌∷◌, Option, none, some, any, if◌then◌else◌,
}

pub data Phase : Type 0 where
  intake localize impact planning edit verify review finalize : Phase

pub data Forbidden : Type 0 where
  forbidden : Phase → Phase → Forbidden

-- `==` on phases.
abbrev pub same_phase : Phase → Phase → Bool
same_phase intake intake = true
same_phase localize localize = true
same_phase impact impact = true
same_phase planning planning = true
same_phase edit edit = true
same_phase verify verify = true
same_phase review review = true
same_phase finalize finalize = true
same_phase _ _ = false

-- The map of `Transition`.
abbrev pub allowed : Phase → List Phase
allowed intake = localize ∷ []
allowed localize = impact ∷ []
allowed impact = planning ∷ []
allowed planning = edit ∷ []
allowed edit = verify ∷ planning ∷ localize ∷ []
allowed verify = edit ∷ review ∷ localize ∷ planning ∷ []
allowed review = edit ∷ localize ∷ finalize ∷ []
allowed finalize = []

unfoldable pub transition : Phase → Phase → Option Forbidden
transition from to =
    if any (λ next. same_phase next to) (allowed from) then none else some (forbidden from to)

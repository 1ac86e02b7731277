-- ===== src/Workflow/Order.antt =====
-- What every history of allowed moves has in common.
use native.Mathlib.Decide.{dec_le}
use local_engineer.Prelude.{ℕ, ◌+◌, ◌≤◌, ◌≡◌, ◌≢◌, ◌⊎◌, inl, inr, List, [], ◌∷◌, none, arith, In}
use local_engineer.Workflow.{
  Phase, intake, localize, impact, planning, edit, verify, review, finalize, transition,
}

-- The phases visited from one phase to another, the first one left out.
pub data History (from : Phase) : List Phase → Phase → Type 0 where
  start : History from [] from
  move :
      {ps : List Phase} {p q : Phase}
      → History from ps p
      → transition p q ≡ none
      → History from (q ∷ ps) q

-- How far a phase stands from the start.
abbrev pub rank : Phase → ℕ
rank intake = 0
rank localize = 1
rank impact = 2
rank planning = 3
rank edit = 4
rank verify = 5
rank review = 6
rank finalize = 7

-- A move goes at most one phase forward, never from a finished task, and never to the start.
pub transition-rank :
    (p q : Phase) → transition p q ≡ none → (rank q ≤ rank p + 1) × (p ≢ finalize) × (q ≢ intake)
unfolding transition
transition-rank p q h = ground arith

rank-injective : (p q : Phase) → rank p ≡ rank q → p ≡ q
rank-injective p q h = ground arith

rank-zero : (q : Phase) → rank q ≤ 0 → q ≡ intake
rank-zero q h = ground arith

-- Where a move lands, a lower phase was already due before it, or is the one just entered.
rank-cases : (p q r : Phase) → rank r ≤ rank p + 1 → rank q ≤ rank r → (rank q ≤ rank p) ⊎ (r ≡ q)
rank-cases p q r h k = elim (dec_le (rank q) (rank p)) [
  | yes low ↦ inl low
  | no high ↦ inr (rank-injective r q (omega arith))
]

-- A history from `INTAKE` has visited every phase up to its last one: no move skips a phase.
pub visited :
    {ps : List Phase} {p : Phase}
    → History intake ps p
    → (q : Phase) → q ≢ intake
    → rank q ≤ rank p
    → In q ps
visited start q h le = absurd (h (rank-zero q le))
visited (move {p = p} {q = r} past step) q h le =
    elim (rank-cases p q r (transition-rank p r step).0 le) [
      | inl earlier ↦ inr (visited past q h earlier)
      | inr now ↦ inl now
    ]

-- A task that was finalized has been localized, its impact assessed, planned, edited, verified and
-- reviewed.
pub finalized_task :
    {ps : List Phase}
    → History intake ps finalize
    → In localize ps × In impact ps × In planning ps × In edit ps × In verify ps × In review ps
finalized_task past = (
  visited past localize (λ e. cc) (omega arith),
  visited past impact (λ e. cc) (omega arith),
  visited past planning (λ e. cc) (omega arith),
  visited past edit (λ e. cc) (omega arith),
  visited past verify (λ e. cc) (omega arith),
  visited past review (λ e. cc) (omega arith),
)

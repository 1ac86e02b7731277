-- ===== src/Task/Reopen.antt =====
-- Which tasks may run again.
use local_engineer.Prelude.{
  ℕ, ◌≡◌, ◌≢◌, ◌⊎◌, inl, inr, List, [], ◌∷◌, none, some, arith, ok, if◌then◌else◌, Option-cases,
}
use local_engineer.GoStrings.{Text, text_eq, text_eq_iff}
use local_engineer.Task.{State, terminal, Row, set_state, get, reopen}

abbrev pub restarted : ℕ → Row → Row
restarted now t = record t { state = State.pending; updated_at = now; finished_at = none }

get-set_pending :
    (now : ℕ) (id j : Text) (ts : List Row) (t : Row)
    → get j ts ≡ some t
    → get j (set_state now id State.pending ts)
      ≡ (if text_eq j id then some (restarted now t) else some t)
unfolding get set_state terminal
get-set_pending now id j [] t h = absurd (ground arith)
get-set_pending now id j (x ∷ ts) t h = ground (
  arith,
  get-set_pending now id j ts t,
  text_eq_iff x.id id,
  text_eq_iff x.id j,
  text_eq_iff j id,
)

-- A task that is reopened had failed or was abandoned, and is then pending, unfinished and otherwise
-- as it was; every other task stays as it was. An accepted task is never reopened.
pub reopen-ok :
    (now : ℕ) (id : Text) (ts ts' : List Row) (t' : Row)
    → reopen now id ts ≡ ok (t', ts')
    → (t : Row) × (get id ts ≡ some t)
      × ((t.state ≡ State.failed) ⊎ (t.state ≡ State.abandoned))
      × (get id ts' ≡ some (restarted now t))
      × ((j : Text) (u : Row) → j ≢ id → get j ts ≡ some u → get j ts' ≡ some u)
unfolding reopen terminal
reopen-ok now id ts ts' t' h = elim (Option-cases (get id ts)) [
  | inl e ↦ absurd (ground arith)
  | inr (t, e) ↦
      let same : ts' ≡ set_state now id State.pending ts = ground arith in
      (
        t,
        e,
        ground arith,
        ground (arith, get-set_pending now id id ts t e, text_eq_iff id id),
        λ j u ne found. ground (arith, get-set_pending now id j ts u found, text_eq_iff j id),
      )
]

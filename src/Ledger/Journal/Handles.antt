-- ===== src/Ledger/Journal/Handles.antt =====
-- A handle is good for one outcome, and an outcome makes its row certain and no other.
use local_engineer.Prelude.{
  ℕ, ◌≡◌, ◌≢◌, refl, ◌⊎◌, inl, inr, Bool, true, false, [], ◌∷◌, Option, none, some, arith, ◌==◌,
  if◌then◌else◌, ok, err, is_empty, ◌∙◌, ap,
}
use local_engineer.GoStrings.{Text}
use local_engineer.Ledger.Journal.{
  Operation, Journal, Handle, uncertain, finished_row, finish, interrupted, already_finished,
  find_row,
}
use local_engineer.Ledger.Journal.Certainty.{find-update}

finish-spent :
    (j j' : Journal) (h h' : Handle) (now : ℕ) (commits : Bool) (body : Option Text)
    (candidate evidence : Text)
    → finish now commits body candidate evidence h j ≡ ok (h', j')
    → (h'.done ≡ true) × (h'.id ≡ h.id)
unfolding finish
finish-spent j j' h h' now commits none candidate evidence u = absurd (ground arith)
finish-spent j j' h h' now commits (some outcome) candidate evidence u = ground arith

interrupted-spent :
    (j j' : Journal) (h h' : Handle) (now : ℕ) (commits : Bool) (cause : Option Text)
    → interrupted now commits cause h j ≡ ok (h', j')
    → (h'.done ≡ true) × (h'.id ≡ h.id)
unfolding interrupted
interrupted-spent j j' h h' now commits cause u = ground arith

spent-finish :
    (j : Journal) (h : Handle) (now : ℕ) (commits : Bool) (body : Option Text)
    (candidate evidence : Text)
    → h.done ≡ true
    → finish now commits body candidate evidence h j ≡ err (already_finished h.id)
unfolding finish
spent-finish j h now commits none candidate evidence d = ground arith
spent-finish j h now commits (some outcome) candidate evidence d = ground arith

spent-interrupted :
    (j : Journal) (h : Handle) (now : ℕ) (commits : Bool) (cause : Option Text)
    → h.done ≡ true
    → interrupted now commits cause h j ≡ err (already_finished h.id)
unfolding interrupted
spent-interrupted j h now commits cause d = ground arith

-- A handle is good for one outcome: once it has completed, failed or been interrupted, every further
-- use of it is refused.
pub handle_is_spent :
    (j j' : Journal) (h h' : Handle) (now later : ℕ) (commits again : Bool)
    (body body' : Option Text) (cause cause' : Option Text)
    (candidate evidence candidate' evidence' : Text)
    → (finish now commits body candidate evidence h j ≡ ok (h', j'))
      ⊎ (interrupted now commits cause h j ≡ ok (h', j'))
    → (finish later again body' candidate' evidence' h' j' ≡ err (already_finished h.id))
      × (interrupted later again cause' h' j' ≡ err (already_finished h.id))
handle_is_spent j j' h h' now later commits again body body' cause cause' candidate evidence
      candidate' evidence' u =
    let (d, e) : (h'.done ≡ true) × (h'.id ≡ h.id) = elim u [
      | inl f ↦ finish-spent j j' h h' now commits body candidate evidence f
      | inr f ↦ interrupted-spent j j' h h' now commits cause f
    ] in
    (
      spent-finish j' h' later again body' candidate' evidence' d
          ∙ ap (λ i. err (already_finished i)) e,
      spent-interrupted j' h' later again cause' d ∙ ap (λ i. err (already_finished i)) e,
    )

not-is_empty : (t : Text) → t ≢ [] → is_empty t ≡ false
not-is_empty [] ne = absurd (ne refl)
not-is_empty (c ∷ t) ne = refl

-- An outcome that is written makes its operation certain, and touches no other row.
pub finish_is_certain :
    (j j' : Journal) (h h' : Handle) (now : ℕ) (commits : Bool) (outcome candidate evidence : Text)
    (i : ℕ) (o : Operation)
    → finish now commits (some outcome) candidate evidence h j ≡ ok (h', j')
    → outcome ≢ []
    → find_row i j.rows ≡ some o
    → (p : Operation) × (find_row i j'.rows ≡ some p)
      × (i ≡ h.id → uncertain p ≡ false)
      × (i ≢ h.id → p ≡ o)
unfolding finish
finish_is_certain j j' h h' now commits outcome candidate evidence i o f ne r = (
  if i == h.id then finished_row now outcome candidate evidence o else o,
  ground
      (arith, find-update i h.id (finished_row now outcome candidate evidence) j.rows (λ p. refl)),
  ground (arith, not-is_empty outcome ne),
  ground arith,
)

-- ===== src/Workflow/Store/History.antt =====
-- The journal of a task's phases is a history of allowed moves, whatever is saved.
use local_engineer.Prelude.{
  ◌≡◌, refl, sym, ◌⊎◌, inl, inr, true, List, [], ◌∷◌, Option, none, some, arith, map, In, subst, ap,
  ◌++◌, In-append,
}
use local_engineer.GoStrings.{Text}
use local_engineer.Workflow.{Phase, intake, verify, review, finalize, transition, same_phase}
use local_engineer.Workflow.Order.{History, start, move, finalized_task}
use local_engineer.Workflow.Store.{PhaseMove, Saved, save_workflow, kept, save_all}

-- The rows begin with the first save in `INTAKE`, each further row leaves the phase that the row
-- below it entered, and the move is allowed; the stored phase is the last one entered.
pub data Journalled : Option Phase → List PhaseMove → Type 0 where
  unsaved : Journalled none []
  opened :
      (c : Text)
      → Journalled (some intake) (record { from = none; to = intake; candidate = c } ∷ [])
  moved :
      {p q : Phase} {rows : List PhaseMove} (c : Text)
      → Journalled (some p) rows
      → transition p q ≡ none
      → Journalled (some q) (record { from = some p; to = q; candidate = c } ∷ rows)

same_phase-eq : (p q : Phase) → same_phase p q ≡ true → p ≡ q
same_phase-eq p q h = ground arith

same_phase_refl : (p : Phase) → same_phase p p ≡ true
same_phase_refl p = ground arith

abbrev pub saved : Option Phase → List PhaseMove → Saved
saved o rows = record { phase = o; journal = rows }

abbrev Agrees : Saved → Type 0
Agrees s = Journalled s.phase s.journal

first_save :
    (next : Phase) (c : Text) → Agrees (kept (saved none []) (save_workflow (saved none []) next c))
unfolding save_workflow
first_save intake c = opened c
first_save _ c = unsaved

abbrev row : Option Phase → Phase → Text → PhaseMove
row p q c = record { from = p; to = q; candidate = c }

-- A save stays, moves as `transition` allows, or is refused and changes nothing.
later_cases :
    (p next : Phase) (rows : List PhaseMove) (c : Text)
    → let after = kept (saved (some p) rows) (save_workflow (saved (some p) rows) next c) in
      (after ≡ saved (some p) rows)
      ⊎ ((transition p next ≡ none) × (after ≡ saved (some next) (row (some p) next c ∷ rows)))
unfolding save_workflow
later_cases p next rows c = ground (arith, same_phase-eq p next)

later_save :
    (p next : Phase) (rows : List PhaseMove) (c : Text)
    → Journalled (some p) rows
    → Agrees (kept (saved (some p) rows) (save_workflow (saved (some p) rows) next c))
later_save p next rows c j = elim (later_cases p next rows c) [
  | inl same ↦ subst Agrees (sym same) j
  | inr (fine, e) ↦ subst Agrees (sym e) (moved c j fine)
]

save-Agrees :
    (o : Option Phase) (rows : List PhaseMove) (next : Phase) (c : Text)
    → Journalled o rows
    → Agrees (kept (saved o rows) (save_workflow (saved o rows) next c))
save-Agrees none rows next c unsaved = first_save next c
save-Agrees (some p) rows next c j = later_save p next rows c j

-- Whatever is saved, in whatever order, the journal of a task that began unsaved is a history of
-- allowed moves from `INTAKE`, and the stored phase is where it ends.
pub save_all-Journalled :
    (s : Saved) (saves : List (Phase × Text))
    → Journalled s.phase s.journal
    → Journalled (save_all s saves).phase (save_all s saves).journal
unfolding save_all
save_all-Journalled s [] j = j
save_all-Journalled s ((next, c) ∷ saves) j =
    save_all-Journalled (kept s (save_workflow s next c)) saves
      (save-Agrees s.phase s.journal next c j)

Journalled-History :
    {p : Phase} {rows : List PhaseMove}
    → Journalled (some p) rows
    → (ps : List Phase) × History intake ps p × (map (λ r. r.to) rows ≡ ps ++ intake ∷ [])
Journalled-History (opened c) = ([], start, refl)
Journalled-History (moved {q = q} c j fine) =
    let (ps, past, e) = Journalled-History j in (q ∷ ps, move past fine, ap (λ l. q ∷ l) e)

-- So a task whose stored phase is `FINALIZE` has a journalled entry into `VERIFY` and one into
-- `REVIEW`.
pub finalized_journal :
    (saves : List (Phase × Text))
    → (save_all (saved none []) saves).phase ≡ some finalize
    → In verify (map (λ r. r.to) (save_all (saved none []) saves).journal)
      × In review (map (λ r. r.to) (save_all (saved none []) saves).journal)
finalized_journal saves h =
    let j =
      subst (λ o. Journalled o (save_all (saved none []) saves).journal) h
        (save_all-Journalled (saved none []) saves unsaved) in
    let (ps, past, e) = Journalled-History j in
    let (a, b, c, d, v, r) = finalized_task past in
    (
      rw e ((In-append verify ps (intake ∷ [])).1 (inl v)),
      rw e ((In-append review ps (intake ∷ [])).1 (inl r)),
    )

-- ===== src/Ledger/Journal/Certainty.antt =====
-- Which operations are certain: an intent stays uncertain until its own handle writes an outcome.
use local_engineer.Prelude.{
  ℕ, ◌<◌, ◌≡◌, ◌≢◌, refl, sym, ◌⊎◌, inl, inr, Bool, true, false, List, [], ◌∷◌, Option, none, some,
  arith, ◌==◌, if◌then◌else◌, ok, Bool-cases, All, subst, ◌∙◌,
}
use mathlib.Core.Option
use local_engineer.GoStrings.{Text}
use local_engineer.Ledger.Journal.{
  OpKind, Operation, Journal, Handle, uncertain, new_row, begin, update, finished_row,
  interrupted_row, cause_text, finish, interrupted, find_row, Call, begins, finishes, interrupts,
  step, run,
}

pub find-update :
    (i k : ℕ) (f : Operation → Operation) (os : List Operation)
    → ((o : Operation) → (f o).id ≡ o.id)
    → find_row i (update k f os) ≡ (if i == k then Option.map f (find_row i os) else find_row i os)
unfolding find_row update
find-update i k f [] same = ground arith
find-update i k f (o ∷ os) same = ground (arith, same o, find-update i k f os same)

-- The call does not write the outcome of row `i`.
abbrev pub Spares : ℕ → ℕ × Bool × Call → Type 0
Spares i (now, commits, begins task kind intent before) = Unit
Spares i (now, commits, finishes h outcome candidate evidence) = h.id ≢ i
Spares i (now, commits, interrupts h cause) = Unit

-- The row is there, still has the intent it began with, and is uncertain.
abbrev pub Pending : ℕ → Text → Journal → Type 0
Pending i intent j =
    (i < j.next_id)
    × ((o : Operation) × (find_row i j.rows ≡ some o) × (o.intent ≡ intent) × (uncertain o ≡ true))

-- Another row is written, or the row itself by a function that keeps its intent and outcome.
update-Pending_ne :
    (i k : ℕ) (intent : Text) (f : Operation → Operation) (j : Journal)
    → ((o : Operation) → (f o).id ≡ o.id)
    → k ≢ i
    → Pending i intent j
    → Pending i intent (record j { rows = update k f j.rows })
update-Pending_ne i k intent f j same ne (b, (o, found, e, u)) =
    (b, (o, ground (arith, find-update i k f j.rows same), e, u))

update-Pending :
    (i k : ℕ) (intent : Text) (f : Operation → Operation) (j : Journal)
    → ((o : Operation)
        → ((f o).id ≡ o.id) × ((f o).intent ≡ o.intent) × ((f o).outcome ≡ o.outcome))
    → Pending i intent j
    → Pending i intent (record j { rows = update k f j.rows })
update-Pending i k intent f j same (b, (o, found, e, u)) = elim (Bool-cases (i == k)) [
  | inl hit ↦ (
    b,
    (
      f o,
      find-update i k f j.rows (λ p. (same p).0) ∙ rw (hit, found) refl,
      (same o).1 ∙ e,
      rw (same o).2 u,
    ),
  )
  | inr miss ↦ (b, (o, find-update i k f j.rows (λ p. (same p).0) ∙ rw miss found, e, u))
]

finish-cases :
    (j : Journal) (now : ℕ) (commits : Bool) (h : Handle) (outcome candidate evidence : Text)
    → let j' = step j (now, commits, finishes h (some outcome) candidate evidence) in
      (j' ≡ j)
      ⊎ (j' ≡ record j { rows = update h.id (finished_row now outcome candidate evidence) j.rows })
unfolding step finish
finish-cases j now commits h outcome candidate evidence = ground arith

interrupted-cases :
    (j : Journal) (now : ℕ) (commits : Bool) (h : Handle) (cause : Option Text)
    → let j' = step j (now, commits, interrupts h cause) in
      (j' ≡ j)
      ⊎ (j' ≡ record j { rows = update h.id (interrupted_row now (cause_text cause)) j.rows })
unfolding step interrupted
interrupted-cases j now commits h cause = ground arith

unmarshalled-finish :
    (j : Journal) (now : ℕ) (commits : Bool) (h : Handle) (candidate evidence : Text)
    → step j (now, commits, finishes h none candidate evidence) ≡ j
unfolding step finish
unmarshalled-finish j now commits h candidate evidence = ground arith

step-Pending :
    (i : ℕ) (intent : Text) (j : Journal) (c : ℕ × Bool × Call)
    → Spares i c
    → Pending i intent j
    → Pending i intent (step j c)
unfolding step begin find_row
step-Pending i intent j (now, commits, begins task kind none before) s p = p
step-Pending i intent j (now, true, begins task kind (some body) before) s (b, (o, f, e, u)) =
    (omega arith, (o, ground arith, e, u))
step-Pending i intent j (now, false, begins task kind (some body) before) s p = p
step-Pending i intent j (now, commits, finishes h none candidate evidence) s p =
    subst (Pending i intent) (sym (unmarshalled-finish j now commits h candidate evidence)) p
step-Pending i intent j (now, commits, finishes h (some outcome) candidate evidence) s p =
    elim (finish-cases j now commits h outcome candidate evidence) [
      | inl same ↦ subst (Pending i intent) (sym same) p
      | inr e ↦ subst (Pending i intent) (sym e) (
          update-Pending_ne i h.id intent (finished_row now outcome candidate evidence) j
            (λ o. refl) s p)
    ]
step-Pending i intent j (now, commits, interrupts h cause) s p =
    elim (interrupted-cases j now commits h cause) [
      | inl same ↦ subst (Pending i intent) (sym same) p
      | inr e ↦ subst (Pending i intent) (sym e) (
          update-Pending i h.id intent (interrupted_row now (cause_text cause)) j
            (λ o. (refl, refl, refl)) p)
    ]

run-Pending :
    (i : ℕ) (intent : Text) (j : Journal) (cs : List (ℕ × Bool × Call))
    → All (Spares i) cs
    → Pending i intent j
    → Pending i intent (run j cs)
unfolding run
run-Pending i intent j [] s p = p
run-Pending i intent j (c ∷ cs) s p =
    run-Pending i intent (step j c) cs s.1 (step-Pending i intent j c s.0 p)

begin-Pending :
    (now : ℕ) (task : Text) (kind : OpKind) (intent before : Text) (j j' : Journal) (h : Handle)
    → begin now true task kind (some intent) before j ≡ ok (h, j')
    → Pending h.id intent j'
unfolding begin find_row
begin-Pending now task kind intent before j j' h b =
    (ground arith, (new_row now task kind intent before j, ground arith, refl, refl))

-- Intent first: an operation that has begun is in the journal with its intent, and it stays
-- uncertain through anything else that is journalled, its own interruption included, until its own
-- handle writes an outcome. So a crash at any point leaves it uncertain.
pub crash_leaves_uncertain :
    (now : ℕ) (task : Text) (kind : OpKind) (intent before : Text) (j j' : Journal) (h : Handle)
    (cs : List (ℕ × Bool × Call))
    → begin now true task kind (some intent) before j ≡ ok (h, j')
    → All (Spares h.id) cs
    → Pending h.id intent (run j' cs)
crash_leaves_uncertain now task kind intent before j j' h cs b s =
    run-Pending h.id intent j' cs s (begin-Pending now task kind intent before j j' h b)

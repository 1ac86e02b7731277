-- ===== src/Workflow/Failure/Classes.antt =====
-- What makes a failure a regression, and which class wins.
use local_engineer.Prelude.{
  ◌≡◌, ◌≢◌, ◌↔◌, ◌⊎◌, inl, inr, Bool, true, false, ◌&&◌, List, Option, some, arith, In, any, any-In,
  In-any, ◌<◌, ℕ, subst, Bool-cases,
}
use local_engineer.GoStrings.{Text, text_eq_iff}
use local_engineer.Recipe.{Status, pass, fail, RunResult, is_fail, lookup}
use local_engineer.Workflow.Failure.{
  same, regressed, environment, flaky, environmental, broken_test, regressed_from, regression,
  failure_class, times_seen, passed_before,
}

-- The test fails now and passed in the earlier run.
abbrev pub Broke : RunResult → RunResult → Type 0
Broke r old =
    (id : Text) × In (id, fail) r.summary.tests × (lookup id old.summary.tests ≡ some pass)

fails_after_pass :
    (s : Status) (o : Option Status)
    → (is_fail s && passed_before o) ≡ true
    → (s ≡ fail) × (o ≡ some pass)
fails_after_pass s o h = ground arith

broken_test-Broke :
    (r old : RunResult) → (broken_test old.summary.tests r.summary.tests ≡ true) ↔ Broke r old
unfolding broken_test
broken_test-Broke r old = (there, back)
  where
    broke : Text × Status → Bool
    broke t = is_fail t.1 && passed_before (lookup t.0 old.summary.tests)

    there : any broke r.summary.tests ≡ true → Broke r old
    there h =
        let ((id, s), m, q) = any-In broke r.summary.tests h in
        let (now, before) = fails_after_pass s (lookup id old.summary.tests) q in
        (id, subst (λ x. In (id, x) r.summary.tests) now m, before)

    back : Broke r old → any broke r.summary.tests ≡ true
    back (id, m, before) = In-any broke (id, fail) r.summary.tests m (rw before)

regressed_from_iff :
    (r old : RunResult)
    → (regressed_from r old ≡ true)
      ↔ ((old.recipe ≡ r.recipe) × (Broke r old ⊎ (old.status ≡ pass)))
regressed_from_iff r old = (there, back)
  where
    there :
        regressed_from r old ≡ true → (old.recipe ≡ r.recipe) × (Broke r old ⊎ (old.status ≡ pass))
    there h = elim (Bool-cases (broken_test old.summary.tests r.summary.tests)) [
      | inl b ↦
          ((text_eq_iff old.recipe r.recipe).0 (ground arith), inl ((broken_test-Broke r old).0 b))
      | inr whole ↦ ((text_eq_iff old.recipe r.recipe).0 (ground arith), inr (ground arith))
    ]

    back :
        (old.recipe ≡ r.recipe) × (Broke r old ⊎ (old.status ≡ pass)) → regressed_from r old ≡ true
    back (e, inl b) = rw ((text_eq_iff old.recipe r.recipe).1 e, (broken_test-Broke r old).1 b)
    back (e, inr s) = let found = (text_eq_iff old.recipe r.recipe).1 e in ground (arith, found)

-- A result is a regression exactly when it failed and some earlier run of the same recipe either
-- passed as a whole or passed a test that fails now.
pub regression_exact :
    (r : RunResult) (baseline : List RunResult)
    → (regression r baseline ≡ true) ↔ (
        (r.status ≡ fail)
        × ((old : RunResult) × In old baseline
            × (old.recipe ≡ r.recipe)
            × (Broke r old ⊎ (old.status ≡ pass))))
unfolding regression
regression_exact r baseline = (there, back)
  where
    there :
        (is_fail r.status && any (regressed_from r) baseline) ≡ true
        → (r.status ≡ fail)
          × ((old : RunResult) × In old baseline
              × (old.recipe ≡ r.recipe)
              × (Broke r old ⊎ (old.status ≡ pass)))
    there h =
        let (old, m, q) = any-In (regressed_from r) baseline (ground arith) in
        let (e, b) = (regressed_from_iff r old).0 q in (ground arith, (old, m, e, b))

    back :
        (r.status ≡ fail)
          × ((old : RunResult) × In old baseline
              × (old.recipe ≡ r.recipe)
              × (Broke r old ⊎ (old.status ≡ pass)))
        → (is_fail r.status && any (regressed_from r) baseline) ≡ true
    back (f, (old, m, e, b)) =
        let found =
          In-any (regressed_from r) old baseline m ((regressed_from_iff r old).1 (e, b)) in
        ground (arith, found)

-- The class of a failure: the environment decides first, then whether it was seen before, then
-- whether it is a regression; anything else is new, and nothing is classed as flaky here.
pub failure_class_exact :
    (r : RunResult) (baseline : List RunResult) (seen : List (Text × ℕ)) (fp : Text)
    → let class = failure_class r baseline seen fp in
      ((class ≡ environment) ↔ (environmental r ≡ true))
      × ((class ≡ same) ↔ ((environmental r ≡ false) × (0 < times_seen (lookup fp seen))))
      × ((class ≡ regressed) ↔ (
          (environmental r ≡ false)
          × (times_seen (lookup fp seen) ≡ 0)
          × (regression r baseline ≡ true)))
      × (class ≢ flaky)
unfolding failure_class
failure_class_exact r baseline seen fp = (ground arith, ground arith, ground arith, ground arith)

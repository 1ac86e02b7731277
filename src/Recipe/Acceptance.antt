-- ===== src/Recipe/Acceptance.antt =====
-- internal/recipe/presets.go (selectPresets, CheckPresets) and Level.Includes of
-- internal/recipe/builtin.go: which commands are frozen for a task, and when their results accept it.
use local_engineer.Prelude.{
  ◌≡◌, refl, ◌↔◌, inl, inr, Bool, true, false, ◌&&◌, ◌||◌, List, [], ◌∷◌, ◌++◌, Option, none, some,
  arith, subst, if◌then◌else◌, keep, is_empty, In, Option-cases,
}
use local_engineer.GoStrings.{Text, text_eq, text_eq_iff}
use local_engineer.Recipe.{
  Status, pass, Kind, build, vet, test, lint, format, RunResult, Preset, is_pass, is_fail, is_error,
}

pub data Level : Type 0 where
  low standard high : Level

-- `Includes`.
unfoldable pub includes : Level → Kind → Bool
includes low build = true
includes low _ = false
includes standard build = true
includes standard vet = true
includes standard test = true
includes standard format = true
includes standard _ = false
includes high k = true

abbrev pub selected : Level → Kind → Bool
selected standard lint = true
selected level k = includes level k

-- `selectPresets`.
unfoldable pub select_presets : List Preset → Level → List Preset
select_presets presets level = keep (λ p. selected level p.kind) presets

pub data Reason : Type 0 where
  preset_not_passed : Text → Reason
  no_presets changed_nothing outside_scope : Reason
  run_failed : Text → Text → Reason

-- `byName`: of several results of one recipe, the last is kept.
unfoldable pub latest : Text → List RunResult → Option RunResult
latest name [] = none
latest name (r ∷ rs) = elim (latest name rs) [
  | some later ↦ some later
  | none ↦ if text_eq r.recipe name then some r else none
]

abbrev pub passed_on : Text → Option RunResult → Bool
passed_on candidate none = false
passed_on candidate (some r) = is_pass r.status && text_eq r.candidate candidate

unfoldable pub missing_presets : List Preset → List RunResult → Text → List Reason
missing_presets [] results candidate = []
missing_presets (p ∷ ps) results candidate =
    let rest = missing_presets ps results candidate in
    if passed_on candidate (latest p.name results) then rest else preset_not_passed p.name ∷ rest

-- `CheckPresets`.
unfoldable pub check_presets : List Preset → List RunResult → Text → Bool × List Reason
check_presets presets results candidate =
    let reasons =
      missing_presets presets results candidate
      ++ (if is_empty presets then no_presets ∷ [] else []) in
    (is_empty reasons, reasons)

-- `failedOnly` of internal/task/runner.go.
abbrev pub is_bad : Status → Bool
is_bad s = is_fail s || is_error s

unfoldable pub failed_only : List RunResult → List RunResult
failed_only results = keep (λ r. is_bad r.status) results

-- The last result of the preset passed, on this candidate.
abbrev pub Passed : List RunResult → Text → Preset → Type 0
Passed results candidate p =
    (r : RunResult) × (latest p.name results ≡ some r)
    × (r.status ≡ pass)
    × (r.candidate ≡ candidate)

passed_on_iff :
    (candidate : Text) (results : List RunResult) (p : Preset)
    → (passed_on candidate (latest p.name results) ≡ true) ↔ Passed results candidate p
passed_on_iff candidate results p = (there, back)
  where
    there : passed_on candidate (latest p.name results) ≡ true → Passed results candidate p
    there h = elim (Option-cases (latest p.name results)) [
      | inl e ↦ absurd (ground arith)
      | inr (r, e) ↦ (r, e, ground arith, ground (arith, text_eq_iff r.candidate candidate))
    ]

    back : Passed results candidate p → passed_on candidate (latest p.name results) ≡ true
    back (r, e, s, c) = ground (arith, text_eq_iff r.candidate candidate)

missing_presets-none :
    (ps : List Preset) (results : List RunResult) (candidate : Text)
    → (is_empty (missing_presets ps results candidate) ≡ true)
      ↔ ((p : Preset) → In p ps → Passed results candidate p)
unfolding missing_presets
missing_presets-none [] results candidate = ((λ h p m. absurd m), (λ h. refl))
missing_presets-none (q ∷ ps) results candidate =
    let rest = missing_presets-none ps results candidate in
    let here = passed_on_iff candidate results q in
    (
      (λ h p m. elim m [
        | inl e ↦ subst (Passed results candidate) e (here.0 (ground arith))
        | inr i ↦ rest.0 (ground arith) p i
      ]),
      (λ h.
          let hit = here.1 (h q (inl refl)) in
          let others = rest.1 (λ p i. h p (inr i)) in ground arith),
    )

is_empty-append :
    {A : Type 0} (xs ys : List A)
    → (is_empty (xs ++ ys) ≡ true) ↔ ((is_empty xs ≡ true) × (is_empty ys ≡ true))
is_empty-append [] ys = ground arith
is_empty-append (x ∷ xs) ys = ground arith

-- A candidate is accepted exactly when there is at least one frozen preset, and the last result of
-- every one of them passed on this very candidate.
pub check_presets_exact :
    (presets : List Preset) (results : List RunResult) (candidate : Text)
    → ((check_presets presets results candidate).0 ≡ true)
      ↔ ((is_empty presets ≡ false) × ((p : Preset) → In p presets → Passed results candidate p))
unfolding check_presets
check_presets_exact presets results candidate = ground (
  arith,
  is_empty-append (missing_presets presets results candidate)
      (if is_empty presets then no_presets ∷ [] else []),
  missing_presets-none presets results candidate,
)

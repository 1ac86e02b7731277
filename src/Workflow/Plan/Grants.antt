-- ===== src/Workflow/Plan/Grants.antt =====
-- Which plans `Validate` accepts.
use local_engineer.Prelude.{
  ◌≡◌, refl, ◌↔◌, ◌⊎◌, inl, inr, true, false, List, [], ◌∷◌, ◌++◌, none, arith, In, any, any-In,
  In-any, is_empty, ◌then_check◌, then_check-left, then_check-right, subst, Bool-cases,
}
use local_engineer.GoStrings.{Text, text_eq, text_eq_iff}
use local_engineer.Policy.{covers}
use local_engineer.Firewall.{generated}
use local_engineer.Workflow.Plan.{
  Plan, bad_grant, check_grant, check_grants, check_declared, is_incomplete, validate,
}

-- An exact path inside the checkout that holds no secret, that no generator owns, and that the
-- operator's scope covers, where there is one.
abbrev pub Grantable : List Text → Text → Type 0
Grantable scope f =
    (bad_grant f ≡ false)
    × (generated f ≡ false)
    × ((is_empty scope ≡ true) ⊎ (covers scope f ≡ true))

check_grant-Grantable :
    (scope : List Text) (f : Text) → (check_grant scope f ≡ none) ↔ Grantable scope f
unfolding check_grant
check_grant-Grantable scope f = ground arith

check_grants-In :
    (scope fs : List Text) (f : Text) → check_grants scope fs ≡ none → In f fs → Grantable scope f
unfolding check_grants
check_grants-In scope [] f h m = absurd m
check_grants-In scope (g ∷ fs) f h (inl e) =
    subst (Grantable scope) e
      ((check_grant-Grantable scope g).0 (then_check-left (check_grant scope g) _ h))
check_grants-In scope (g ∷ fs) f h (inr m) =
    check_grants-In scope fs f (then_check-right (check_grant scope g) _ h) m

In-check_grants :
    (scope fs : List Text)
    → ((f : Text) → In f fs → Grantable scope f)
    → check_grants scope fs ≡ none
unfolding check_grants
In-check_grants scope [] h = refl
In-check_grants scope (g ∷ fs) h =
    rw ((check_grant-Grantable scope g).1 (h g (inl refl)))
      (In-check_grants scope fs (λ f m. h f (inr m)))

declared_iff : (files : List Text) (f : Text) → (any (λ d. text_eq d f) files ≡ true) ↔ In f files
declared_iff files f = (there, back)
  where
    there : any (λ d. text_eq d f) files ≡ true → In f files
    there h =
        let (d, m, e) = any-In (λ d. text_eq d f) files h in
        subst (λ x. In x files) ((text_eq_iff d f).0 e) m

    back : In f files → any (λ d. text_eq d f) files ≡ true
    back m = In-any (λ d. text_eq d f) f files m ((text_eq_iff f f).1 refl)

check_declared-In :
    (files grants : List Text) (f : Text)
    → check_declared files grants ≡ none
    → In f grants
    → In f files
unfolding check_declared
check_declared-In files [] f h m = absurd m
check_declared-In files (g ∷ grants) f h (inl e) =
    subst (λ x. In x files) e ((declared_iff files g).0 (ground arith))
check_declared-In files (g ∷ grants) f h (inr m) =
    check_declared-In files grants f (then_check-right _ (check_declared files grants) h) m

In-check_declared :
    (files grants : List Text)
    → ((f : Text) → In f grants → In f files)
    → check_declared files grants ≡ none
unfolding check_declared
In-check_declared files [] h = refl
In-check_declared files (g ∷ grants) h =
    rw ((declared_iff files g).1 (h g (inl refl)))
      (In-check_declared files grants (λ f m. h f (inr m)))

-- A plan is accepted exactly when it has a hypothesis, files, write grants and tests, each of its
-- files and grants is grantable, and each write grant is one of its declared files.
pub validate_exact :
    (p : Plan) (scope : List Text)
    → (validate p scope ≡ none) ↔ (
        (is_incomplete p ≡ false)
        × ((f : Text) → In f (p.files ++ p.write_allowlist) → Grantable scope f)
        × ((f : Text) → In f p.write_allowlist → In f p.files))
unfolding validate
validate_exact p scope = (there, back)
  where
    there :
        validate p scope ≡ none
        → (is_incomplete p ≡ false)
          × ((f : Text) → In f (p.files ++ p.write_allowlist) → Grantable scope f)
          × ((f : Text) → In f p.write_allowlist → In f p.files)
    there h = elim (Bool-cases (is_incomplete p)) [
      | inl bad ↦ absurd (ground arith)
      | inr fine ↦
          let checked : (check_grants scope (p.files ++ p.write_allowlist)
                then_check check_declared p.files p.write_allowlist)
              ≡ none =
            ground arith in
          (
            fine,
            λ f m.
                check_grants-In scope (p.files ++ p.write_allowlist) f
                  (then_check-left _ (check_declared p.files p.write_allowlist) checked) m,
            λ f.
                check_declared-In p.files p.write_allowlist f
                  (then_check-right (check_grants scope (p.files ++ p.write_allowlist)) _ checked),
          )
    ]

    back :
        (is_incomplete p ≡ false)
          × ((f : Text) → In f (p.files ++ p.write_allowlist) → Grantable scope f)
          × ((f : Text) → In f p.write_allowlist → In f p.files)
        → validate p scope ≡ none
    back (a, g, d) =
        rw (a, In-check_grants scope (p.files ++ p.write_allowlist) g)
          (In-check_declared p.files p.write_allowlist d)

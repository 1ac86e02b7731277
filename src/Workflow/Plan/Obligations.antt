-- ===== src/Workflow/Plan/Obligations.antt =====
-- When `ValidateObligations` and `ValidateRegeneration` accept a plan.
use local_engineer.Prelude.{
  ◌≡◌, refl, ◌↔◌, ◌⊎◌, inl, inr, true, ◌||◌, List, [], ◌∷◌, none, some, arith, In, any, any-In,
  In-any, is_empty, subst, then_check-left, then_check-right, Bool-cases, Option-cases,
}
use local_engineer.GoStrings.{Text, text_eq_iff}
use local_engineer.Graph.{Consumer, Impact}
use local_engineer.Recipe.{Preset, generate}
use local_engineer.Workflow.Plan.{
  Plan, Obligation, resolves, check_consumers, validate_obligations, find_preset, check_generator,
  check_generators, validate_regeneration,
}

-- A consumer that lives in a file is disposed of by one of the plan's obligations.
abbrev pub Disposed : Plan → Consumer → Type 0
Disposed p c =
    (is_empty c.node.path ≡ true)
    ⊎ ((o : Obligation) × In o p.obligations × (resolves p c o ≡ true))

check_consumers-In :
    (p : Plan) (cs : List Consumer) (c : Consumer)
    → check_consumers p cs ≡ none
    → In c cs
    → Disposed p c
unfolding check_consumers
check_consumers-In p [] c h m = absurd m
check_consumers-In p (d ∷ cs) c h (inl e) = subst (Disposed p) e (disposed d (ground arith))
  where
    disposed :
        (d : Consumer)
        → (is_empty d.node.path || any (resolves p d) p.obligations) ≡ true
        → Disposed p d
    disposed d k = elim (Bool-cases (is_empty d.node.path)) [
      | inl bare ↦ inl bare
      | inr placed ↦ inr (any-In (resolves p d) p.obligations (rw placed at k))
    ]
check_consumers-In p (d ∷ cs) c h (inr m) = check_consumers-In p cs c (ground arith) m

In-check_consumers :
    (p : Plan) (cs : List Consumer)
    → ((c : Consumer) → In c cs → Disposed p c)
    → check_consumers p cs ≡ none
unfolding check_consumers
In-check_consumers p [] h = refl
In-check_consumers p (d ∷ cs) h = elim (h d (inl refl)) [
  | inl bare ↦ rw bare (In-check_consumers p cs (λ c m. h c (inr m)))
  | inr (o, m, r) ↦
      let found = In-any (resolves p d) o p.obligations m r in
      let rest = In-check_consumers p cs (λ c k. h c (inr k)) in ground (arith, found, rest)
]

-- A plan passes against an impact report exactly when every consumer that lives in a file is
-- disposed of: some obligation names its path and its symbol, and either edits it inside the write
-- grants or says why no change is needed.
pub validate_obligations_exact :
    (p : Plan) (impact : Impact)
    → (validate_obligations p (some impact) ≡ none)
      ↔ ((c : Consumer) → In c impact.consumers → Disposed p c)
unfolding validate_obligations
validate_obligations_exact p impact =
    ((λ h c. check_consumers-In p impact.consumers c h), In-check_consumers p impact.consumers)

-- A preset of that name, and a generator.
abbrev pub Frozen : List Preset → Text → Type 0
Frozen presets name =
    (preset : Preset) × In preset presets × (preset.name ≡ name) × (preset.kind ≡ generate)

find_preset-In :
    (name : Text) (presets : List Preset) (p : Preset)
    → find_preset name presets ≡ some p
    → In p presets × (p.name ≡ name)
unfolding find_preset
find_preset-In name [] p h = cc
find_preset-In name (q ∷ presets) p h =
    ground (arith, text_eq_iff q.name name, find_preset-In name presets p)

check_generator-Frozen :
    (presets : List Preset) (name : Text)
    → check_generator name (find_preset name presets) ≡ none
    → Frozen presets name
unfolding check_generator
check_generator-Frozen presets name h = elim (Option-cases (find_preset name presets)) [
  | inl missing ↦ absurd (ground arith)
  | inr (p, found) ↦
      let (m, e) = find_preset-In name presets p found in (p, m, e, ground (arith, found))
]

check_generators-Frozen :
    (presets : List Preset) (names : List Text) (name : Text)
    → check_generators presets names ≡ none
    → In name names
    → Frozen presets name
unfolding check_generators
check_generators-Frozen presets [] name h m = absurd m
check_generators-Frozen presets (n ∷ names) name h (inl e) =
    subst (Frozen presets) e
      (check_generator-Frozen presets n (then_check-left _ (check_generators presets names) h))
check_generators-Frozen presets (n ∷ names) name h (inr m) =
    check_generators-Frozen presets names name
      (then_check-right (check_generator n (find_preset n presets)) _ h) m

-- Every generator that an accepted plan declares is a preset frozen beforehand, of kind `generate`.
pub declared_generators :
    (p : Plan) (presets : List Preset) (name : Text)
    → validate_regeneration p presets ≡ none
    → In name p.regenerate
    → Frozen presets name
unfolding validate_regeneration
declared_generators p presets name h m = check_generators-Frozen presets p.regenerate name h m

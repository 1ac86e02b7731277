-- ===== src/Policy/Protection.antt =====
-- What `Set.Check` reports, and that a subtree rule reaches every depth.
use local_engineer.Prelude.{
  ◌≡◌, refl, ◌↔◌, ◌⊎◌, inl, inr, true, List, [], ◌∷◌, ◌++◌, ◌||◌, arith, In, In-append, In-sort_by,
  Bool-cases,
}
use local_engineer.GoStrings.{Text, codes, has_prefix, text_eq, text_eq_iff, text_lt}
use local_engineer.GoStrings.Laws.{
  has_prefix-append, has_prefix-split, has_suffix-append, trim_suffix-append,
}
use local_engineer.Policy.{
  Rule, Policy, PolicySet, Violation, matches, violation, rule_violations, policy_violations,
  relative, all_violations, check,
}

-- A violation comes from one changed path, one policy and one of its rules that matches.
abbrev pub Protects : List Policy → List Text → Violation → Type 0
Protects ps changed v =
    (c : Text) × (p : Policy) × (r : Rule) × In c changed
    × In p ps
    × In r p.protected
    × (matches r.path (relative c) ≡ true)
    × (violation (relative c) p r ≡ v)

rule_violations-In :
    (rel : Text) (p : Policy) (v : Violation) (rs : List Rule)
    → In v (rule_violations rel p rs)
    → (r : Rule) × In r rs × (matches r.path rel ≡ true) × (violation rel p r ≡ v)
unfolding rule_violations
rule_violations-In rel p v [] m = absurd m
rule_violations-In rel p v (r ∷ rs) m = elim (Bool-cases (matches r.path rel)) [
  | inl hit ↦ elim (rw hit at m) [
    | inl e ↦ (r, inl refl, hit, e)
    | inr rest ↦ let (q, i, h, e) = rule_violations-In rel p v rs rest in (q, inr i, h, e)
  ]
  | inr miss ↦ let (q, i, h, e) = rule_violations-In rel p v rs (rw miss at m) in (q, inr i, h, e)
]

In-rule_violations :
    (rel : Text) (p : Policy) (r : Rule) (rs : List Rule)
    → In r rs
    → matches r.path rel ≡ true
    → In (violation rel p r) (rule_violations rel p rs)
unfolding rule_violations
In-rule_violations rel p r [] m h = absurd m
In-rule_violations rel p r (x ∷ rs) (inl e) h = rw (e, h) (inl refl)
In-rule_violations rel p r (x ∷ rs) (inr m) h =
    let rest = In-rule_violations rel p r rs m h in
    elim (Bool-cases (matches x.path rel)) [ inl hit ↦ rw hit (inr rest) | inr miss ↦ rw miss rest ]

policy_violations-In :
    (c : Text) (v : Violation) (ps : List Policy)
    → In v (policy_violations (relative c) ps)
    → Protects ps (c ∷ []) v
unfolding policy_violations
policy_violations-In c v [] m = absurd m
policy_violations-In c v (p ∷ ps) m =
    elim ((In-append v (rule_violations (relative c) p p.protected) _).0 m) [
      | inl here ↦
          let (r, i, h, e) = rule_violations-In (relative c) p v p.protected here in
          (c, p, r, inl refl, inl refl, i, h, e)
      | inr there ↦
          let (d, q, r, i, j, k, h, e) = policy_violations-In c v ps there in
          (d, q, r, i, inr j, k, h, e)
    ]

In-policy_violations :
    (rel : Text) (p : Policy) (v : Violation) (ps : List Policy)
    → In p ps
    → In v (rule_violations rel p p.protected)
    → In v (policy_violations rel ps)
unfolding policy_violations
In-policy_violations rel p v [] m h = absurd m
In-policy_violations rel p v (q ∷ ps) (inl e) h =
    (In-append v (rule_violations rel q q.protected) _).1 (inl (rw e h))
In-policy_violations rel p v (q ∷ ps) (inr m) h =
    (In-append v (rule_violations rel q q.protected) _).1
      (inr (In-policy_violations rel p v ps m h))

all_violations-In :
    (ps : List Policy) (v : Violation) (cs : List Text)
    → In v (all_violations ps cs)
    → Protects ps cs v
unfolding all_violations
all_violations-In ps v [] m = absurd m
all_violations-In ps v (c ∷ cs) m = elim ((In-append v (policy_violations (relative c) ps) _).0 m) [
  | inl here ↦
      let (d, p, r, i, j, k, h, e) = policy_violations-In c v ps here in
      (d, p, r, elim i [ inl x ↦ inl x | inr x ↦ absurd x ], j, k, h, e)
  | inr there ↦
      let (d, p, r, i, j, k, h, e) = all_violations-In ps v cs there in (d, p, r, inr i, j, k, h, e)
]

In-all_violations :
    (ps : List Policy) (v : Violation) (c : Text) (cs : List Text)
    → In c cs
    → In v (policy_violations (relative c) ps)
    → In v (all_violations ps cs)
unfolding all_violations
In-all_violations ps v c [] m h = absurd m
In-all_violations ps v c (d ∷ cs) (inl e) h =
    (In-append v (policy_violations (relative d) ps) _).1 (inl (rw e h))
In-all_violations ps v c (d ∷ cs) (inr m) h =
    (In-append v (policy_violations (relative d) ps) _).1 (inr (In-all_violations ps v c cs m h))

-- `check` reports exactly the violations of the changed paths: each comes from a matching rule of a
-- policy, and each matching rule of a policy is reported for each changed path.
pub check_exact :
    (s : PolicySet) (changed : List Text) (v : Violation)
    → In v (check s changed) ↔ Protects s.policies changed v
unfolding check
check_exact s changed v = (there, back)
  where
    sorted : In v (check s changed) ↔ In v (all_violations s.policies changed)
    sorted = In-sort_by (λ a b. text_lt a.path b.path) v (all_violations s.policies changed)

    there : In v (check s changed) → Protects s.policies changed v
    there m = all_violations-In s.policies v changed (sorted.0 m)

    back : Protects s.policies changed v → In v (check s changed)
    back (c, p, r, i, j, k, h, e) = sorted.1 (
        In-all_violations s.policies v c changed i (
          In-policy_violations (relative c) p v s.policies j
            (rw (← e) (In-rule_violations (relative c) p r p.protected k h))))

subtree_cases :
    (d rel : Text)
    → ((text_eq rel d || has_prefix rel (d ++ codes "/")) ≡ true)
      ↔ ((rel ≡ d) ⊎ ((rest : Text) × (rel ≡ (d ++ codes "/") ++ rest)))
subtree_cases d rel = (there, back)
  where
    there :
        (text_eq rel d || has_prefix rel (d ++ codes "/")) ≡ true
        → (rel ≡ d) ⊎ ((rest : Text) × (rel ≡ (d ++ codes "/") ++ rest))
    there h = elim (Bool-cases (text_eq rel d)) [
      | inl e ↦ inl ((text_eq_iff rel d).0 e)
      | inr e ↦ inr (_, has_prefix-split rel (d ++ codes "/") (rw e at h))
    ]

    back :
        (rel ≡ d) ⊎ ((rest : Text) × (rel ≡ (d ++ codes "/") ++ rest))
        → (text_eq rel d || has_prefix rel (d ++ codes "/")) ≡ true
    back (inl e) = rw ((text_eq_iff rel d).1 e)
    back (inr (rest, e)) =
        let found : has_prefix rel (d ++ codes "/") ≡ true =
          rw e (has_prefix-append (d ++ codes "/") rest) in
        ground (arith, found)

-- A rule `d/**` matches the directory and every path below it, at any depth, and nothing else.
pub matches-subtree :
    (d rel : Text)
    → (matches (d ++ codes "/**") rel ≡ true)
      ↔ ((rel ≡ d) ⊎ ((rest : Text) × (rel ≡ (d ++ codes "/") ++ rest)))
unfolding matches
matches-subtree d rel =
    rw (has_suffix-append d (codes "/**"), trim_suffix-append d (codes "/**")) (subtree_cases d rel)

-- A changed path below a directory that a policy protects by `d/**` is always reported, under that
-- rule and its reason, whatever else has changed.
pub check-subtree :
    (s : PolicySet) (p : Policy) (r : Rule) (changed : List Text) (c d rest : Text)
    → In p s.policies
    → In r p.protected
    → In c changed
    → r.path ≡ d ++ codes "/**"
    → relative c ≡ (d ++ codes "/") ++ rest
    → In (violation (relative c) p r) (check s changed)
check-subtree s p r changed c d rest j k i at_rule below =
    (check_exact s changed (violation (relative c) p r)).1
      (c, p, r, i, j, k, rw at_rule ((matches-subtree d (relative c)).1 (inr (rest, below))), refl)

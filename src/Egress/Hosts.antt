-- ===== src/Egress/Hosts.antt =====
-- Which hosts a rule stands for.
use mathlib.Core.List.{reverse-append, reverse-reverse}
use local_engineer.Prelude.{
  ◌-◌, ◌≡◌, ◌≢◌, refl, sym, ap, ◌∙◌, subst, inl, inr, ◌⊎◌, ◌↔◌, Bool, true, false, ◌&&◌, List, [],
  ◌∷◌, ◌++◌, none, some, arith, ltb, length, drop, In, reverse, length-append, Bool-cases, ltb→lt,
  Option-cases,
}
use local_engineer.GoStrings.{Text, codes, text_eq_iff, has_prefix, has_suffix}
use local_engineer.GoStrings.Laws.{has_prefix-split, has_suffix-append}
use local_engineer.Egress.{
  Rule, rule_covers_lane, host_matches, first_rule, allows, folded, looked_up,
}

has_suffix-split : (s p : Text) → has_suffix s p ≡ true → (front : Text) × (s ≡ front ++ p)
unfolding has_suffix
has_suffix-split s p h =
    let rest = drop (length (reverse p)) (reverse s) in
    (
      reverse rest,
      sym (reverse-reverse s)
          ∙ ap reverse (has_prefix-split (reverse s) (reverse p) h)
          ∙ reverse-append (reverse p) rest
          ∙ ap (λ q. reverse rest ++ q) (reverse-reverse p),
    )

-- The pattern is the host itself, or a wildcard over the domain that is left when a first label, which
-- is not empty, is taken from the host.
abbrev pub StandsFor : Text → Text → Type 0
StandsFor p h =
    ((has_prefix p (codes "*.") ≡ false) × (h ≡ p))
    ⊎ ((domain front : Text) × (p ≡ b'*' ∷ b'.' ∷ domain)
        × (h ≡ front ++ (b'.' ∷ domain))
        × (front ≢ []))

abbrev wild : Text → Text
wild domain = b'*' ∷ b'.' ∷ domain

wild_test :
    (d h : Text)
    → host_matches (wild d) h ≡ (has_suffix h (b'.' ∷ d) && ltb (length (wild d) - 1) (length h))
unfolding host_matches has_prefix
wild_test d h = refl

both : (a b : Bool) → (a && b) ≡ true → (a ≡ true) × (b ≡ true)
both true true h = (refl, refl)
both true false h = (refl, h)
both false b h = absurd cc

wild-front :
    (d h : Text)
    → host_matches (wild d) h ≡ true
    → (front : Text) × (h ≡ front ++ (b'.' ∷ d)) × (front ≢ [])
wild-front d h e =
    let (ends, longer) = both (has_suffix h (b'.' ∷ d)) _ (sym (wild_test d h) ∙ e) in
    let (front, split) = has_suffix-split h (b'.' ∷ d) ends in
    (
      front,
      split,
      λ none_left. absurd (
          omega
            (arith, ltb→lt _ _ longer, ap length (split ∙ ap (λ f. f ++ (b'.' ∷ d)) none_left))),
    )

wild-back : (d front : Text) → front ≢ [] → host_matches (wild d) (front ++ (b'.' ∷ d)) ≡ true
wild-back d [] ne = absurd (ne refl)
wild-back d (c ∷ front) ne =
    wild_test d (c ∷ front ++ (b'.' ∷ d))
    ∙ rw (has_suffix-append (c ∷ front) (b'.' ∷ d)) (ground (arith, length-append front (b'.' ∷ d)))

matches-StandsFor : (p h : Text) → host_matches p h ≡ true → StandsFor p h
matches-StandsFor p h e = elim (Bool-cases (has_prefix p (codes "*."))) [
  | inr plain ↦ inl (plain, unfold host_matches in ground (arith, text_eq_iff h p))
  | inl w ↦
      let split : p ≡ wild (drop 2 p) = has_prefix-split p (codes "*.") w in
      let (front, f, ne) = wild-front (drop 2 p) h (subst (λ q. host_matches q h ≡ true) split e) in
      inr (drop 2 p, front, split, f, ne)
]

StandsFor-matches : (p h : Text) → StandsFor p h → host_matches p h ≡ true
StandsFor-matches p h (inl (plain, e)) =
    unfold host_matches in ground (arith, plain, e, text_eq_iff h p)
StandsFor-matches p h (inr (domain, front, split, f, ne)) =
    subst (λ q. host_matches q h ≡ true) (sym split)
      (subst (λ g. host_matches (wild domain) g ≡ true) (sym f) (wild-back domain front ne))

-- A rule of the list that covers the lane and stands for the host.
abbrev pub Permits : List Rule → Text → Text → Rule → Type 0
Permits rules lane h r = In r rules × (rule_covers_lane r lane ≡ true) × StandsFor (folded r.host) h

first_split : {P : Type 0} (a b : Bool) → (a ≡ true → b ≡ true → P) → ((a && b) ≡ false → P) → P
first_split true true hit miss = hit refl refl
first_split true false hit miss = miss refl
first_split false b hit miss = miss refl

first_rule-Permits :
    (rules : List Rule) (lane h host : Text)
    → first_rule rules lane h ≡ some host
    → (r : Rule) × Permits rules lane h r × (r.host ≡ host)
unfolding first_rule
first_rule-Permits [] lane h host e = absurd cc
first_rule-Permits (r ∷ rs) lane h host e =
    first_split (rule_covers_lane r lane) (host_matches (folded r.host) h)
      (λ c m. (r, (inl refl, c, matches-StandsFor (folded r.host) h m), ground (arith, e, c, m)))
      (λ miss.
        let (x, (i, c, s), same) = first_rule-Permits rs lane h host (ground (arith, e, miss)) in
        (x, (inr i, c, s), same))

Permits-first_rule :
    (rules : List Rule) (lane h : Text) (r : Rule)
    → Permits rules lane h r
    → first_rule rules lane h ≢ none
unfolding first_rule
Permits-first_rule [] lane h r (i, c, s) e = absurd i
Permits-first_rule (x ∷ rs) lane h r (inl i, c, s) e = ground (
  arith,
  e,
  subst (λ (q : Rule). rule_covers_lane q lane ≡ true) (sym i) c,
  StandsFor-matches (folded x.host) h (subst (λ (q : Rule). StandsFor (folded q.host) h) (sym i) s),
)
Permits-first_rule (x ∷ rs) lane h r (inr i, c, s) e =
    Permits-first_rule rs lane h r (i, c, s) (ground (arith, e))

-- A lane may reach a host exactly when some rule covers the lane and stands for the host, spaces and
-- case aside and without a trailing dot: by its own name, or by a wildcard over a domain that the host
-- lies below, and never by a wildcard over the host itself. The rule that is named is such a rule.
pub allows_exact :
    (rules : List Rule) (lane host : Text)
    → ((allows rules lane host ≢ none) ↔ ((r : Rule) × Permits rules lane (looked_up host) r))
      × ((name : Text)
          → allows rules lane host ≡ some name
          → (r : Rule) × Permits rules lane (looked_up host) r × (r.host ≡ name))
unfolding allows
allows_exact rules lane host = (
  (found, λ (r, p). Permits-first_rule rules lane (looked_up host) r p),
  first_rule-Permits rules lane (looked_up host),
)
  where
    found : allows rules lane host ≢ none → (r : Rule) × Permits rules lane (looked_up host) r
    found h = elim (Option-cases (first_rule rules lane (looked_up host))) [
      | inl e ↦ absurd (h e)
      | inr (name, e) ↦
          let (r, p, same) = first_rule-Permits rules lane (looked_up host) name e in (r, p)
    ]

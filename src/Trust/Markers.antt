-- ===== src/Trust/Markers.antt =====
-- Neutralised content holds no marker, whatever it was.
use local_engineer.Prelude.{
  ℕ, zero, suc, ◌-◌, ◌≡◌, refl, sym, ap, ◌∙◌, inl, inr, Bool, true, false, not, [], ◌∷◌, ◌++◌,
  arith, ◌==◌, all, Bool-cases, length, subst,
}
use local_engineer.GoStrings.{Text, codes, has_prefix, contains, replace_from, replace_all}
use local_engineer.Trust.{marker, defanged, open_tail, end_tail, neutralise}

abbrev plain : Text → Bool
plain t = all (λ c. not (c == 60)) t

-- The tail of a marker: it has no `<`, and does not begin with `!`.
abbrev IsTail : Text → Type 0
IsTail [] = ⊥
IsTail (c ∷ t) = (plain (c ∷ t) ≡ true) × ((c == 33) ≡ false)

-- Content without `<` at the front hides no marker.
contains-plain :
    (t rest u : Text) → plain t ≡ true → contains (t ++ rest) (marker u) ≡ contains rest (marker u)
unfolding contains has_prefix
contains-plain [] rest u h = refl
contains-plain (c ∷ t) rest u h = ground (arith, contains-plain t rest u)

contains-defanged :
    (t rest u : Text)
    → plain t ≡ true
    → contains (defanged t ++ rest) (marker u) ≡ contains rest (marker u)
unfolding contains has_prefix
contains-defanged t rest u h = ground (arith, contains-plain t rest u)

front_hit : (d : ℕ) (q out : Text) → plain (d ∷ q) ≡ true → has_prefix (60 ∷ out) (d ∷ q) ≡ true → ⊥
unfolding has_prefix
front_hit d q out h p = ground arith

front_miss :
    (c d : ℕ) (s q out : Text)
    → (has_prefix out q ≡ true → has_prefix s q ≡ true)
    → has_prefix (c ∷ out) (d ∷ q) ≡ true
    → has_prefix (c ∷ s) (d ∷ q) ≡ true
unfolding has_prefix
front_miss c d s q out ih p = ground arith

front_hit₁ :
    (c : ℕ) (u out : Text) → IsTail (c ∷ u) → has_prefix (defanged out) (60 ∷ c ∷ u) ≡ true → ⊥
unfolding has_prefix
front_hit₁ c u out h p = ground arith

front_hit₂ :
    (c : ℕ) (u out : Text) → IsTail (c ∷ u) → has_prefix (defanged out) (60 ∷ 60 ∷ c ∷ u) ≡ true → ⊥
unfolding has_prefix
front_hit₂ c u out h p = ground arith

module _ (t : Text) where
  abbrev swapped : ℕ → Text → Text
  swapped skip s = replace_from skip s (marker t) (defanged t)

  swapped-hit :
      (c : ℕ) (s : Text)
      → has_prefix (c ∷ s) (marker t) ≡ true
      → swapped zero (c ∷ s) ≡ defanged t ++ swapped (length (marker t) - 1) s
  unfolding replace_from
  swapped-hit c s hit = rw hit refl

  swapped-skip : (skip c : ℕ) (s : Text) → swapped (suc skip) (c ∷ s) ≡ swapped skip s
  unfolding replace_from
  swapped-skip skip c s = refl

  swapped-miss :
      (c : ℕ) (s : Text)
      → has_prefix (c ∷ s) (marker t) ≡ false
      → swapped zero (c ∷ s) ≡ c ∷ swapped zero s
  unfolding replace_from
  swapped-miss c s miss = rw miss refl

  -- What is plain at the front of the output was at the front of the input.
  plain-front :
      (q s : Text) → plain q ≡ true → has_prefix (swapped zero s) q ≡ true → has_prefix s q ≡ true
  plain-front [] s h p = unfold has_prefix in refl
  plain-front (d ∷ q) [] h p = unfold replace_from in p
  plain-front (d ∷ q) (c ∷ s) h p = elim (Bool-cases (has_prefix (c ∷ s) (marker t))) [
    | inl hit ↦
        absurd
          (front_hit d q _ h (subst (λ o. has_prefix o (d ∷ q) ≡ true) (swapped-hit c s hit) p))
    | inr miss ↦
        front_miss c d s q (swapped zero s) (plain-front q s (ground arith))
          (subst (λ o. has_prefix o (d ∷ q) ≡ true) (swapped-miss c s miss) p)
  ]

  -- So a marker at the front of the output was at the front of the input: the defanged text cannot
  -- complete one.
  marker-front₁ :
      (c : ℕ) (u s : Text)
      → IsTail (c ∷ u)
      → has_prefix (swapped zero s) (60 ∷ c ∷ u) ≡ true
      → has_prefix s (60 ∷ c ∷ u) ≡ true
  marker-front₁ c u [] h p = unfold replace_from in p
  marker-front₁ c u (b ∷ s) h p = elim (Bool-cases (has_prefix (b ∷ s) (marker t))) [
    | inl hit ↦ absurd (
        front_hit₁ c u (t ++ swapped (length (marker t) - 1) s) h
          (subst (λ o. has_prefix o (60 ∷ c ∷ u) ≡ true) (swapped-hit b s hit) p))
    | inr miss ↦
        front_miss b 60 s (c ∷ u) (swapped zero s) (plain-front (c ∷ u) s h.0)
          (subst (λ o. has_prefix o (60 ∷ c ∷ u) ≡ true) (swapped-miss b s miss) p)
  ]

  marker-front₂ :
      (c : ℕ) (u s : Text)
      → IsTail (c ∷ u)
      → has_prefix (swapped zero s) (60 ∷ 60 ∷ c ∷ u) ≡ true
      → has_prefix s (60 ∷ 60 ∷ c ∷ u) ≡ true
  marker-front₂ c u [] h p = unfold replace_from in p
  marker-front₂ c u (b ∷ s) h p = elim (Bool-cases (has_prefix (b ∷ s) (marker t))) [
    | inl hit ↦ absurd (
        front_hit₂ c u (t ++ swapped (length (marker t) - 1) s) h
          (subst (λ o. has_prefix o (60 ∷ 60 ∷ c ∷ u) ≡ true) (swapped-hit b s hit) p))
    | inr miss ↦
        front_miss b 60 s (60 ∷ c ∷ u) (swapped zero s) (marker-front₁ c u s h)
          (subst (λ o. has_prefix o (60 ∷ 60 ∷ c ∷ u) ≡ true) (swapped-miss b s miss) p)
  ]

  marker-front :
      (b c : ℕ) (u s : Text)
      → IsTail (c ∷ u)
      → has_prefix (b ∷ swapped zero s) (marker (c ∷ u)) ≡ true
      → has_prefix (b ∷ s) (marker (c ∷ u)) ≡ true
  marker-front b c u s h p =
      front_miss b 60 s (60 ∷ 60 ∷ c ∷ u) (swapped zero s) (marker-front₂ c u s h) p

contains-tail_false : (c : ℕ) (s x : Text) → contains (c ∷ s) x ≡ false → contains s x ≡ false
unfolding contains
contains-tail_false c s x h = ground arith

contains-front_false :
    (c : ℕ) (s x : Text) → contains (c ∷ s) x ≡ false → has_prefix (c ∷ s) x ≡ false
unfolding contains
contains-front_false c s x h = ground arith

contains-cons :
    (c : ℕ) (s x : Text)
    → has_prefix (c ∷ s) x ≡ false
    → contains s x ≡ false
    → contains (c ∷ s) x ≡ false
unfolding contains
contains-cons c s x h k = ground arith

Bool-not : (b d : Bool) → (b ≡ true → d ≡ true) → d ≡ false → b ≡ false
Bool-not true d h k = sym (h refl) ∙ k
Bool-not false d h k = refl

module _ (t : Text) (plain_t : plain t ≡ true) (c : ℕ) (u : Text) (tail : IsTail (c ∷ u)) where
  -- Defanging one marker brings no other into being.
  pub keeps_clear :
      (skip : ℕ) (s : Text)
      → contains s (marker (c ∷ u)) ≡ false
      → contains (swapped t skip s) (marker (c ∷ u)) ≡ false
  keeps_clear zero [] h = unfold replace_from in h
  keeps_clear (suc skip) [] h = unfold replace_from in h
  keeps_clear (suc skip) (b ∷ s) h =
      ap (λ o. contains o (marker (c ∷ u))) (swapped-skip t skip b s)
      ∙ keeps_clear skip s (contains-tail_false b s _ h)
  keeps_clear zero (b ∷ s) h = elim (Bool-cases (has_prefix (b ∷ s) (marker t))) [
    | inl hit ↦
        ap (λ o. contains o (marker (c ∷ u))) (swapped-hit t b s hit)
        ∙ contains-defanged t (swapped t (length (marker t) - 1) s) (c ∷ u) plain_t
        ∙ keeps_clear (length (marker t) - 1) s (contains-tail_false b s _ h)
    | inr miss ↦
        ap (λ o. contains o (marker (c ∷ u))) (swapped-miss t b s miss)
        ∙ contains-cons b (swapped t zero s) (marker (c ∷ u))
            (Bool-not _ _ (marker-front t b c u s tail) (contains-front_false b s _ h))
            (keeps_clear zero s (contains-tail_false b s _ h))
  ]

module _ (c : ℕ) (u : Text) (tail : IsTail (c ∷ u)) where
  -- Nor does the marker that is defanged stay anywhere.
  pub removes : (skip : ℕ) (s : Text) → contains (swapped (c ∷ u) skip s) (marker (c ∷ u)) ≡ false
  removes zero [] = unfold replace_from contains has_prefix in refl
  removes (suc skip) [] = unfold replace_from contains has_prefix in refl
  removes (suc skip) (b ∷ s) =
      ap (λ o. contains o (marker (c ∷ u))) (swapped-skip (c ∷ u) skip b s) ∙ removes skip s
  removes zero (b ∷ s) = elim (Bool-cases (has_prefix (b ∷ s) (marker (c ∷ u)))) [
    | inl hit ↦
        ap (λ o. contains o (marker (c ∷ u))) (swapped-hit (c ∷ u) b s hit)
        ∙ contains-defanged (c ∷ u) (swapped (c ∷ u) (length (marker (c ∷ u)) - 1) s) (c ∷ u) tail.0
        ∙ removes (length (marker (c ∷ u)) - 1) s
    | inr miss ↦
        ap (λ o. contains o (marker (c ∷ u))) (swapped-miss (c ∷ u) b s miss)
        ∙ contains-cons b (swapped (c ∷ u) zero s) (marker (c ∷ u))
            (Bool-not _ _ (marker-front (c ∷ u) b c u s tail) miss) (removes zero s)
  ]

-- Text without `<<<` holds no marker.
has_prefix-short :
    (s u : Text) → has_prefix s (codes "<<<") ≡ false → has_prefix s (marker u) ≡ false
unfolding has_prefix
has_prefix-short [] u h = refl
has_prefix-short (a ∷ []) u h = ground arith
has_prefix-short (a ∷ b ∷ []) u h = ground arith
has_prefix-short (a ∷ b ∷ c ∷ s) u h = ground arith

contains-short : (s u : Text) → contains s (codes "<<<") ≡ false → contains s (marker u) ≡ false
contains-short [] u h = unfold contains has_prefix in refl
contains-short (c ∷ s) u h =
    contains-cons c s (marker u) (has_prefix-short (c ∷ s) u (contains-front_false c s _ h))
      (contains-short s u (contains-tail_false c s _ h))

-- Neutralised content holds neither marker, whatever the content: it can neither close a fence nor
-- imitate one, and no choice of overlapping pieces makes the replacement itself leave a marker.
pub neutralise_is_clear :
    (body : Text)
    → (contains (neutralise body) (marker open_tail) ≡ false)
      × (contains (neutralise body) (marker end_tail) ≡ false)
unfolding neutralise replace_all
neutralise_is_clear body = elim (Bool-cases (contains body (codes "<<<"))) [
  | inr free ↦ rw free (contains-short body open_tail free, contains-short body end_tail free)
  | inl some ↦ rw some (
    removes 85 (codes "NTRUSTED") (refl, refl) zero _,
    keeps_clear open_tail refl 69 (codes "ND UNTRUSTED") (refl, refl) zero _
        (removes 69 (codes "ND UNTRUSTED") (refl, refl) zero body),
  )
]

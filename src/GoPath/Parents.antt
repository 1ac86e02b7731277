-- ===== src/GoPath/Parents.antt =====
-- `dir` shortens a path until it has reached its root.
use local_engineer.Prelude.{
  ℕ, suc, ◌≤◌, ◌<◌, ◌≡◌, ◌≢◌, refl, sym, ap, ◌∙◌, ◌⊎◌, inl, inr, [], ◌∷◌, ◌++◌, arith, length,
  reverse, ◌==◌, Bool-cases, List-cases,
}
use mathlib.Core.List.{reverse-cons, reverse-reverse}
use local_engineer.GoStrings.{Text, codes, split, has_prefix}
use local_engineer.GoPath.{
  slash, join_parts, clean_part, clean_parts, is_abs, or_dot, clean, upto_slash, dir,
}
use local_engineer.GoPath.Lengths.{length-reverse, length-clean, clean-nonempty}

-- The text up to the last slash, read from the end.
upto_slash_cases :
    (r : Text)
    → (upto_slash r ≡ [])
      ⊎ ((u : Text) × (upto_slash r ≡ slash ∷ u) × ((slash ∷ u ≡ r) ⊎ (suc (length u) < length r)))
unfolding upto_slash
upto_slash_cases [] = inl refl
upto_slash_cases (c ∷ s) = elim (Bool-cases (c == slash)) [
  | inl e ↦
      let same : c ≡ slash = ground arith in
      inr (s, rw e (ap (λ d. d ∷ s) same), inl (ap (λ d. d ∷ s) (sym same)))
  | inr e ↦ elim (upto_slash_cases s) [
    | inl n ↦ inl (rw e n)
    | inr (u, f, inl whole) ↦ inr (u, rw e f, inr (ground (arith, ap length whole)))
    | inr (u, f, inr shorter) ↦ inr (u, rw e f, inr (omega arith))
  ]
]

dir_parent :
    (p u : Text) → upto_slash (reverse p) ≡ slash ∷ u → dir p ≡ clean (reverse u ++ slash ∷ [])
unfolding dir
dir_parent p u h = rw h (ap clean (reverse-cons slash u))

clean-root : clean (slash ∷ []) ≡ slash ∷ []
unfolding clean is_abs has_prefix split clean_parts clean_part join_parts
clean-root = refl

clean-empty : clean [] ≡ codes "."
unfolding clean is_abs has_prefix split clean_parts clean_part join_parts or_dot
clean-empty = refl

-- Where the path ends in the slash or goes on behind it.
abbrev Ends : Text → Text → Type 0
Ends p u = (slash ∷ u ≡ reverse p) ⊎ (suc (length u) < length (reverse p))

abbrev Shortened : Text → Type 0
Shortened p = (dir p ≡ codes ".") ⊎ ((length (dir p) < length p) ⊎ (dir p ≡ p))

Ends-length : (p u : Text) → Ends p u → suc (length u) ≤ length p
Ends-length p u (inl whole) = omega (arith, length-reverse p, ap length whole)
Ends-length p u (inr behind) = omega (arith, length-reverse p)

dir_root : (p : Text) → dir p ≡ slash ∷ [] → Ends p [] → Shortened p
dir_root p d (inl whole) = inr (inr (d ∙ ap reverse whole ∙ reverse-reverse p))
dir_root p d (inr behind) = inr (inl (omega (arith, length-reverse p, ap length d)))

dir_deeper :
    (p u : Text) (c : ℕ) (s : Text)
    → dir p ≡ clean (c ∷ s ++ slash ∷ [])
    → suc (length s) ≡ length u
    → Ends p u
    → Shortened p
dir_deeper p u c s d same ends = elim (length-clean c s) [
  | inl dot ↦ inl (d ∙ dot)
  | inr short ↦ inr (inl (omega (arith, ap length d, Ends-length p u ends)))
]

dir-Shortened : (p u : Text) → dir p ≡ clean (reverse u ++ slash ∷ []) → Ends p u → Shortened p
dir-Shortened p [] d ends = dir_root p (d ∙ clean-root) ends
dir-Shortened p (e ∷ u) d ends = elim (List-cases (reverse (e ∷ u))) [
  | inl n ↦ absurd (omega (arith, length-reverse (e ∷ u), ap length n))
  | inr (c, s, n) ↦
      dir_deeper p (e ∷ u) c s (d ∙ ap (λ r. clean (r ++ slash ∷ [])) n)
        (omega (arith, length-reverse (e ∷ u), ap length n)) ends
]

dir_flat : (p : Text) → upto_slash (reverse p) ≡ [] → dir p ≡ codes "."
unfolding dir
dir_flat p n = ap (λ r. clean (reverse r)) n ∙ clean-empty

-- `dir` gives `.`, or a shorter path, or has reached the root.
pub dir_cases : (p : Text) → (dir p ≡ codes ".") ⊎ ((length (dir p) < length p) ⊎ (dir p ≡ p))
dir_cases p = elim (upto_slash_cases (reverse p)) [
  | inl n ↦ inl (dir_flat p n)
  | inr (u, f, ends) ↦ dir-Shortened p u (dir_parent p u f) ends
]

pub dir-dot : dir (codes ".") ≡ codes "."
unfolding dir upto_slash
dir-dot = clean-empty

pub dir-nonempty : (p : Text) → dir p ≢ []
unfolding dir
dir-nonempty p = clean-nonempty (reverse (upto_slash (reverse p)))

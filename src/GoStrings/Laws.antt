-- ===== src/GoStrings/Laws.antt =====
-- How the string functions act on a concatenation.
use mathlib.Core.List.{reverse-append, reverse-cons}
use local_engineer.Prelude.{
  ℕ, ◌≡◌, refl, sym, ap, true, List, [], ◌∷◌, ◌++◌, reverse, ◌==◌, arith, length, drop, map,
  length-append, Bool-cases, inl, inr,
}
use mathlib.Core.List.{reverse-reverse}
use local_engineer.GoStrings.{
  Text, has_prefix, has_suffix, trim_suffix, to_lower, lower, split, text_eq, text_eq_iff,
  push_first,
}

pub drop-append : (p s : Text) → drop (length p) (p ++ s) ≡ s
drop-append [] s = refl
drop-append (c ∷ p) s = drop-append p s

pub has_prefix-append : (p s : Text) → has_prefix (p ++ s) p ≡ true
unfolding has_prefix
has_prefix-append [] s = refl
has_prefix-append (c ∷ p) s = ground (arith, has_prefix-append p s)

-- A prefix that is found can be cut off.
pub has_prefix-split : (s p : Text) → has_prefix s p ≡ true → s ≡ p ++ drop (length p) s
unfolding has_prefix
has_prefix-split s [] h = refl
has_prefix-split [] (d ∷ p) h = cc
has_prefix-split (c ∷ s) (d ∷ p) h = ground (arith, has_prefix-split s p)

pub has_suffix-append : (s p : Text) → has_suffix (s ++ p) p ≡ true
unfolding has_suffix
has_suffix-append s p =
    rw (reverse-append s p) (unfold has_prefix in has_prefix-append (reverse p) (reverse s))

pub text_eq_refl : (s : Text) → text_eq s s ≡ true
text_eq_refl s = (text_eq_iff s s).1 refl

length-reverse : (s : Text) → length (reverse s) ≡ length s
length-reverse [] = refl
length-reverse (c ∷ s) =
    omega
      (arith, ap length (reverse-cons c s), length-append (reverse s) (c ∷ []), length-reverse s)

pub trim_suffix-append : (s p : Text) → trim_suffix (s ++ p) p ≡ s
unfolding trim_suffix
trim_suffix-append s p =
    rw (has_suffix-append s p, reverse-append s p, ← length-reverse p)
      (rw (drop-append (reverse p) (reverse s)) (reverse-reverse s))

-- Folding a letter twice changes nothing more, and never touches or makes a slash.
lower_idem : (c : ℕ) → lower (lower c) ≡ lower c
lower_idem c = ground arith

pub to_lower_idem : (s : Text) → to_lower (to_lower s) ≡ to_lower s
unfolding to_lower
to_lower_idem [] = refl
to_lower_idem (c ∷ s) = cc (lower_idem c, to_lower_idem s)

lower-slash : (c : ℕ) → (lower c == b'/') ≡ (c == b'/')
lower-slash c = ground arith

map-push_first :
    (c : ℕ) (parts : List Text)
    → map to_lower (push_first c parts) ≡ push_first (lower c) (map to_lower parts)
unfolding to_lower
map-push_first c [] = refl
map-push_first c (part ∷ parts) = refl

-- A path folded and split is the path split and folded.
pub split-to_lower : (s : Text) → split (to_lower s) b'/' ≡ map to_lower (split s b'/')
unfolding split to_lower
split-to_lower [] = refl
split-to_lower (c ∷ s) = elim (Bool-cases (c == b'/')) [
  | inl e ↦ rw (lower-slash c, e) (ap (λ parts. [] ∷ parts) (split-to_lower s))
  | inr e ↦ rw (lower-slash c, e) (rw (split-to_lower s) (sym (map-push_first c (split s b'/'))))
]

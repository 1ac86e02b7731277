-- ===== src/GoPath/Lengths.antt =====
-- How long a cleaned path is.
use local_engineer.Prelude.{
  ℕ, suc, ◌+◌, ◌-◌, ◌≤◌, ◌≡◌, ◌≢◌, refl, sym, ap, ◌∙◌, subst, ◌⊎◌, inl, inr, Bool, true, false,
  ◌||◌, List, [], ◌∷◌, ◌++◌, arith, length, length-append, reverse, is_empty, ◌==◌, if◌then◌else◌,
  Bool-cases,
}
use mathlib.Core.List.{reverse-cons}
use local_engineer.GoStrings.{Text, codes, split, push_first, has_prefix, text_eq, text_eq_iff}
use local_engineer.GoPath.{
  slash, join_parts, pop_part, clean_part, clean_parts, is_abs, or_dot, clean,
}

-- The bytes of the parts, each with a separator.
abbrev size : List Text → ℕ
size [] = 0
size (part ∷ parts) = suc (length part) + size parts

size-pop_part : (rooted : Bool) (kept : List Text) → size (pop_part rooted kept) ≤ size kept + 3
unfolding pop_part
size-pop_part true [] = omega arith
size-pop_part false [] = omega arith
size-pop_part rooted (part ∷ kept) = elim (Bool-cases (text_eq part (codes ".."))) [
  | inl e ↦ rw e (omega arith)
  | inr e ↦ rw e (omega arith)
]

size-clean_part :
    (rooted : Bool) (part : Text) (kept : List Text)
    → size (clean_part rooted part kept) ≤ size kept + suc (length part)
unfolding clean_part
size-clean_part rooted part kept = elim (Bool-cases (is_empty part || text_eq part (codes "."))) [
  | inl e ↦ rw e (omega arith)
  | inr e ↦ elim (Bool-cases (text_eq part (codes ".."))) [
    | inl d ↦
        rw (e, d)
          (omega
            (arith, size-pop_part rooted kept, ap length ((text_eq_iff part (codes "..")).0 d)))
    | inr d ↦ rw (e, d) (omega arith)
  ]
]

size-append : (xs ys : List Text) → size (xs ++ ys) ≡ size xs + size ys
size-append [] ys = omega arith
size-append (x ∷ xs) ys = omega (arith, size-append xs ys)

size-reverse : (xs : List Text) → size (reverse xs) ≡ size xs
size-reverse [] = refl
size-reverse (x ∷ xs) =
    rw (reverse-cons x xs) (omega (arith, size-append (reverse xs) (x ∷ []), size-reverse xs))

pub length-reverse : (s : Text) → length (reverse s) ≡ length s
length-reverse [] = refl
length-reverse (c ∷ s) =
    rw (reverse-cons c s) (omega (arith, length-append (reverse s) (c ∷ []), length-reverse s))

length-join_parts : (xs : List Text) → length (join_parts xs) ≤ size xs - 1
unfolding join_parts
length-join_parts [] = omega arith
length-join_parts (x ∷ []) = omega arith
length-join_parts (x ∷ y ∷ xs) =
    omega (arith, length-join_parts (y ∷ xs), length-append x (slash ∷ join_parts (y ∷ xs)))

size-push_first :
    (c : ℕ) (parts : List Text) → parts ≢ [] → size (push_first c parts) ≡ suc (size parts)
size-push_first c [] h = absurd (h refl)
size-push_first c (part ∷ parts) h = omega arith

push_first-nonempty : (c : ℕ) (parts : List Text) → push_first c parts ≢ []
push_first-nonempty c [] h = cc
push_first-nonempty c (part ∷ parts) h = cc

push_first-append :
    (c : ℕ) (xs ys : List Text) → xs ≢ [] → push_first c (xs ++ ys) ≡ push_first c xs ++ ys
push_first-append c [] ys h = absurd (h refl)
push_first-append c (x ∷ xs) ys h = refl

split-nonempty : (s : Text) (sep : ℕ) → split s sep ≢ []
unfolding split
split-nonempty [] sep h = cc
split-nonempty (c ∷ s) sep h = elim (Bool-cases (c == sep)) [
  | inl e ↦ absurd (ground arith)
  | inr e ↦ push_first-nonempty c (split s sep) (ground arith)
]

size-split : (s : Text) (sep : ℕ) → size (split s sep) ≡ suc (length s)
unfolding split
size-split [] sep = refl
size-split (c ∷ s) sep = elim (Bool-cases (c == sep)) [
  | inl e ↦ rw e (omega (arith, size-split s sep))
  | inr e ↦
      rw e (omega (arith, size-split s sep, size-push_first c (split s sep) (split-nonempty s sep)))
]

-- A separator at the end adds an empty part.
split-append-sep : (s : Text) (sep : ℕ) → split (s ++ sep ∷ []) sep ≡ split s sep ++ [] ∷ []
unfolding split
split-append-sep [] sep = ground arith
split-append-sep (c ∷ s) sep = elim (Bool-cases (c == sep)) [
  | inl e ↦ rw (e, split-append-sep s sep) refl
  | inr e ↦
      rw (e, split-append-sep s sep)
        (push_first-append c (split s sep) ([] ∷ []) (split-nonempty s sep))
]

clean_parts-append-nil :
    (rooted : Bool) (parts kept : List Text)
    → clean_parts rooted (parts ++ [] ∷ []) kept ≡ clean_parts rooted parts kept
unfolding clean_parts clean_part
clean_parts-append-nil rooted [] kept = refl
clean_parts-append-nil rooted (part ∷ parts) kept =
    clean_parts-append-nil rooted parts (clean_part rooted part kept)

size-clean_parts :
    (rooted : Bool) (parts kept : List Text)
    → size (clean_parts rooted parts kept) ≤ size kept + size parts
unfolding clean_parts
size-clean_parts rooted [] kept = omega arith
size-clean_parts rooted (part ∷ parts) kept = omega (
  arith,
  size-clean_parts rooted parts (clean_part rooted part kept),
  size-clean_part rooted part kept,
)

-- The elements that `clean` keeps of a path that ends in a separator, joined.
kept_of : Bool → Text → Text
kept_of rooted s = join_parts (reverse (clean_parts rooted (split s slash) []))

length-kept_of : (rooted : Bool) (s : Text) → length (kept_of rooted s) ≤ length s
unfolding kept_of
length-kept_of rooted s =
    let kept = clean_parts rooted (split s slash) [] in
    omega (
      arith,
      length-join_parts (reverse kept),
      size-reverse kept,
      size-clean_parts rooted (split s slash) [],
      size-split s slash,
    )

kept_of-append : (rooted : Bool) (s : Text) → kept_of rooted (s ++ slash ∷ []) ≡ kept_of rooted s
unfolding kept_of
kept_of-append rooted s =
    rw (split-append-sep s slash, clean_parts-append-nil rooted (split s slash) []) refl

-- The first part of a rooted path is empty, and is not kept.
kept_of-rooted : (rooted : Bool) (s : Text) → kept_of rooted (slash ∷ s) ≡ kept_of rooted s
unfolding kept_of split clean_parts clean_part
kept_of-rooted rooted s = refl

clean-kept_of :
    (s : Text) → clean s ≡ (if is_abs s then slash ∷ kept_of true s else or_dot (kept_of false s))
unfolding clean kept_of
clean-kept_of s = elim (Bool-cases (is_abs s)) [ inl e ↦ rw e refl | inr e ↦ rw e refl ]

or_dot_cases : (s : Text) (n : ℕ) → length s ≤ n → (or_dot s ≡ codes ".") ⊎ (length (or_dot s) ≤ n)
unfolding or_dot
or_dot_cases [] n h = inl refl
or_dot_cases (c ∷ s) n h = inr h

is_abs_cases :
    (c : ℕ) (s : Text) → (is_abs (c ∷ s) ≡ false) ⊎ ((c ≡ slash) × (is_abs (c ∷ s) ≡ true))
unfolding is_abs has_prefix
is_abs_cases c s = ground arith

is_abs-append : (c : ℕ) (s t : Text) → is_abs (c ∷ s ++ t) ≡ is_abs (c ∷ s)
unfolding is_abs has_prefix
is_abs-append c s t = ground arith

-- Cleaning drops the separator at the end of a longer path.
pub length-clean :
    (c : ℕ) (s : Text)
    → (clean (c ∷ s ++ slash ∷ []) ≡ codes ".")
      ⊎ (length (clean (c ∷ s ++ slash ∷ [])) ≤ suc (length s))
length-clean c s = elim (is_abs_cases c s) [
  | inl relative ↦
      subst (λ t. (t ≡ codes ".") ⊎ (length t ≤ suc (length s)))
        (sym (
          clean-kept_of (c ∷ s ++ slash ∷ [])
          ∙ rw (is_abs-append c s (slash ∷ []), relative)
              (ap or_dot (kept_of-append false (c ∷ s)))))
        (or_dot_cases (kept_of false (c ∷ s)) (suc (length s)) (length-kept_of false (c ∷ s)))
  | inr (rooted, absolute) ↦ inr (
      rw
        (
          clean-kept_of (c ∷ s ++ slash ∷ []),
          is_abs-append c s (slash ∷ []),
          absolute,
          kept_of-append true (c ∷ s),
          rooted,
          kept_of-rooted true s,
        )
        (omega (arith, length-kept_of true s)))
]

or_dot-nonempty : (s : Text) → or_dot s ≢ []
unfolding or_dot
or_dot-nonempty [] h = cc
or_dot-nonempty (c ∷ s) h = cc

pub clean-nonempty : (s : Text) → clean s ≢ []
clean-nonempty s h = elim (Bool-cases (is_abs s)) [
  | inl e ↦ absurd (ground (arith, clean-kept_of s))
  | inr e ↦ or_dot-nonempty (kept_of false s) (ground (arith, clean-kept_of s))
]

-- ===== src/GoStrings/Lines.antt =====
-- Splitting at a byte and joining with it undo each other.
use mathlib.Core.List.{append_assoc}
use local_engineer.Prelude.{
  ℕ, zero, suc, ◌≡◌, refl, ap, ◌∙◌, inl, inr, Bool, true, false, not, ◌&&◌, List, [], ◌∷◌, ◌++◌,
  arith, ◌==◌, all, take, drop, Bool-cases,
}
use local_engineer.GoStrings.{Text, split, join_by, push_first}

abbrev pub plain : ℕ → Text → Bool
plain sep s = all (λ c. not (c == sep)) s

pub all-append :
    {A : Type 0} (p : A → Bool) (xs ys : List A) → all p (xs ++ ys) ≡ (all p xs && all p ys)
all-append p [] ys = refl
all-append p (x ∷ xs) ys = ground (arith, all-append p xs ys)

pub all-take :
    {A : Type 0} (p : A → Bool) (n : ℕ) (xs : List A) → all p xs ≡ true → all p (take n xs) ≡ true
all-take p zero xs h = refl
all-take p (suc n) [] h = refl
all-take p (suc n) (x ∷ xs) h = ground (arith, all-take p n xs)

pub all-drop :
    {A : Type 0} (p : A → Bool) (n : ℕ) (xs : List A) → all p xs ≡ true → all p (drop n xs) ≡ true
all-drop p zero xs h = h
all-drop p (suc n) [] h = refl
all-drop p (suc n) (x ∷ xs) h = all-drop p n xs (ground arith)

push_first-plain :
    (sep c : ℕ) (parts : List Text)
    → (c == sep) ≡ false
    → all (plain sep) parts ≡ true
    → all (plain sep) (push_first c parts) ≡ true
push_first-plain sep c [] e h = ground arith
push_first-plain sep c (part ∷ parts) e h = ground arith

-- No part of a split holds the separator.
pub split-plain : (s : Text) (sep : ℕ) → all (plain sep) (split s sep) ≡ true
unfolding split
split-plain [] sep = refl
split-plain (c ∷ s) sep = elim (Bool-cases (c == sep)) [
  | inl e ↦ rw e (split-plain s sep)
  | inr e ↦ rw e (push_first-plain sep c (split s sep) e (split-plain s sep))
]

pub split-end : (part : Text) (sep : ℕ) → plain sep part ≡ true → split part sep ≡ part ∷ []
unfolding split
split-end [] sep h = refl
split-end (c ∷ part) sep h = elim (Bool-cases (c == sep)) [
  | inl e ↦ absurd (ground arith)
  | inr e ↦ rw (e, split-end part sep (ground arith)) refl
]

pub split-next :
    (part rest : Text) (sep : ℕ)
    → plain sep part ≡ true
    → split (part ++ sep ∷ rest) sep ≡ part ∷ split rest sep
unfolding split
split-next [] rest sep h = ground arith
split-next (c ∷ part) rest sep h = elim (Bool-cases (c == sep)) [
  | inl e ↦ absurd (ground arith)
  | inr e ↦ rw (e, split-next part rest sep (ground arith)) refl
]

-- The lines of joined lines are the lines.
pub split-join_by :
    (sep : ℕ) (part : Text) (parts : List Text)
    → all (plain sep) (part ∷ parts) ≡ true
    → split (join_by sep (part ∷ parts)) sep ≡ part ∷ parts
unfolding join_by
split-join_by sep part [] h = split-end part sep (ground arith)
split-join_by sep part (next ∷ parts) h =
    split-next part (join_by sep (next ∷ parts)) sep (ground arith)
    ∙ ap (λ ls. part ∷ ls) (split-join_by sep next parts (ground arith))

pub split-join_by-append :
    (sep : ℕ) (part : Text) (parts : List Text) (rest : Text)
    → all (plain sep) (part ∷ parts) ≡ true
    → split (join_by sep (part ∷ parts) ++ sep ∷ rest) sep ≡ (part ∷ parts) ++ split rest sep
unfolding join_by
split-join_by-append sep part [] rest h = split-next part rest sep (ground arith)
split-join_by-append sep part (next ∷ parts) rest h =
    ap (λ s. split s sep) (append_assoc part (sep ∷ join_by sep (next ∷ parts)) (sep ∷ rest))
    ∙ split-next part (join_by sep (next ∷ parts) ++ sep ∷ rest) sep (ground arith)
    ∙ ap (λ ls. part ∷ ls) (split-join_by-append sep next parts rest (ground arith))

-- ===== src/Prelude/Lists.antt =====
-- Lists measured by native numbers, searched by Boolean tests, and the predicates on their items.
use Prim.Native.Nat.{ℕ, zero, suc, ◌+◌, min}
use mathlib.Core.Path.{◌≡◌, refl, ap, ◌∙◌}
use mathlib.Core.Logic.{◌⊎◌, ◌↔◌, inl, inr}
use mathlib.Core.Bool.{Bool, true, false, ◌||◌, ◌&&◌}
use mathlib.Core.List.{List, [], ◌∷◌, ◌++◌, map, reverse, reverse-cons}
use mathlib.Core.Option.{Option, none, some}
use native.Mathlib.Omega.{arith}
use local_engineer.Prelude.Tests.{if◌then◌else◌, if_split}

module _ {ℓ} {A : Type ℓ} where
  abbrev pub length : List A → ℕ
  length [] = 0
  length (x ∷ xs) = suc (length xs)

  abbrev pub get_elem? : List A → ℕ → Option A
  get_elem? [] i = none
  get_elem? (x ∷ xs) zero = some x
  get_elem? (x ∷ xs) (suc i) = get_elem? xs i

  abbrev pub take : ℕ → List A → List A
  take zero xs = []
  take (suc n) [] = []
  take (suc n) (x ∷ xs) = x ∷ take n xs

  abbrev pub drop : ℕ → List A → List A
  drop zero xs = xs
  drop (suc n) [] = []
  drop (suc n) (x ∷ xs) = drop n xs

  pub length-append : (xs ys : List A) → length (xs ++ ys) ≡ length xs + length ys
  length-append [] ys = omega arith
  length-append (x ∷ xs) ys = omega (arith, length-append xs ys)

  pub length-take : (n : ℕ) (xs : List A) → length (take n xs) ≡ min n (length xs)
  length-take zero xs = omega arith
  length-take (suc n) [] = omega arith
  length-take (suc n) (x ∷ xs) = omega (arith, length-take n xs)

  -- A `for … range` loop that sets a flag or returns on the first hit.
  abbrev pub any : (A → Bool) → List A → Bool
  any p [] = false
  any p (x ∷ xs) = p x || any p xs

  abbrev pub all : (A → Bool) → List A → Bool
  all p [] = true
  all p (x ∷ xs) = p x && all p xs

  abbrev pub keep : (A → Bool) → List A → List A
  keep p [] = []
  keep p (x ∷ xs) = if p x then x ∷ keep p xs else keep p xs

  abbrev pub is_empty : List A → Bool
  is_empty [] = true
  is_empty (x ∷ xs) = false

-- Every item satisfies the predicate; it computes to a product.
abbrev pub All {ℓ κ} : {A : Type ℓ} → (A → Type κ) → List A → Type κ
All P [] = Unit
All P (x ∷ xs) = P x × All P xs

-- The item stands in the list; it computes to a sum.
abbrev pub In : {A : Type 0} → A → List A → Type 0
In a [] = ⊥
In a (x ∷ xs) = (x ≡ a) ⊎ In a xs

-- `sort.Slice` by a strict order; items that the order does not tell apart keep their order.
module _ {ℓ} {A : Type ℓ} (less : A → A → Bool) where
  pub insert_by : A → List A → List A
  insert_by a [] = a ∷ []
  insert_by a (x ∷ xs) = if less x a then x ∷ insert_by a xs else a ∷ x ∷ xs

  unfoldable pub sort_by : List A → List A
  unfolding insert_by
  sort_by [] = []
  sort_by (x ∷ xs) = insert_by x (sort_by xs)

  length-insert_by : (a : A) (xs : List A) → length (insert_by a xs) ≡ suc (length xs)
  unfolding insert_by
  length-insert_by a [] = refl
  length-insert_by a (x ∷ xs) = ground (arith, length-insert_by a xs)

  pub length-sort_by : (xs : List A) → length (sort_by xs) ≡ length xs
  unfolding sort_by
  length-sort_by [] = refl
  length-sort_by (x ∷ xs) = omega (arith, length-insert_by x (sort_by xs), length-sort_by xs)

module _ {A : Type 0} (less : A → A → Bool) where
  In-insert_by : (b a : A) (xs : List A) → In b (insert_by less a xs) ↔ ((a ≡ b) ⊎ In b xs)
  unfolding insert_by
  In-insert_by b a [] = ((λ h. h), (λ h. h))
  In-insert_by b a (x ∷ xs) = ground (arith, In-insert_by b a xs)

  -- Sorting keeps the items.
  pub In-sort_by : (b : A) (xs : List A) → In b (sort_by less xs) ↔ In b xs
  unfolding sort_by
  In-sort_by b [] = ((λ h. h), (λ h. h))
  In-sort_by b (x ∷ xs) = ground (arith, In-insert_by b x (sort_by less xs), In-sort_by b xs)

  insert_by-last :
      (a : A) (xs : List A)
      → ((x : A) → In x xs → less x a ≡ true)
      → insert_by less a xs ≡ xs ++ a ∷ []
  unfolding insert_by
  insert_by-last a [] h = refl
  insert_by-last a (x ∷ xs) h =
      rw (h x (inl refl)) (ap (λ ys. x ∷ ys) (insert_by-last a xs (λ y i. h y (inr i))))

  -- What is after all the others comes last.
  pub sort_by-last :
      (a : A) (xs : List A)
      → ((x : A) → In x xs → less x a ≡ true)
      → sort_by less (a ∷ xs) ≡ sort_by less xs ++ a ∷ []
  unfolding sort_by
  sort_by-last a xs h = insert_by-last a (sort_by less xs) (λ x i. h x ((In-sort_by x xs).0 i))

  module _ (g : A → A) (same : (a b : A) → less (g a) (g b) ≡ less a b) where
    insert_by-map :
        (a : A) (xs : List A) → insert_by less (g a) (map g xs) ≡ map g (insert_by less a xs)
    unfolding insert_by
    insert_by-map a [] = refl
    insert_by-map a (x ∷ xs) = rw (same x a) (
        if_split
          (λ ys.
            (if less x a then g x ∷ insert_by less (g a) (map g xs) else g a ∷ g x ∷ map g xs)
            ≡ map g ys)
          (less x a) (λ e. rw e (ap (λ ys. g x ∷ ys) (insert_by-map a xs))) (λ e. rw e refl))

    -- A change of the items that keeps their order can be made before or after the sorting.
    pub sort_by-map : (xs : List A) → sort_by less (map g xs) ≡ map g (sort_by less xs)
    unfolding sort_by
    sort_by-map [] = refl
    sort_by-map (x ∷ xs) =
        ap (insert_by less (g x)) (sort_by-map xs) ∙ insert_by-map x (sort_by less xs)

module _ {A : Type 0} where
  pub keep-map :
      (p : A → Bool) (g : A → A)
      → ((x : A) → p (g x) ≡ p x)
      → (xs : List A) → keep p (map g xs) ≡ map g (keep p xs)
  keep-map p g same [] = refl
  keep-map p g same (x ∷ xs) = rw (same x) (
      if_split (λ ys. (if p x then g x ∷ keep p (map g xs) else keep p (map g xs)) ≡ map g ys) (p x)
        (λ e. rw e (ap (λ ys. g x ∷ ys) (keep-map p g same xs))) (λ e. rw e (keep-map p g same xs)))

  pub In-append : (b : A) (xs ys : List A) → In b (xs ++ ys) ↔ (In b xs ⊎ In b ys)
  In-append b [] ys = ((λ h. inr h), (λ h. elim h [ inl e ↦ absurd e | inr e ↦ e ]))
  In-append b (x ∷ xs) ys = ground (arith, In-append b xs ys)

  pub In-reverse : (b : A) (xs : List A) → In b (reverse xs) ↔ In b xs
  In-reverse b [] = ((λ h. h), (λ h. h))
  In-reverse b (x ∷ xs) =
      rw (reverse-cons x xs) (ground (arith, In-append b (reverse xs) (x ∷ []), In-reverse b xs))

  pub In-keep : (p : A → Bool) (b : A) (xs : List A) → In b (keep p xs) ↔ (In b xs × (p b ≡ true))
  In-keep p b [] = ((λ h. absurd h), (λ h. absurd (h.0)))
  In-keep p b (x ∷ xs) = ground (arith, In-keep p b xs)

  any_split :
      (p : A → Bool) (x : A) (xs : List A)
      → any p (x ∷ xs) ≡ true
      → (p x ≡ true) ⊎ (any p xs ≡ true)
  any_split p x xs h = ground arith

  -- The loop finds an item exactly when there is one.
  pub any-In : (p : A → Bool) (xs : List A) → any p xs ≡ true → (a : A) × In a xs × (p a ≡ true)
  any-In p [] h = cc
  any-In p (x ∷ xs) h = elim (any_split p x xs h) [
    | inl e ↦ (x, inl refl, e)
    | inr e ↦ let (a, m, q) = any-In p xs e in (a, inr m, q)
  ]

  pub In-any : (p : A → Bool) (a : A) (xs : List A) → In a xs → p a ≡ true → any p xs ≡ true
  In-any p a [] m h = absurd m
  In-any p a (x ∷ xs) (inl e) h = rw e (rw h)
  In-any p a (x ∷ xs) (inr m) h = ground (arith, In-any p a xs m h)

  pub all-In : (p : A → Bool) (a : A) (xs : List A) → all p xs ≡ true → In a xs → p a ≡ true
  all-In p a [] h m = absurd m
  all-In p a (x ∷ xs) h (inl e) = rw (← e) (ground arith)
  all-In p a (x ∷ xs) h (inr m) = all-In p a xs (ground arith) m

  pub In-all : (p : A → Bool) (xs : List A) → ((a : A) → In a xs → p a ≡ true) → all p xs ≡ true
  In-all p [] h = refl
  In-all p (x ∷ xs) h = ground (arith, h x (inl refl), In-all p xs (λ a m. h a (inr m)))

pub List-cases : {A : Type 0} (xs : List A) → (xs ≡ []) ⊎ ((y : A) × (ys : List A) × (xs ≡ y ∷ ys))
List-cases [] = inl refl
List-cases (y ∷ ys) = inr (y, ys, refl)

-- ===== src/Policy/Scope.antt =====
-- What a task's scope covers, and which paths are sensitive.
use local_engineer.Prelude.{
  ◌≡◌, refl, ◌↔◌, ◌⊎◌, true, List, [], ◌∷◌, map, arith, In, any, any-In, In-any,
}
use local_engineer.GoStrings.{Text, codes, text_eq, to_lower, split}
use local_engineer.GoStrings.Laws.{to_lower_idem, split-to_lower}
use local_engineer.GoPath.{clean}
use local_engineer.Policy.{valid_scope, matches, covered_by, covers, sensitive, sensitive_part}

-- A path is covered exactly when a pattern of the scope that is itself valid (not empty, not
-- absolute, no backslash, no `..` element, well formed) is `.` or matches the path, once cleaned.
pub covers_exact :
    (scope : List Text) (rel : Text)
    → (covers scope rel ≡ true) ↔ (
        (pattern : Text) × In pattern scope
        × (valid_scope pattern ≡ true)
        × ((text_eq (clean pattern) (codes ".") ≡ true) ⊎ (matches (clean pattern) rel ≡ true)))
unfolding covers covered_by
covers_exact scope rel = (there, back)
  where
    there :
        any (covered_by rel) scope ≡ true
        → (pattern : Text) × In pattern scope
          × (valid_scope pattern ≡ true)
          × ((text_eq (clean pattern) (codes ".") ≡ true) ⊎ (matches (clean pattern) rel ≡ true))
    there h = let (p, m, q) = any-In (covered_by rel) scope h in (p, m, ground arith, ground arith)

    back :
        (pattern : Text) × In pattern scope
          × (valid_scope pattern ≡ true)
          × ((text_eq (clean pattern) (codes ".") ≡ true) ⊎ (matches (clean pattern) rel ≡ true))
        → any (covered_by rel) scope ≡ true
    back (p, m, v, c) = In-any (covered_by rel) p scope m (ground arith)

any_lowered :
    (parts : List Text) → any sensitive_part (map to_lower parts) ≡ any sensitive_part parts
any_lowered [] = refl
any_lowered (p ∷ ps) = rw (to_lower_idem p, any_lowered ps)

-- Whether a path is sensitive does not depend on the case of its letters.
pub sensitive-to_lower : (rel : Text) → sensitive (to_lower rel) ≡ sensitive rel
unfolding sensitive
sensitive-to_lower rel = rw (split-to_lower rel, to_lower_idem rel, any_lowered (split rel b'/'))

-- ===== src/Firewall/Authority.antt =====
-- What `Access.Check` lets through: exact conditions on both names of a path.
use local_engineer.Prelude.{
  ◌≡◌, ◌≢◌, refl, sym, ◌↔◌, inl, inr, Bool, true, false, List, [], ◌∷◌, ◌++◌, none, some, arith, In,
  ok, ◌then_check◌, Result-cases, Option-cases, ◌∙◌, then_check-right,
}
use local_engineer.GoStrings.{Text, codes}
use local_engineer.GoPath.{clean, rel_inside}
use local_engineer.Worktree.{FileSystem, Links, Links-cases, resolve}
use local_engineer.Policy.{Rule, Policy, check, covers, sensitive, relative, violation}
use local_engineer.Policy.Protection.{check-subtree}
use local_engineer.Firewall.{Access, generated, in_git, in_metadata, check_name, check_access}

abbrev pub Readable : Text → Type 0
Readable name = (sensitive name ≡ false) × (in_git name ≡ false)

abbrev pub Writable : Access → Text → Type 0
Writable a name =
    (sensitive name ≡ false)
    × (in_git name ≡ false)
    × (in_metadata name ≡ false)
    × (generated name ≡ false)
    × (check a.protected (name ∷ []) ≡ [])
    × (covers a.write_scope name ≡ true)

check_name-read : (a : Access) (name : Text) → (check_name a false name ≡ none) ↔ Readable name
unfolding check_name
check_name-read a name = ground arith

check_name-write : (a : Access) (name : Text) → (check_name a true name ≡ none) ↔ Writable a name
unfolding check_name
check_name-write a name = ground arith

-- The path resolves below the worktree, and the two names that are checked are the supplied path,
-- cleaned, and the path of the real target.
abbrev pub Resolves : FileSystem → Text → Text → Text → Type 0
Resolves fs root rel target =
    (full : Text) × (canonical_root : Text) × (resolve fs root rel ≡ ok full)
    × (fs.eval_symlinks root ≡ Links.resolved canonical_root)
    × (rel_inside canonical_root full ≡ some target)

check_access-none :
    (fs : FileSystem) (a : Access) (root rel : Text) (write : Bool)
    → check_access fs a root rel write ≡ none
    → (target : Text) × Resolves fs root rel target
      × (check_name a write (clean rel) ≡ none)
      × (check_name a write target ≡ none)
unfolding check_access
check_access-none fs a root rel write h = elim (Result-cases (resolve fs root rel)) [
  | inr (e, bad) ↦ absurd (ground arith)
  | inl (full, found) ↦ elim (Links-cases (fs.eval_symlinks root)) [
    | inr other ↦ absurd (ground arith)
    | inl (canonical_root, real) ↦ elim (Option-cases (rel_inside canonical_root full)) [
      | inl outside ↦ absurd (ground arith)
      | inr (target, below) ↦
          (target, (full, canonical_root, found, real, below), ground arith, ground arith)
    ]
  ]
]

Resolves-check_access :
    (fs : FileSystem) (a : Access) (root rel : Text) (write : Bool) (target : Text)
    → Resolves fs root rel target
    → check_access fs a root rel write
      ≡ (check_name a write (clean rel) then_check check_name a write target)
unfolding check_access
Resolves-check_access fs a root rel write target (full, canonical_root, found, real, below) =
    ground arith

-- A write is allowed exactly when the path resolves below the worktree and both of its names, the
-- supplied one and that of the real target, are writable: not sensitive, not under `.git`, not
-- supervisor metadata, not generated, reported by no policy, and covered by the write scope.
pub check_access-write :
    (fs : FileSystem) (a : Access) (root rel : Text)
    → (check_access fs a root rel true ≡ none)
      ↔ ((target : Text) × Resolves fs root rel target × Writable a (clean rel) × Writable a target)
check_access-write fs a root rel = (there, back)
  where
    there :
        check_access fs a root rel true ≡ none
        → (target : Text) × Resolves fs root rel target × Writable a (clean rel) × Writable a target
    there h =
        let (t, r, p, q) = check_access-none fs a root rel true h in
        (t, r, (check_name-write a (clean rel)).0 p, (check_name-write a t).0 q)

    back :
        (target : Text) × Resolves fs root rel target × Writable a (clean rel) × Writable a target
        → check_access fs a root rel true ≡ none
    back (t, r, p, q) =
        rw (Resolves-check_access fs a root rel true t r, (check_name-write a (clean rel)).1 p)
          ((check_name-write a t).1 q)

-- A read that is allowed shows no sensitive file and nothing of `.git`, under either of its names.
pub check_access-read :
    (fs : FileSystem) (a : Access) (root rel : Text)
    → check_access fs a root rel false ≡ none
    → (target : Text) × Resolves fs root rel target × Readable (clean rel) × Readable target
check_access-read fs a root rel h =
    let (t, r, p, q) = check_access-none fs a root rel false h in
    (t, r, (check_name-read a (clean rel)).0 p, (check_name-read a t).0 q)

In-nil : {A : Type 0} (a : A) (xs : List A) → In a xs → xs ≢ []
In-nil a [] m e = m
In-nil a (x ∷ xs) m e = cc

-- No scope opens a protected subtree: where a policy holds a rule `d/**`, no write is allowed to a
-- path whose real target lies below `d`, whatever name it is given and whatever scope is declared.
pub protected-check_access :
    (fs : FileSystem) (a : Access) (root rel target d rest : Text) (p : Policy) (r : Rule)
    → In p a.protected.policies
    → In r p.protected
    → r.path ≡ d ++ codes "/**"
    → Resolves fs root rel target
    → relative target ≡ (d ++ codes "/") ++ rest
    → check_access fs a root rel true ≢ none
protected-check_access fs a root rel target d rest p r j k at_rule res below h =
    In-nil (violation (relative target) p r) (check a.protected (target ∷ []))
      (check-subtree a.protected p r (target ∷ []) target d rest j k (inl refl) at_rule below)
      ((check_name-write a target).0 allowed).4
  where
    allowed : check_name a true target ≡ none
    allowed =
        then_check-right (check_name a true (clean rel)) (check_name a true target)
          (sym (Resolves-check_access fs a root rel true target res) ∙ h)

-- ===== src/Worktree/Fuel.antt =====
-- The search for an existing ancestor ends before its fuel does.
use local_engineer.Prelude.{
  ℕ, zero, suc, ◌<◌, ◌≡◌, ◌≢◌, refl, sym, ◌⊎◌, inl, inr, false, List, [], ◌∷◌, arith, length, err,
  Bool-cases, is_empty, ap, ◌∙◌,
}
use local_engineer.GoStrings.{Text, codes, text_eq, text_eq_iff}
use local_engineer.GoPath.{join, dir, base, is_abs}
use local_engineer.GoPath.Lengths.{clean-nonempty}
use local_engineer.GoPath.Parents.{dir_cases, dir-dot, dir-nonempty}
use local_engineer.Worktree.{FileSystem, unfinished, inside, climb, canonical, resolve, Links-cases}

-- Enough fuel for the rounds that an ancestor can still take.
abbrev Fuelled : ℕ → Text → Type 0
Fuelled fuel p = (p ≢ []) × ((length p < fuel) ⊎ ((p ≡ codes ".") × (0 < fuel)))

Fuelled-dir : (fuel : ℕ) (p : Text) → Fuelled (suc fuel) p → dir p ≢ p → Fuelled fuel (dir p)
Fuelled-dir fuel [] (some_path, h) ne = absurd (some_path refl)
Fuelled-dir fuel (c ∷ p) (some_path, inr (dot, h)) ne = absurd (ne (ap dir dot ∙ dir-dot ∙ sym dot))
Fuelled-dir fuel (c ∷ p) (some_path, inl h) ne = (
  dir-nonempty (c ∷ p),
  elim (dir_cases (c ∷ p)) [
    | inl dot ↦ inr (dot, omega arith)
    | inr (inl shorter) ↦ inl (omega arith)
    | inr (inr same) ↦ absurd (ne same)
  ],
)

climb-ne-unfinished :
    (fs : FileSystem) (fuel : ℕ) (root rel ancestor : Text) (suffix : List Text)
    → Fuelled fuel ancestor
    → climb fs fuel root rel ancestor suffix ≢ err unfinished
unfolding climb
climb-ne-unfinished fs zero root rel ancestor suffix (some_path, h) e = elim h [
  | inl short ↦ omega arith
  | inr (dot, short) ↦ omega arith
]
climb-ne-unfinished fs (suc fuel) root rel ancestor suffix f e =
    let above = climb-ne-unfinished fs fuel root rel (dir ancestor) (base ancestor ∷ suffix) in
    let less = Fuelled-dir fuel ancestor f in
    elim (Links-cases (fs.eval_symlinks ancestor)) [
      | inl (path, found) ↦ elim (Bool-cases (inside root path)) [
        | inl within ↦ ground arith
        | inr without ↦ ground arith
      ]
      | inr (inr (why, broken)) ↦ ground arith
      | inr (inl missing) ↦ elim (Bool-cases (fs.is_symlink ancestor)) [
        | inl dangling ↦ ground arith
        | inr absent ↦ elim (Bool-cases (text_eq (dir ancestor) ancestor)) [
          | inl top ↦ ground arith
          | inr higher ↦
              above (less (λ same. ground (arith, text_eq_iff (dir ancestor) ancestor)))
                (ground arith)
        ]
      ]
    ]

join-nonempty : (a b : Text) → is_empty b ≡ false → join a b ≢ []
unfolding join
join-nonempty [] b h = ground (arith, clean-nonempty b)
join-nonempty (c ∷ a) b h = rw h (clean-nonempty _)

-- Every path is resolved or refused for a reason of the program: the search for an existing ancestor
-- never runs out of its fuel, whatever the file system answers.
pub resolve-ne-unfinished :
    (fs : FileSystem) (worktree rel : Text) → resolve fs worktree rel ≢ err unfinished
unfolding resolve canonical
resolve-ne-unfinished fs worktree rel e = elim (Bool-cases (is_empty rel)) [
  | inl blank ↦ ground arith
  | inr named ↦ elim (Bool-cases (is_abs rel)) [
    | inl absolute ↦ ground arith
    | inr relative ↦ elim (Links-cases (fs.eval_symlinks worktree)) [
      | inr (inl missing) ↦ ground arith
      | inr (inr (why, broken)) ↦ ground arith
      | inl (root, found) ↦
          let full = join root rel in
          elim (Bool-cases (inside root full)) [
            | inr out ↦ ground arith
            | inl within ↦
                climb-ne-unfinished fs (suc (length full)) root rel full []
                  (join-nonempty root rel named, inl (omega arith)) (ground arith)
          ]
    ]
  ]
]

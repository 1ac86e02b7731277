-- ===== src/Worktree.antt =====
-- internal/worktree/worktree.go, the confinement of paths: `Resolve`, `inside` and the calls that
-- read and write below a worktree. The file system is the parameter `FileSystem`.
pub mod Fuel
mod Examples
use local_engineer.Prelude.{
  ℕ, zero, suc, Bool, List, [], ◌∷◌, ◌++◌, if◌then◌else◌, is_empty, Result, ok, err, ◌>>=◌, length,
  ◌||◌, ◌≡◌, refl, ◌⊎◌, inl, inr,
}
use local_engineer.GoStrings.{Text, codes, text_eq, has_prefix}
use local_engineer.GoPath.{is_abs, join, dir, base}

-- What `filepath.EvalSymlinks` answers.
pub data Links : Type 0 where
  resolved : Text → Links
  missing : Links
  broken : Text → Links

pub record FileSystem : Type 0 where
  pub eval_symlinks : Text → Links
  pub is_symlink : Text → Bool
  pub read_file : Text → Result Text Text
  pub exists : Text → Bool

pub data ResolveError : Type 0 where
  empty_path : ResolveError
  absolute outside outside_by_link dangling_link : Text → ResolveError
  io_error : Text → ResolveError
  -- The fuel of the model is spent; it never is.
  unfinished : ResolveError

unfoldable pub inside : Text → Text → Bool
inside root path = text_eq path root || has_prefix path (root ++ codes "/")

-- The elements cut off on the way up are put back, the outermost first.
unfoldable pub rejoin : Text → List Text → Text
rejoin full [] = full
rejoin full (part ∷ suffix) = rejoin (join full part) suffix

module _ (fs : FileSystem) where
  open fs use {eval_symlinks, is_symlink, read_file, exists}

  -- The loop over the ancestors of a path that may not exist yet. Each round leaves an element of
  -- the path, so the path's length is enough fuel. `suffix` holds the outermost element first.
  unfoldable pub climb : ℕ → Text → Text → Text → List Text → Result ResolveError Text
  climb zero root rel ancestor suffix = err unfinished
  climb (suc fuel) root rel ancestor suffix =
      let parent = dir ancestor in
      let above = climb fuel root rel parent (base ancestor ∷ suffix) in
      elim (eval_symlinks ancestor) [
        | resolved path ↦
            if inside root path then ok (rejoin path suffix) else err (outside_by_link rel)
        | broken why ↦ err (io_error why)
        | missing ↦
            if is_symlink ancestor
            then err (dangling_link rel)
            else if text_eq parent ancestor
            then err (io_error ancestor)
            else above
      ]

  canonical : Text → Result ResolveError Text
  canonical path = elim (eval_symlinks path) [
    | resolved root ↦ ok root
    | missing ↦ err (io_error path)
    | broken why ↦ err (io_error why)
  ]

  unfoldable pub resolve : Text → Text → Result ResolveError Text
  unfolding canonical
  resolve worktree rel =
      if is_empty rel then err empty_path else if is_abs rel then err (absolute rel) else do
        root ← canonical worktree
        let full = join root rel
        if inside root full then climb (suc (length full)) root rel full [] else err (outside rel)

  unfoldable pub read_within : Text → Text → Result ResolveError (Result Text Text)
  read_within worktree rel = do full ← resolve worktree rel; ok (read_file full)

  unfoldable pub stat_within : Text → Text → Result ResolveError Bool
  stat_within worktree rel = do full ← resolve worktree rel; ok (exists full)

pub Links-cases :
    (l : Links)
    → ((p : Text) × (l ≡ resolved p)) ⊎ ((l ≡ missing) ⊎ ((why : Text) × (l ≡ broken why)))
Links-cases (resolved p) = inl (p, refl)
Links-cases missing = inr (inl refl)
Links-cases (broken why) = inr (inr (why, refl))

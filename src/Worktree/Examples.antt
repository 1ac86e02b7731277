-- ===== src/Worktree/Examples.antt =====
-- A new file below a directory that does not exist yet.
use local_engineer.Prelude.{◌≡◌, ◌≢◌, refl, true, false, [], ok, err, if◌then◌else◌}
use local_engineer.GoStrings.{codes, text_eq, has_prefix, split}
use local_engineer.GoPath.{join, dir, base, clean, is_abs, join_parts}
use local_engineer.Worktree.{FileSystem, Links, outside, unfinished, inside, climb, rejoin, resolve}
use local_engineer.Worktree.Fuel.{resolve-ne-unfinished}

-- Only the checkout itself is there, behind a link.
abbrev small_fs : FileSystem
small_fs = record {
  eval_symlinks = λ p.
      if text_eq p (codes "/w")
      then Links.resolved (codes "/real")
      else if text_eq p (codes "/real")
      then Links.resolved (codes "/real")
      else Links.missing;
  is_symlink = λ p. false;
  read_file = λ p. ok [];
  exists = λ p. true;
}

resolve-ne-unfinished_example : resolve small_fs (codes "/w") (codes "a/b.go") ≢ err unfinished
resolve-ne-unfinished_example = resolve-ne-unfinished small_fs (codes "/w") (codes "a/b.go")

new_file : resolve small_fs (codes "/w") (codes "a/b.go") ≡ ok (codes "/real/a/b.go")
unfolding resolve climb inside rejoin join dir base clean is_abs join_parts has_prefix split text_eq
new_file = refl

outside_file : resolve small_fs (codes "/w") (codes "../b.go") ≡ err (outside (codes "../b.go"))
unfolding resolve climb inside rejoin join dir base clean is_abs join_parts has_prefix split text_eq
outside_file = refl

-- ===== src/Firewall/Examples.antt =====
-- Tests of the authority of an attempt and of the credential scan, on a small checkout.
use local_engineer.Prelude.{◌≡◌, ◌≢◌, refl, ◌↔◌, inl, true, false, [], ◌∷◌, ◌++◌, none, some, ok}
use local_engineer.GoStrings.{
  Text, codes, text_eq, has_prefix, has_suffix, contains, split, to_lower, trim_prefix,
}
use local_engineer.GoPath.{clean, join, base, is_abs, join_parts, rel_inside}
use local_engineer.Worktree.{FileSystem, Links, inside, climb, rejoin, resolve}
use local_engineer.Policy.{Rule, Policy, sensitive}
use local_engineer.Firewall.{
  Access, check_name, check_access, credential_pattern, check_lines, check_diff_secrets,
}
use local_engineer.Firewall.Authority.{
  Writable, Resolves, check_access-write, protected-check_access,
}

-- A checkout without links, in which every path exists.
abbrev plain_fs : FileSystem
plain_fs = record {
  eval_symlinks = λ p. Links.resolved p;
  is_symlink = λ p. false;
  read_file = λ p. ok [];
  exists = λ p. true;
}

abbrev root : Text
root = codes "/w"

abbrev api_rule : Rule
api_rule = record { path = codes "api/**"; reason = codes "frozen" }

abbrev contract : Policy
contract = record { name = codes "contract"; protected = api_rule ∷ [] }

abbrev access : Access
access = record { write_scope = codes "." ∷ []; protected = record { policies = contract ∷ [] } }

abbrev source_file : Text
source_file = codes "main.go"

abbrev api_file : Text
api_file = codes "api/v1.go"

source_file-Resolves : Resolves plain_fs root source_file source_file
unfolding resolve climb inside rejoin join clean is_abs join_parts has_prefix split rel_inside
    text_eq trim_prefix
source_file-Resolves = (codes "/w/main.go", root, refl, refl, refl)

api_file-Resolves : Resolves plain_fs root api_file api_file
unfolding resolve climb inside rejoin join clean is_abs join_parts has_prefix split rel_inside
    text_eq trim_prefix
api_file-Resolves = (codes "/w/api/v1.go", root, refl, refl, refl)

check_access-write_example : (check_access plain_fs access root source_file true ≡ none) ↔ (
    (target : Text) × Resolves plain_fs root source_file target
    × Writable access (clean source_file)
    × Writable access target)
check_access-write_example = check_access-write plain_fs access root source_file

source_file_is_readable : check_access plain_fs access root source_file false ≡ none
unfolding check_access check_name resolve climb inside rejoin join clean is_abs join_parts
    has_prefix split rel_inside text_eq sensitive has_suffix contains base to_lower trim_prefix
source_file_is_readable = refl

protected-check_access_example : check_access plain_fs access root api_file true ≢ none
unfolding text_eq trim_prefix
protected-check_access_example =
    protected-check_access plain_fs access root api_file api_file (codes "api") (codes "v1.go")
      contract api_rule (inl refl) (inl refl) refl api_file-Resolves refl

abbrev clean_diff : Text
clean_diff = codes "+++ b/a" ++ 10 ∷ codes "+x" ++ 10 ∷ codes "-AKIA0123456789ABCDEF"

-- A removed line may hold a credential, an added one may not.
clean_diff_passes : check_diff_secrets clean_diff ≡ none
unfolding check_diff_secrets check_lines credential_pattern split has_prefix trim_prefix
clean_diff_passes = refl

leaky_diff_stops :
    check_diff_secrets (codes "+++ b/a" ++ 10 ∷ codes "+AKIA0123456789ABCDEF") ≡ some (codes "b/a")
unfolding check_diff_secrets check_lines credential_pattern split has_prefix trim_prefix
leaky_diff_stops = refl

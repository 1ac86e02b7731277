-- ===== src/Policy.antt =====
-- internal/policy/policy.go and internal/policy/scope.go: the operator's protected paths, the scope
-- of a task, and the paths whose content must not reach the model. Reading and decoding the files
-- is the parameter of `load`.
pub mod Scope
pub mod Protection
mod Examples
use local_engineer.Prelude.{
  ℕ, suc, Bool, true, false, not, ◌&&◌, ◌||◌, List, [], ◌∷◌, ◌++◌, map, Option, none, some, ltb,
  ◌==◌, if◌then◌else◌, is_empty, any, sort_by, Result, ok, err, ◌>>=◌, ◌then_check◌, keep,
}
use local_engineer.GoStrings.{
  Text, codes, text_eq, text_lt, has_prefix, has_suffix, contains, trim_prefix, trim_suffix,
  trim_space, to_lower, split,
}
use local_engineer.GoPath.{slash, is_abs, clean, ext}
use local_engineer.GoPath.Match.{match}

pub record Rule : Type 0 where
  pub path : Text
  pub reason : Text

pub record Policy : Type 0 where
  pub name : Text
  pub protected : List Rule

pub record Violation : Type 0 where
  pub path : Text
  pub policy : Text
  pub rule : Text
  pub reason : Text

-- `Set`: every policy of the operator.
pub record PolicySet : Type 0 where
  pub policies : List Policy

pub data Invalid : Type 0 where
  no_name : Invalid
  protects_nothing : Text → Invalid
  rule_without_path : Text → ℕ → Invalid
  rule_without_reason : Text → Text → Invalid
  bad_pattern : Text → Text → Invalid

is_blank : Text → Bool
unfolding trim_space
is_blank s = is_empty (trim_space s)

abbrev pub is_none : Option Bool → Bool
is_none none = true
is_none (some _) = false

validate_rule : Text → ℕ → Rule → Option Invalid
unfolding is_blank match
validate_rule name i r =
    if is_blank r.path
    then some (rule_without_path name (suc i))
    else if is_blank r.reason
    then some (rule_without_reason name r.path)
    else if is_none (match r.path (codes "probe"))
    then some (bad_pattern name r.path)
    else none

validate_rules : Text → ℕ → List Rule → Option Invalid
unfolding validate_rule
validate_rules name i [] = none
validate_rules name i (r ∷ rs) = validate_rule name i r then_check validate_rules name (suc i) rs

unfoldable pub validate : Policy → Option Invalid
unfolding validate_rules is_blank
validate p =
    if is_blank p.name
    then some no_name
    else if is_empty p.protected
    then some (protects_nothing p.name)
    else validate_rules p.name 0 p.protected

unfoldable pub matches : Text → Text → Bool
matches pattern rel =
    let subtree = trim_suffix pattern (codes "/**") in
    if has_suffix pattern (codes "/**")
    then text_eq rel subtree || has_prefix rel (subtree ++ codes "/")
    else elim (match pattern rel) [
      | some true ↦ true
      | _ ↦ has_prefix rel (trim_suffix pattern (codes "/") ++ codes "/")
    ]

abbrev pub violation : Text → Policy → Rule → Violation
violation rel p r = record { path = rel; policy = p.name; rule = r.path; reason = r.reason }

-- The innermost loop of `Check`: the rules of one policy against one path.
unfoldable pub rule_violations : Text → Policy → List Rule → List Violation
rule_violations rel p [] = []
rule_violations rel p (r ∷ rs) =
    let rest = rule_violations rel p rs in
    if matches r.path rel then violation rel p r ∷ rest else rest

unfoldable pub policy_violations : Text → List Policy → List Violation
unfolding rule_violations
policy_violations rel [] = []
policy_violations rel (p ∷ ps) = rule_violations rel p p.protected ++ policy_violations rel ps

abbrev pub relative : Text → Text
relative changed = trim_prefix changed (codes "./")

unfoldable pub all_violations : List Policy → List Text → List Violation
unfolding policy_violations
all_violations ps [] = []
all_violations ps (c ∷ cs) = policy_violations (relative c) ps ++ all_violations ps cs

unfoldable pub check : PolicySet → List Text → List Violation
unfolding all_violations sort_by text_lt
check s changed = sort_by (λ v w. text_lt v.path w.path) (all_violations s.policies changed)

rule_paths : List Policy → List Text
rule_paths [] = []
rule_paths (p ∷ ps) = map (λ r. r.path) p.protected ++ rule_paths ps

-- `Paths`.
unfoldable pub paths : PolicySet → List Text
unfolding rule_paths sort_by text_lt
paths s = sort_by text_lt (rule_paths s.policies)

-- `validScope`.
unfoldable pub valid_scope : Text → Bool
valid_scope pattern =
    not (is_empty pattern || is_abs pattern || contains pattern (92 ∷ []))
    && not (any (λ part. text_eq part (codes "..")) (split pattern slash))
    && not (is_none (match pattern (codes "probe")))

unfoldable pub covered_by : Text → Text → Bool
covered_by rel pattern =
    valid_scope pattern && (text_eq (clean pattern) (codes ".") || matches (clean pattern) rel)

unfoldable pub covers : List Text → Text → Bool
covers scope rel = any (covered_by rel) scope

-- The letters are folded as ASCII; Go folds the others too.
abbrev pub sensitive_part : Text → Bool
sensitive_part part =
    let lowered = to_lower part in
    has_prefix lowered (codes ".env")
    || has_suffix lowered (codes ".pem")
    || has_suffix lowered (codes ".key")
    || contains lowered (codes "credentials")

unfoldable pub sensitive : Text → Bool
sensitive rel =
    any (λ part. sensitive_part part) (split rel slash)
    || has_prefix (to_lower rel) (codes ".agent/secrets")

-- What `os.ReadDir` reports of one file.
pub record Entry : Type 0 where
  pub name : Text
  pub is_dir : Bool

pub data LoadError : Type 0 where
  unreadable : Text → LoadError
  undecodable : Text → LoadError
  invalid : Text → Invalid → LoadError

abbrev yaml_ext : Text → Bool
yaml_ext e = text_eq e (codes ".yaml") || text_eq e (codes ".yml")

policy_names : List Entry → List Text
unfolding ext text_eq
policy_names es = map (λ e. e.name) (keep (λ e. not e.is_dir && yaml_ext (ext e.name)) es)

-- `read` is `os.ReadFile`, and `decode` is `yaml.Unmarshal`, which is not the program's.
module _ (read : Text → Option Text) (decode : Text → Option Policy) where
  load_file : Text → Result LoadError Policy
  load_file name = elim (read name) [
    | none ↦ err (unreadable name)
    | some body ↦ elim (decode body) [
      | none ↦ err (undecodable name)
      | some p ↦ elim (validate p) [ none ↦ ok p | some e ↦ err (invalid name e) ]
    ]
  ]

  load_files : List Text → Result LoadError (List Policy)
  unfolding load_file
  load_files [] = ok []
  load_files (name ∷ names) = do p ← load_file name; ps ← load_files names; ok (p ∷ ps)

  -- A directory that does not exist holds no policy. The loader stops at the first bad file.
  unfoldable pub load : Option (List Entry) → Result LoadError PolicySet
  unfolding policy_names load_files sort_by text_lt
  load none = ok (record { policies = [] })
  load (some entries) = do
    ps ← load_files (sort_by text_lt (policy_names entries))
    ok (record { policies = ps })

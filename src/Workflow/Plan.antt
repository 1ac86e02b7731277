-- ===== src/Workflow/Plan.antt =====
-- internal/workflow/state.go and internal/workflow/signatures.go: the plan that a model proposes and
-- the three checks that it must pass before anything is edited.
pub mod Grants
pub mod Obligations
use local_engineer.Prelude.{
  Bool, true, false, not, ◌&&◌, ◌||◌, List, [], ◌∷◌, ◌++◌, Option, none, some, any, is_empty,
  if◌then◌else◌, ◌then_check◌, ◌==◌,
}
use local_engineer.GoStrings.{Text, codes, text_eq, has_prefix, trim_prefix, trim_space}
use local_engineer.GoPath.{is_abs, clean}
use local_engineer.Policy.{sensitive, covers}
use local_engineer.Firewall.{generated}
use local_engineer.Recipe.{Kind, Preset, is_generate}
use local_engineer.Graph.{Consumer, Impact}

pub record Obligation : Type 0 where
  pub symbol : Text
  pub path : Text
  pub reason : Text
  pub resolution : Text

pub record Plan : Type 0 where
  pub root_cause : Text
  pub files : List Text
  pub symbols : List Text
  pub tests : List Text
  pub contracts : List Text
  pub write_allowlist : List Text
  pub risks : List Text
  pub obligations : List Obligation
  pub regenerate : List Text

pub data PlanError : Type 0 where
  incomplete : PlanError
  invalid_grant generated_grant exceeds_scope undeclared_grant : Text → PlanError
  unknown_preset : Text → PlanError
  not_a_generator : Text → Kind → PlanError
  unresolved_obligation : Text → Text → PlanError

unfoldable pub regenerates_generated : Plan → Bool
regenerates_generated p = not (is_empty p.regenerate)

-- The first preset of that name.
unfoldable pub find_preset : Text → List Preset → Option Preset
find_preset name [] = none
find_preset name (p ∷ ps) = if text_eq p.name name then some p else find_preset name ps

check_generator : Text → Option Preset → Option PlanError
check_generator name none = some (unknown_preset name)
check_generator name (some p) =
    if is_generate p.kind then none else some (not_a_generator name p.kind)

check_generators : List Preset → List Text → Option PlanError
unfolding check_generator
check_generators presets [] = none
check_generators presets (name ∷ names) =
    check_generator name (find_preset name presets) then_check check_generators presets names

unfoldable pub validate_regeneration : Plan → List Preset → Option PlanError
unfolding check_generators
validate_regeneration p presets = check_generators presets p.regenerate

-- `strings.ContainsAny(f, "*?[\\")`.
abbrev pub has_wildcard : Text → Bool
has_wildcard f = any (λ c. any (λ d. d == c) (codes "*?[" ++ 92 ∷ [])) f

abbrev pub bad_grant : Text → Bool
bad_grant f =
    text_eq f (codes ".")
    || is_abs f
    || not (text_eq (clean f) f)
    || has_wildcard f
    || text_eq f (codes "..")
    || has_prefix f (codes "../")
    || sensitive f
    || has_prefix f (codes ".git/")

unfoldable pub check_grant : List Text → Text → Option PlanError
check_grant scope f =
    if bad_grant f
    then some (invalid_grant f)
    else if generated f
    then some (generated_grant f)
    else if not (is_empty scope) && not (covers scope f)
    then some (exceeds_scope f)
    else none

unfoldable pub check_grants : List Text → List Text → Option PlanError
check_grants scope [] = none
check_grants scope (f ∷ fs) = check_grant scope f then_check check_grants scope fs

unfoldable pub check_declared : List Text → List Text → Option PlanError
check_declared files [] = none
check_declared files (f ∷ fs) =
    (if any (λ declared. text_eq declared f) files then none else some (undeclared_grant f))
    then_check check_declared files fs

abbrev pub is_incomplete : Plan → Bool
is_incomplete p =
    is_empty (trim_space p.root_cause)
    || is_empty p.files
    || is_empty p.write_allowlist
    || is_empty p.tests

-- `Plan.Validate`.
unfoldable pub validate : Plan → List Text → Option PlanError
validate p scope =
    if is_incomplete p
    then some incomplete
    else check_grants scope (p.files ++ p.write_allowlist)
      then_check check_declared p.files p.write_allowlist

abbrev no_change : Text
no_change = codes "no change needed:"

-- Whether one obligation disposes of a consumer.
abbrev pub resolves : Plan → Consumer → Obligation → Bool
resolves p c o =
    text_eq o.path c.node.path
    && (text_eq o.symbol c.node.fqn || text_eq o.symbol c.node.name)
    && ((text_eq o.resolution (codes "edit") && covers p.write_allowlist o.path)
        || (has_prefix o.resolution no_change
            && not (is_empty (trim_space (trim_prefix o.resolution no_change)))))

unfoldable pub check_consumers : Plan → List Consumer → Option PlanError
check_consumers p [] = none
check_consumers p (c ∷ cs) =
    let rest = check_consumers p cs in
    if is_empty c.node.path || any (resolves p c) p.obligations
    then rest
    else some (unresolved_obligation c.node.fqn c.node.path)

-- `ValidateObligations`: with no impact report there is nothing to dispose of.
unfoldable pub validate_obligations : Plan → Option Impact → Option PlanError
validate_obligations p none = none
validate_obligations p (some impact) = check_consumers p impact.consumers

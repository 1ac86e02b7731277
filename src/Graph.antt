-- ===== src/Graph.antt =====
-- internal/graph/types.go and internal/graph/impact.go: the typed code graph, the table of
-- compatibility verdicts and the impact report.
pub mod Verdicts
pub mod Report
pub mod Traverse
mod Examples
use local_engineer.Prelude.{
  ℕ, suc, ◌+◌, Bool, true, false, not, ◌&&◌, ◌||◌, List, [], ◌∷◌, ◌++◌, Option, none, some, ltb,
  ◌==◌, if◌then◌else◌, any, map, sort_by, keep,
}
use local_engineer.GoStrings.{Text, codes, text_eq, text_lt}

pub data Evidence : Type 0 where
  resolved declared inferred observed unknown : Evidence

-- `Certain`.
unfoldable pub certain : Evidence → Bool
certain resolved = true
certain declared = true
certain _ = false

pub data EdgeKind : Type 0 where
  contains imports depends_on calls implements uses_type references routes_to handles : EdgeKind
  reads_config writes_schema reads_schema tests builds deploys provisions touches : EdgeKind
  extends embeds returns accepts : EdgeKind

pub data ChangeKind : Type 0 where
  signature behaviour remove rename add_field schema config route : ChangeKind

pub data Verdict : Type 0 where
  breaking compiles compatible undetermined : Verdict

-- The fields of a node that the report reads.
pub record Node : Type 0 where
  pub id : ℕ
  pub kind : Text
  pub name : Text
  pub fqn : Text
  pub path : Text

pub record Reached : Type 0 where
  pub node : Node
  pub depth : ℕ
  pub via : EdgeKind
  pub evidence : Evidence

-- A verdict and the migration step that goes with it.
abbrev pub Judgement : Type 0
Judgement = Verdict × Text

rename_verdict : EdgeKind → Judgement
rename_verdict calls = (breaking, codes "update the reference to the new name")
rename_verdict uses_type = (breaking, codes "update the reference to the new name")
rename_verdict references = (breaking, codes "update the reference to the new name")
rename_verdict implements = (breaking, codes "update the reference to the new name")
rename_verdict imports = (breaking, codes "update the reference to the new name")
rename_verdict extends = (breaking, codes "update the reference to the new name")
rename_verdict embeds = (breaking, codes "update the reference to the new name")
rename_verdict reads_config =
    (breaking, codes "update the configuration key and every deployment that sets it")
rename_verdict _ = (compiles, codes "no source change expected; re-run this consumer's tests")

signature_verdict : EdgeKind → Judgement
signature_verdict calls = (breaking, codes "update the call site to the new signature")
signature_verdict returns = (breaking, codes "update the call site to the new signature")
signature_verdict accepts = (breaking, codes "update the call site to the new signature")
signature_verdict implements =
    (breaking, codes "update the implementation to satisfy the new interface method set")
signature_verdict tests = (breaking, codes "update the test to the new signature")
signature_verdict _ = (compiles, codes "re-run this consumer's tests")

add_field_verdict : EdgeKind → Judgement
add_field_verdict implements = (breaking, codes "implement the new interface member")
add_field_verdict uses_type =
    (compiles, codes "check for exhaustive switches and struct literals without field names")
add_field_verdict _ = (compatible, [])

behaviour_verdict : EdgeKind → Judgement
behaviour_verdict tests =
    (breaking, codes "the test encodes the old behaviour; update or confirm it")
behaviour_verdict _ =
    (compiles, codes "re-run this consumer's tests: behaviour changed, the signature did not")

schema_verdict : EdgeKind → Judgement
schema_verdict reads_schema =
    (breaking, codes "write a migration and update the queries that touch this object")
schema_verdict writes_schema =
    (breaking, codes "write a migration and update the queries that touch this object")
schema_verdict tests = (breaking, codes "update fixtures and golden data")
schema_verdict _ = (compiles, codes "re-run this consumer's tests")

config_verdict : EdgeKind → Judgement
config_verdict reads_config =
    (breaking, codes "update the key here and in every deployment manifest that sets it")
config_verdict deploys = (breaking, codes "update the deployment or infrastructure definition")
config_verdict provisions = (breaking, codes "update the deployment or infrastructure definition")
config_verdict _ = (compiles, [])

route_verdict : EdgeKind → Judgement
route_verdict routes_to = (breaking, codes "update the handler registration")
route_verdict handles = (breaking, codes "update the handler registration")
route_verdict references = (breaking, codes "update the client call site and any generated client")
route_verdict tests = (breaking, codes "update the route under test")
route_verdict _ = (compiles, [])

change_verdict : ChangeKind → EdgeKind → Judgement
unfolding rename_verdict signature_verdict add_field_verdict behaviour_verdict schema_verdict
    config_verdict route_verdict
change_verdict remove via =
    (breaking, codes "remove or redirect this reference before deleting the definition")
change_verdict rename via = rename_verdict via
change_verdict signature via = signature_verdict via
change_verdict add_field via = add_field_verdict via
change_verdict behaviour via = behaviour_verdict via
change_verdict schema via = schema_verdict via
change_verdict config via = config_verdict via
change_verdict route via = route_verdict via

abbrev evidence_name : Evidence → Text
evidence_name resolved = codes "resolved"
evidence_name declared = codes "declared"
evidence_name inferred = codes "inferred"
evidence_name observed = codes "observed"
evidence_name unknown = codes "unknown"

unfoldable pub verdict_for : ChangeKind → EdgeKind → Evidence → Judgement
unfolding certain change_verdict
verdict_for change via ev =
    if certain ev
    then change_verdict change via
    else (undetermined, codes "verify manually: relationship evidence is " ++ evidence_name ev)

pub record Consumer : Type 0 where
  pub node : Node
  pub depth : ℕ
  pub via : EdgeKind
  pub evidence : Evidence
  pub verdict : Verdict
  pub migration : Text

pub record Counts : Type 0 where
  pub breaking_count : ℕ
  pub undetermined_count : ℕ
  pub compiles_count : ℕ
  pub compatible_count : ℕ

-- `ImpactCaveat` is a constant of the report and is left out.
pub record Impact : Type 0 where
  pub changed : List Node
  pub kind : ChangeKind
  pub consumers : List Consumer
  pub counts : Counts
  pub truncated : Bool

abbrev pub no_counts : Counts
no_counts = record {
  breaking_count = 0;
  undetermined_count = 0;
  compiles_count = 0;
  compatible_count = 0;
}

-- `imp.Counts[v]++`.
abbrev pub count_verdict : Verdict → Counts → Counts
count_verdict breaking c = record c { breaking_count = suc c.breaking_count }
count_verdict undetermined c = record c { undetermined_count = suc c.undetermined_count }
count_verdict compiles c = record c { compiles_count = suc c.compiles_count }
count_verdict compatible c = record c { compatible_count = suc c.compatible_count }

abbrev pub consumer_of : ChangeKind → Reached → Consumer
consumer_of kind r = record {
  node = r.node;
  depth = r.depth;
  via = r.via;
  evidence = r.evidence;
  verdict = (verdict_for kind r.via r.evidence).0;
  migration = (verdict_for kind r.via r.evidence).1;
}

abbrev pub is_changed : List Node → Reached → Bool
is_changed changed r = any (λ n. n.id == r.node.id) changed

-- The loop of `buildImpact`: the consumers in the order reached, and their counts.
unfoldable pub collect : List Node → ChangeKind → Counts → List Reached → List Consumer × Counts
collect changed kind counts [] = ([], counts)
collect changed kind counts (r ∷ rs) =
    let skipped = collect changed kind counts rs in
    let counted =
      collect changed kind (count_verdict (verdict_for kind r.via r.evidence).0 counts) rs in
    if is_changed changed r then skipped else (consumer_of kind r ∷ counted.0, counted.1)

abbrev verdict_order : Verdict → ℕ
verdict_order breaking = 0
verdict_order undetermined = 1
verdict_order compiles = 2
verdict_order compatible = 3

abbrev pub report_before : Consumer → Consumer → Bool
report_before a b =
    if not (verdict_order a.verdict == verdict_order b.verdict)
    then ltb (verdict_order a.verdict) (verdict_order b.verdict)
    else if not (a.depth == b.depth)
    then ltb a.depth b.depth
    else if not (text_eq a.node.path b.node.path)
    then text_lt a.node.path b.node.path
    else text_lt a.node.fqn b.node.fqn

unfoldable pub build_impact : List Node → ChangeKind → List Reached → Bool → Impact
build_impact changed kind reached truncated =
    let (consumers, counts) = collect changed kind no_counts reached in
    record {
      changed = changed;
      kind = kind;
      consumers = sort_by report_before consumers;
      counts = counts;
      truncated = truncated;
    }

abbrev change_names : List (Text × ChangeKind)
change_names =
    (codes "signature", signature)
    ∷ (codes "behaviour", behaviour)
    ∷ (codes "remove", remove)
    ∷ (codes "rename", rename)
    ∷ (codes "add_field", add_field)
    ∷ (codes "schema", schema)
    ∷ (codes "config", config)
    ∷ (codes "route", route)
    ∷ []

find_kind : Text → List (Text × ChangeKind) → Option ChangeKind
unfolding text_eq
find_kind s [] = none
find_kind s ((name, k) ∷ rest) = if text_eq name s then some k else find_kind s rest

unfoldable pub parse_change_kind : Text → Option ChangeKind
unfolding find_kind
parse_change_kind s = find_kind s change_names

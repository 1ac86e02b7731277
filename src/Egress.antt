-- ===== src/Egress.antt =====
-- The allowlist of internal/proxy/proxy.go: which hosts a provisioning lane may reach, and on which
-- ports.
pub mod Hosts
mod Examples
use local_engineer.Prelude.{
  ℕ, suc, ◌+◌, ◌-◌, Bool, true, false, not, ◌&&◌, ◌||◌, List, [], ◌∷◌, ◌++◌, Option, none, some,
  ltb, ◌==◌, if◌then◌else◌, is_empty, length, drop, any, keep, ◌then_check◌, Result, ok, err, leb,
}
use local_engineer.GoStrings.{
  Text, codes, text_eq, contains, has_prefix, has_suffix, to_lower, trim_space, trim_suffix,
}

abbrev pub lane_deps : Text
lane_deps = codes "deps"

abbrev pub lane_docs : Text
lane_docs = codes "docs"

-- `ParseLane`; a lane is its name.
unfoldable pub parse_lane : Text → Option Text
parse_lane s = if text_eq s lane_deps || text_eq s lane_docs then some s else none

pub record Rule : Type 0 where
  pub host : Text
  pub lanes : List Text
  pub why : Text

-- The number of the rule, from 1.
pub data Invalid : Type 0 where
  no_host every_host looks_like_url many_wildcards inner_wildcard no_why duplicate : ℕ → Invalid
  unknown_lane : ℕ → Text → Invalid

abbrev pub star : ℕ
star = b'*'

-- `strings.ToLower(strings.TrimSpace(…))`, of a host written in ASCII: Go also folds other letters and
-- trims other spaces.
abbrev pub folded : Text → Text
folded host = to_lower (trim_space host)

-- The cases of `Validate` for one rule; `seen` holds the hosts of the rules before it.
abbrev pub check_host : ℕ → List Text → Text → Rule → Option Invalid
check_host i seen h r =
    if is_empty h
    then some (no_host i)
    else if text_eq h (star ∷ [])
    then some (every_host i)
    else if contains h (codes "/")
    then some (looks_like_url i)
    else if ltb 1 (length (keep (λ c. c == star) h))
    then some (many_wildcards i)
    else if contains h (star ∷ []) && not (has_prefix h (codes "*."))
    then some (inner_wildcard i)
    else if is_empty (trim_space r.why)
    then some (no_why i)
    else if any (λ s. text_eq s h) seen
    then some (duplicate i)
    else none

abbrev pub lane_error : ℕ → Text → Option Text → Option Invalid
lane_error i l none = some (unknown_lane i l)
lane_error i l (some lane) = none

unfoldable pub check_lanes : ℕ → List Text → Option Invalid
check_lanes i [] = none
check_lanes i (l ∷ ls) = lane_error i l (parse_lane l) then_check check_lanes i ls

unfoldable pub check_rules : ℕ → List Text → List Rule → Option Invalid
check_rules i seen [] = none
check_rules i seen (r ∷ rs) =
    check_host i seen (folded r.host) r
    then_check check_lanes i r.lanes
    then_check check_rules (suc i) (folded r.host ∷ seen) rs

-- `Validate`.
unfoldable pub validate : List Rule → Option Invalid
validate rules = check_rules 1 [] rules

-- `ruleCoversLane`.
unfoldable pub rule_covers_lane : Rule → Text → Bool
rule_covers_lane r lane = is_empty r.lanes || any (λ l. text_eq l lane) r.lanes

-- The test of one rule of `Allows` on a host: a wildcard covers what lies below its domain, and not
-- the domain itself.
unfoldable pub host_matches : Text → Text → Bool
host_matches p h =
    if has_prefix p (codes "*.")
    then has_suffix h (drop 1 p) && ltb (length p - 1) (length h)
    else text_eq h p

unfoldable pub first_rule : List Rule → Text → Text → Option Text
first_rule [] lane h = none
first_rule (r ∷ rs) lane h =
    let rest = first_rule rs lane h in
    if not (rule_covers_lane r lane)
    then rest
    else if host_matches (folded r.host) h
    then some r.host
    else rest

-- The name that is looked up: a trailing dot is dropped.
abbrev pub looked_up : Text → Text
looked_up host = trim_suffix (folded host) (codes ".")

-- `Allows`, with the rule that said so.
unfoldable pub allows : List Rule → Text → Text → Option Text
allows rules lane host = first_rule rules lane (looked_up host)

-- `DefaultAllowlist`.
abbrev pub default_allowlist : List Rule
default_allowlist =
    record {
      host = codes "proxy.golang.org";
      lanes = lane_deps ∷ [];
      why = codes "the Go module proxy";
    }
    ∷ record {
      host = codes "sum.golang.org";
      lanes = lane_deps ∷ [];
      why = codes "the Go checksum database; without it GONOSUMDB would have to be set";
    }
    ∷ record {
      host = codes "registry.npmjs.org";
      lanes = lane_deps ∷ [];
      why = codes "npm packages for the TypeScript sidecar and Node projects";
    }
    ∷ record {
      host = codes "pkg.go.dev";
      lanes = lane_docs ∷ [];
      why = codes "Go package documentation";
    }
    ∷ []

abbrev pub default_ports : List Text
default_ports = codes "80" ∷ codes "443" ∷ []

-- `ports`.
abbrev pub ports : List Text → List Text
ports allowed = if is_empty allowed then default_ports else allowed

-- `portAllowed`.
unfoldable pub port_allowed : List Text → Text → Bool
port_allowed allowed port = any (λ p. text_eq p port) (ports allowed)

pub data Refusal : Type 0 where
  no_host_given : Refusal
  wrong_port : Text → Refusal
  not_listed : Text → Refusal

-- `check`, once the port is split from the host: the rule, or why the host is refused.
unfoldable pub check : List Rule → List Text → Text → Text → Text → Result Refusal Text
check rules allowed lane host port =
    if is_empty host
    then err no_host_given
    else if not (port_allowed allowed port)
    then err (wrong_port port)
    else elim (allows rules lane host) [ none ↦ err (not_listed host) | some rule ↦ ok rule ]

abbrev pub max_concurrent : ℕ
max_concurrent = 32

-- `acquire`, on the number of tunnels that are open.
abbrev pub acquire : ℕ → Bool × ℕ
acquire conns = if leb max_concurrent conns then (false, conns) else (true, suc conns)

-- `release`.
abbrev pub release : ℕ → ℕ
release conns = conns - 1

-- ===== src/Egress/Examples.antt =====
-- The shipped allowlist, and a wildcard.
use local_engineer.Prelude.{◌≡◌, ◌≢◌, ◌↔◌, refl, List, [], ◌∷◌, none, some}
use local_engineer.GoStrings.{
  Text, codes, text_eq, contains, has_prefix, has_suffix, to_lower, trim_space, trim_suffix,
}
use local_engineer.Egress.{
  Rule, default_allowlist, lane_docs, validate, check_rules, check_lanes, parse_lane, allows,
  first_rule, host_matches, rule_covers_lane, looked_up, star, every_host,
}
use local_engineer.Egress.Hosts.{Permits, allows_exact}

abbrev any_lane : Text → Rule
any_lane host = record { host = host; lanes = []; why = codes "docs" }

default_allowlist_runs : validate default_allowlist ≡ none
unfolding validate check_rules check_lanes parse_lane text_eq contains has_prefix to_lower
    trim_space
default_allowlist_runs = refl

every_host_runs : validate (any_lane (star ∷ []) ∷ []) ≡ some (every_host 1)
unfolding validate check_rules check_lanes parse_lane text_eq contains has_prefix to_lower
    trim_space
every_host_runs = refl

abbrev wildcard : List Rule
wildcard = any_lane (codes "*.Golang.org") ∷ []

wildcard_runs :
    (allows wildcard lane_docs (codes "pkg.golang.org.") ≡ some (codes "*.Golang.org"))
    × (allows wildcard lane_docs (codes "golang.org") ≡ none)
unfolding allows first_rule host_matches rule_covers_lane text_eq has_prefix has_suffix to_lower
    trim_space trim_suffix
wildcard_runs = (refl, refl)

allows_exact_example :
    ((allows wildcard lane_docs (codes "pkg.golang.org") ≢ none)
      ↔ ((r : Rule) × Permits wildcard lane_docs (looked_up (codes "pkg.golang.org")) r))
    × ((name : Text)
        → allows wildcard lane_docs (codes "pkg.golang.org") ≡ some name
        → (r : Rule) × Permits wildcard lane_docs (looked_up (codes "pkg.golang.org")) r
          × (r.host ≡ name))
allows_exact_example = allows_exact wildcard lane_docs (codes "pkg.golang.org")

-- ===== src/Policy/Examples.antt =====
-- Tests of the policies, on a policy that protects one directory.
use local_engineer.Prelude.{List, [], ◌∷◌}
use local_engineer.GoStrings.{Text, codes}
use local_engineer.Policy.{Rule, Policy, Violation, PolicySet, violation}

abbrev api_rule : Rule
api_rule = record { path = codes "api/**"; reason = codes "frozen" }

abbrev contract : Policy
contract = record { name = codes "contract"; protected = api_rule ∷ [] }

abbrev policies : PolicySet
policies = record { policies = contract ∷ [] }

abbrev changed : List Text
changed = codes "main.go" ∷ codes "./api/v1/a.go" ∷ []

abbrev reported : Violation
reported = violation (codes "api/v1/a.go") contract api_rule

-- ===== src/Graph/Examples.antt =====
-- Tests of the impact report, on one changed function and one caller.
use local_engineer.Prelude.{List, [], ◌∷◌}
use local_engineer.GoStrings.{codes}
use local_engineer.Graph.{inferred, declared, calls, Node, Reached}

abbrev changed_node : Node
changed_node = record {
  id = 1;
  kind = codes "function";
  name = codes "f";
  fqn = codes "p.f";
  path = codes "p/f.go";
}

abbrev caller_node : Node
caller_node = record {
  id = 2;
  kind = codes "function";
  name = codes "g";
  fqn = codes "p.g";
  path = codes "p/g.go";
}

abbrev reached : List Reached
reached =
    record { node = changed_node; depth = 0; via = calls; evidence = declared }
    ∷ record { node = caller_node; depth = 1; via = calls; evidence = inferred }
    ∷ []

-- ===== src/Graph/Traverse/Examples.antt =====
-- A reverse search over four nodes: 2 and 3 call 1, 4 calls 2 and, by weak evidence, 3.
use local_engineer.Prelude.{
  none, Option, map, length, subst, ok, sort_by, ℕ, ◌≤◌, ◌<◌, ◌≡◌, refl, ◌⊎◌, inl, inr, false, List,
  [], ◌∷◌, some, arith,
}
use local_engineer.GoStrings.{Text, codes, text_eq}
use local_engineer.Graph.{calls, Node, resolved, inferred}
use local_engineer.Graph.Traverse.{
  Edge, Query, Row, PathState, reverse_dir, rows, find, put, fetch_hop, rows_from,
}
use local_engineer.Graph.Traverse.Run.{
  search, report, traverse, Found, levels, expand, chunks, seed_start,
}
use local_engineer.Graph.Traverse.Walks.{Walk, here, hop}
use local_engineer.Graph.Traverse.Bounds.{OnePerId, length-map, traverse_fits}
use local_engineer.Graph.Traverse.Search.{search_is_sound, search_is_shortest}

abbrev call : ℕ → ℕ → Text → Edge
call a b evidence = record {
  src = a;
  dst = b;
  kind = calls;
  kind_name = codes "calls";
  evidence = evidence;
}

abbrev edges : List Edge
edges =
    call 2 1 (codes "inferred")
    ∷ call 3 1 (codes "resolved")
    ∷ call 4 2 (codes "resolved")
    ∷ call 4 3 (codes "declared")
    ∷ []

abbrev query : Query
query = record {
  start = 1 ∷ [];
  dir = reverse_dir;
  kinds = [];
  max_depth = 3;
  max_nodes = 100;
  min_evidence = [];
}

abbrev caller : PathState
caller = record { depth = 2; rank = 1; via = some calls }

finds_the_caller : find 4 (search query edges).best ≡ some caller
unfolding search find levels seed_start put expand chunks fetch_hop rows_from rows text_eq
finds_the_caller = refl

not_cut_off : (search query edges).truncated ≡ false
unfolding search find levels seed_start put expand chunks fetch_hop rows_from rows text_eq
not_cut_off = refl

search_is_sound_example : Walk (rows query edges) query.start 2 1 4 × (2 ≤ 3)
search_is_sound_example = search_is_sound query edges 4 caller finds_the_caller

abbrev row : ℕ → ℕ → ℕ → Row
row a b rank = record { source = a; target = b; kind = calls; rank = rank }

-- The weaker of the two walks to the caller of the callers.
weak-Walk : Walk (rows query edges) query.start 2 2 4
unfolding rows text_eq
weak-Walk = hop (row 2 4 0) (hop (row 1 2 2) (here (inl refl)) (inl refl)) (inr (inr (inl refl)))

search_is_shortest_example :
    (st : PathState) × (find 4 (search query edges).best ≡ some st)
    × Walk (rows query edges) query.start st.depth st.rank 4
    × ((st.depth < 2) ⊎ ((st.depth ≡ 2) × (st.rank ≤ 2)))
search_is_shortest_example =
    search_is_shortest query edges 2 2 4 not_cut_off weak-Walk (omega arith)

abbrev node : ℕ → Node
node n = record { id = n; kind = []; name = []; fqn = []; path = [] }

abbrev load : List ℕ → Option (List Node)
load ids = some (map node ids)

load-OnePerId : OnePerId load
load-OnePerId ids nodes e =
    subst (λ (o : Option (List Node)). length (or_none o) ≤ length ids) e
      (omega (arith, length-map node ids))
  where
    or_none : Option (List Node) → List Node
    or_none none = []
    or_none (some ns) = ns

-- Room for one caller of two.
abbrev small : Query
small = record query { max_nodes = 2 }

abbrev answer : List Found
answer =
    record { node = node 1; depth = 0; via = none; evidence = resolved }
    ∷ record { node = node 2; depth = 1; via = some calls; evidence = inferred }
    ∷ []

small_runs : traverse load edges small ≡ ok answer
unfolding traverse report search find levels seed_start put expand chunks fetch_hop rows_from rows
    text_eq sort_by
small_runs = refl

traverse_fits_example : length answer ≤ 2
traverse_fits_example = traverse_fits load edges small answer load-OnePerId small_runs

-- ===== src/Graph/Traverse/Run.antt =====
-- The levels of Traverse in internal/graph/traverse.go, from `expand` to the report.
use local_engineer.Prelude.{
  ℕ, zero, suc, ◌+◌, ◌-◌, ◌*◌, Bool, true, false, not, ◌&&◌, ◌||◌, List, [], ◌∷◌, ◌++◌, Option,
  none, some, leb, ltb, ◌==◌, if◌then◌else◌, length, is_empty, all, map, take, drop, sort_by,
  Result, ok, err,
}
use local_engineer.GoStrings.{text_eq, text_lt}
use local_engineer.Graph.{Evidence, resolved, EdgeKind, Node}
use local_engineer.Graph.Traverse.{
  Best, Edge, Hop, PathState, Query, Row, default_max_nodes, expand_batch, fetch_hop, find,
  max_traversal_depth, put, rank_to_evidence, rows, rows_from, valid_evidence,
}

pub record Level : Type 0 where
  pub next : List ℕ
  pub hit_cap : Bool
  pub best : Best

abbrev pub row_cap : ℕ → Best → ℕ
row_cap limit best = (limit - length best) * 4

abbrev pub hop_of : List Row → ℕ → ℕ → List ℕ → Best → Hop
hop_of table depth limit chunk best =
    fetch_hop depth limit (take (row_cap limit best) (rows_from chunk table)) best

abbrev pub with_found : List ℕ → Level → Level
with_found found l = record l { next = found ++ l.next }

-- The loop of `expand` over the batches of the frontier.
unfoldable pub expand : List Row → ℕ → ℕ → List (List ℕ) → Best → Level
expand table depth limit [] best = record { next = []; hit_cap = false; best = best }
expand table depth limit (chunk ∷ chunks) best =
    if leb limit (length best)
    then record { next = []; hit_cap = true; best = best }
    else if (hop_of table depth limit chunk best).capped
        || leb (row_cap limit best) (hop_of table depth limit chunk best).fetched
    then record {
      next = (hop_of table depth limit chunk best).found;
      hit_cap = true;
      best = (hop_of table depth limit chunk best).best;
    }
    else with_found (hop_of table depth limit chunk best).found
        (expand table depth limit chunks (hop_of table depth limit chunk best).best)

-- The frontier in batches; a round of fuel is enough for each node.
unfoldable pub chunks_from : ℕ → List ℕ → List (List ℕ)
chunks_from zero ns = []
chunks_from (suc fuel) [] = []
chunks_from (suc fuel) (n ∷ ns) =
    take expand_batch (n ∷ ns) ∷ chunks_from fuel (drop expand_batch (n ∷ ns))

unfoldable pub chunks : List ℕ → List (List ℕ)
unfolding chunks_from
chunks frontier = chunks_from (length frontier) frontier

pub record Walked : Type 0 where
  pub frontier : List ℕ
  pub truncated : Bool
  pub best : Best

-- The loop over the levels, with the levels that are left.
unfoldable pub levels : List Row → ℕ → ℕ → ℕ → List ℕ → Bool → Best → Walked
levels table limit zero depth frontier truncated best = record {
  frontier = frontier;
  truncated = truncated;
  best = best;
}
levels table limit (suc left) depth [] truncated best = record {
  frontier = [];
  truncated = truncated;
  best = best;
}
levels table limit (suc left) depth (n ∷ ns) truncated best =
    let l = expand table depth limit (chunks (n ∷ ns)) best in
    let rest = levels table limit left (depth + 1) l.next (truncated || l.hit_cap) l.best in
    if leb limit (length best)
    then record { frontier = n ∷ ns; truncated = true; best = best }
    else rest

abbrev pub start_state : PathState
start_state = record { depth = 0; rank = 0; via = none }

-- The start nodes, each once.
unfoldable pub seed_start : List ℕ → List ℕ × Best → List ℕ × Best
seed_start [] acc = acc
seed_start (n ∷ ns) acc = elim (find n acc.1) [
  | some st ↦ seed_start ns acc
  | none ↦ seed_start ns (acc.0 ++ n ∷ [], put n start_state acc.1)
]

abbrev pub depth_of : Query → ℕ
depth_of q = if ltb 0 q.max_depth then q.max_depth else 1

abbrev pub limit_of : Query → ℕ
limit_of q = if ltb 0 q.max_nodes then q.max_nodes else default_max_nodes

-- The search of `Traverse`, before the nodes are read.
unfoldable pub search : Query → List Edge → Walked
search q edges =
    let (frontier, best) = seed_start q.start ([], []) in
    levels (rows q edges) (limit_of q) (depth_of q) 1 frontier false best

pub record Found : Type 0 where
  pub node : Node
  pub depth : ℕ
  pub via : Option EdgeKind
  pub evidence : Evidence

pub data TraverseError : Type 0 where
  too_deep : ℕ → TraverseError
  invalid_filter unreadable : TraverseError

abbrev state_or_zero : Option PathState → PathState
state_or_zero none = start_state
state_or_zero (some st) = st

-- A start node is itself, not a claim about a relationship.
abbrev pub found_of : Best → Node → Found
found_of best n =
    let st = state_or_zero (find n.id best) in
    record {
      node = n;
      depth = st.depth;
      via = st.via;
      evidence = if st.depth == 0 then resolved else rank_to_evidence st.rank;
    }

abbrev pub found_before : Found → Found → Bool
found_before a b =
    if not (a.depth == b.depth)
    then ltb a.depth b.depth
    else if not (text_eq a.node.kind b.node.kind)
    then text_lt a.node.kind b.node.kind
    else text_lt a.node.fqn b.node.fqn

abbrev pub ids_of : Best → List ℕ
ids_of best = map (λ (entry : ℕ × PathState). entry.0) best

abbrev pub cut : Bool → ℕ → List Found → List Found
cut truncated limit out = if truncated && ltb limit (length out) then take limit out else out

-- The end of `Traverse`: the nodes of the search, in order and within the cap.
unfoldable pub report :
    (List ℕ → Option (List Node)) → ℕ → Walked → Result TraverseError (List Found)
report load limit w = elim (load (ids_of w.best)) [
  | none ↦ err unreadable
  | some nodes ↦ ok (
      cut (w.truncated || (not (is_empty w.frontier) && leb limit (length w.best))) limit
        (sort_by found_before (map (found_of w.best) nodes)))
]

unfoldable pub traverse :
    (List ℕ → Option (List Node)) → List Edge → Query → Result TraverseError (List Found)
traverse load edges q =
    if is_empty q.start
    then ok []
    else if ltb max_traversal_depth (depth_of q)
    then err (too_deep (depth_of q))
    else if not (all valid_evidence q.min_evidence)
    then err invalid_filter
    else report load (limit_of q) (search q edges)

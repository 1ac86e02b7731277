-- ===== src/Graph/Traverse.antt =====
-- Traverse of internal/graph/traverse.go: the walk over the edge table, level by level, within a cap on
-- the nodes. The table is a list in the order in which SQLite returns its rows; reading the nodes
-- themselves is a parameter.
pub mod Run
pub mod Best
pub mod Walks
pub mod Levels
pub mod Chunks
pub mod Shortest
pub mod Search
pub mod Bounds
mod Examples
use local_engineer.Prelude.{
  ℕ, zero, suc, ◌+◌, ◌-◌, ◌*◌, ◌/◌, Bool, true, false, not, ◌&&◌, ◌||◌, List, [], ◌∷◌, ◌++◌, Option,
  none, some, leb, ltb, ◌==◌, if◌then◌else◌, length, is_empty, any, all, keep, map, take, drop,
  sort_by, Result, ok, err,
}
use local_engineer.GoStrings.{Text, codes, text_eq, text_lt}
use local_engineer.Graph.{
  Evidence, resolved, declared, inferred, observed, unknown, EdgeKind, Node, evidence_name,
}

-- The columns of `edges` that a walk reads.
pub record Edge : Type 0 where
  pub src : ℕ
  pub dst : ℕ
  pub kind : EdgeKind
  pub kind_name : Text
  pub evidence : Text

pub data Direction : Type 0 where
  forward reverse_dir : Direction

pub record Query : Type 0 where
  pub start : List ℕ
  pub dir : Direction
  pub kinds : List Text
  pub max_depth : ℕ
  pub max_nodes : ℕ
  pub min_evidence : List Text

-- One row of a hop: where it comes from, where it leads, and how strong it is.
pub record Row : Type 0 where
  pub source : ℕ
  pub target : ℕ
  pub kind : EdgeKind
  pub rank : ℕ

-- `evidenceRankSQL`.
abbrev pub evidence_rank : Text → ℕ
evidence_rank t =
    if text_eq t (evidence_name resolved)
    then 0
    else if text_eq t (evidence_name declared)
    then 1
    else if text_eq t (evidence_name inferred)
    then 2
    else if text_eq t (evidence_name observed)
    then 3
    else 4

-- `rankToEvidence`.
abbrev pub rank_to_evidence : ℕ → Evidence
rank_to_evidence r =
    if r == 0
    then resolved
    else if r == 1
    then declared
    else if r == 2
    then inferred
    else if r == 3
    then observed
    else unknown

abbrev pub max_traversal_depth : ℕ
max_traversal_depth = 6

abbrev pub default_max_nodes : ℕ
default_max_nodes = 5000

abbrev pub expand_batch : ℕ
expand_batch = 400

-- `Valid`, on the text of a category.
abbrev pub valid_evidence : Text → Bool
valid_evidence t =
    any (λ e. text_eq (evidence_name e) t)
      (resolved ∷ declared ∷ inferred ∷ observed ∷ unknown ∷ [])

-- `pathState`; a start node was reached by no edge.
pub record PathState : Type 0 where
  pub depth : ℕ
  pub rank : ℕ
  pub via : Option EdgeKind

-- The map `best`: the latest entry for a node is the one that counts.
abbrev pub Best : Type 0
Best = List (ℕ × PathState)

unfoldable pub find : ℕ → Best → Option PathState
find n [] = none
find n ((m, st) ∷ rest) = if m == n then some st else find n rest

unfoldable pub put : ℕ → PathState → Best → Best
put n st [] = (n, st) ∷ []
put n st ((m, old) ∷ rest) =
    let below = put n st rest in if m == n then (m, st) ∷ rest else (m, old) ∷ below

-- `IN (…)`, where an empty filter is none.
abbrev within : List Text → Text → Bool
within filter t = is_empty filter || any (λ f. text_eq f t) filter

abbrev ends : Direction → Edge → ℕ × ℕ
ends forward e = (e.src, e.dst)
ends reverse_dir e = (e.dst, e.src)

abbrev row_of : Direction → Edge → Row
row_of d e = record {
  source = (ends d e).0;
  target = (ends d e).1;
  kind = e.kind;
  rank = evidence_rank e.evidence;
}

abbrev pub selects : Query → Edge → Bool
selects q e = within q.kinds e.kind_name && within q.min_evidence e.evidence

-- The edges that the query lets a walk follow.
unfoldable pub rows : Query → List Edge → List Row
rows q edges = map (row_of q.dir) (keep (selects q) edges)

-- `WHERE … IN (chunk)`.
unfoldable pub rows_from : List ℕ → List Row → List Row
rows_from chunk table = keep (λ r. any (λ n. n == r.source) chunk) table

-- A path is only as strong as its weakest hop; a node that is not in the map has rank 0.
abbrev pub weakest : ℕ → ℕ → ℕ
weakest a b = if ltb b a then a else b

abbrev pub parent_rank : Option PathState → ℕ
parent_rank none = 0
parent_rank (some st) = st.rank

pub record Hop : Type 0 where
  pub found : List ℕ
  pub fetched : ℕ
  pub capped : Bool
  pub best : Best

abbrev pub no_better : ℕ → ℕ → PathState → Bool
no_better depth rank prev = ltb prev.depth depth || (prev.depth == depth && leb prev.rank rank)

abbrev pub row_state : ℕ → Row → Best → PathState
row_state depth r best = record {
  depth = depth;
  rank = weakest (parent_rank (find r.source best)) r.rank;
  via = some r.kind;
}

abbrev pub counted : Hop → Hop
counted h = record h { fetched = suc h.fetched }

abbrev pub discovered : ℕ → Hop → Hop
discovered n h = record h { found = n ∷ h.found }

-- The loop of `fetchHop` over the rows of one query.
unfoldable pub fetch_hop : ℕ → ℕ → List Row → Best → Hop
fetch_hop depth limit [] best = record { found = []; fetched = 0; capped = false; best = best }
fetch_hop depth limit (r ∷ rs) best = elim (find r.target best) [
  | some prev ↦
      if no_better depth (row_state depth r best).rank prev
      then counted (fetch_hop depth limit rs best)
      else counted (fetch_hop depth limit rs (put r.target (row_state depth r best) best))
  | none ↦
      if leb limit (length best)
      then record { found = []; fetched = 1; capped = true; best = best }
      else discovered r.target
          (counted (fetch_hop depth limit rs (put r.target (row_state depth r best) best)))
]

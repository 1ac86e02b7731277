-- ===== src/Graph/Traverse/Bounds.antt =====
-- The answer of `Traverse` stays within its cap.
use local_engineer.Prelude.{
  ℕ, zero, suc, ◌+◌, ◌≤◌, ◌<◌, ◌≡◌, refl, subst, inl, inr, ◌⊎◌, Bool, true, false, not, ◌||◌, ◌&&◌,
  List, [], ◌∷◌, ◌++◌, Option, none, some, arith, leb, ltb, if_split, length, length-append,
  length-take, length-sort_by, map, take, Option-cases, ltb→lt, sort_by, all, is_empty, Result, ok,
  err,
}
use local_engineer.Graph.{Node}
use local_engineer.Graph.Traverse.{
  max_traversal_depth, valid_evidence, Row, PathState, Best, find, put, Hop, fetch_hop, rows_from,
  no_better, row_state, Query, Edge, rows,
}
use local_engineer.Graph.Traverse.Run.{
  Level, row_cap, hop_of, expand, chunks, Walked, levels, start_state, seed_start, depth_of,
  limit_of, search, cut, report, traverse, Found, TraverseError, ids_of, found_of, found_before,
}
use local_engineer.Graph.Traverse.Levels.{expand_rule}

length-put-some :
    (n : ℕ) (st old : PathState) (best : Best)
    → find n best ≡ some old
    → length (put n st best) ≡ length best
unfolding find put
length-put-some n st old [] h = absurd (ground arith)
length-put-some n st old ((m, x) ∷ best) h = ground (arith, length-put-some n st old best)

length-put-none :
    (n : ℕ) (st : PathState) (best : Best)
    → find n best ≡ none
    → length (put n st best) ≡ suc (length best)
unfolding find put
length-put-none n st [] h = refl
length-put-none n st ((m, x) ∷ best) h = ground (arith, length-put-none n st best)

fetch_hop-fits :
    (depth limit : ℕ) (rs : List Row) (best : Best)
    → length best ≤ limit
    → length (fetch_hop depth limit rs best).best ≤ limit
unfolding fetch_hop
fetch_hop-fits depth limit [] best h = h
fetch_hop-fits depth limit (r ∷ rs) best h = elim (Option-cases (find r.target best)) [
  | inl e ↦
      rw (fetch_hop, e)
        (if_split (λ (x : Hop). length x.best ≤ limit) (leb limit (length best)) (λ a. h)
          (λ a.
            fetch_hop-fits depth limit rs (put r.target (row_state depth r best) best)
              (ground (arith, a, length-put-none r.target (row_state depth r best) best e))))
  | inr (prev, e) ↦
      rw (fetch_hop, e)
        (if_split (λ (x : Hop). length x.best ≤ limit)
          (no_better depth (row_state depth r best).rank prev)
          (λ a. fetch_hop-fits depth limit rs best h)
          (λ a.
            fetch_hop-fits depth limit rs (put r.target (row_state depth r best) best)
              (omega (arith, h, length-put-some r.target (row_state depth r best) prev best e))))
]

expand-fits :
    (table : List Row) (depth limit : ℕ) (cs : List (List ℕ)) (best : Best)
    → length best ≤ limit
    → length (expand table depth limit cs best).best ≤ limit
unfolding expand
expand-fits table depth limit [] best h = h
expand-fits table depth limit (c ∷ cs) best h =
    let hop = fetch_hop-fits depth limit (take (row_cap limit best) (rows_from c table)) best h in
    expand_rule table depth limit (λ (x : Level). length x.best ≤ limit) c cs best h hop
      (λ a b. expand-fits table depth limit cs (hop_of table depth limit c best).best hop)

abbrev Fits : ℕ → Walked → Type 0
Fits limit w = (w.truncated ≡ true) ⊎ (length w.best ≤ limit)

levels-Fits :
    (table : List Row) (limit left depth : ℕ) (frontier : List ℕ) (t : Bool) (best : Best)
    → length best ≤ limit
    → Fits limit (levels table limit left depth frontier t best)
unfolding levels
levels-Fits table limit zero depth frontier t best h = inr h
levels-Fits table limit (suc left) depth [] t best h = inr h
levels-Fits table limit (suc left) depth (n ∷ ns) t best h =
    if_split (Fits limit) (leb limit (length best)) (λ a. inl refl)
      (λ a.
        levels-Fits table limit left (depth + 1)
          (expand table depth limit (chunks (n ∷ ns)) best).next
          (t || (expand table depth limit (chunks (n ∷ ns)) best).hit_cap)
          (expand table depth limit (chunks (n ∷ ns)) best).best
          (expand-fits table depth limit (chunks (n ∷ ns)) best h))

-- With a level to walk and a node to start from, the cap holds however many nodes there are.
levels-Fits_first :
    (table : List Row) (limit left depth : ℕ) (frontier : List ℕ) (t : Bool) (best : Best)
    → 0 < left
    → 0 < length frontier
    → Fits limit (levels table limit left depth frontier t best)
unfolding levels
levels-Fits_first table limit zero depth frontier t best l f = absurd (omega (arith, l))
levels-Fits_first table limit (suc left) depth [] t best l f = absurd (omega (arith, f))
levels-Fits_first table limit (suc left) depth (n ∷ ns) t best l f =
    if_split (Fits limit) (leb limit (length best)) (λ a. inl refl)
      (λ a.
        levels-Fits table limit left (depth + 1)
          (expand table depth limit (chunks (n ∷ ns)) best).next
          (t || (expand table depth limit (chunks (n ∷ ns)) best).hit_cap)
          (expand table depth limit (chunks (n ∷ ns)) best).best
          (expand-fits table depth limit (chunks (n ∷ ns)) best (ground (arith, a))))

seeds_left :
    (ns : List ℕ) (frontier : List ℕ) (best : Best)
    → 0 < length frontier
    → 0 < length (seed_start ns (frontier, best)).0
unfolding seed_start
seeds_left [] frontier best h = h
seeds_left (n ∷ ns) frontier best h = elim (Option-cases (find n best)) [
  | inl e ↦
      rw (seed_start, e)
        (seeds_left ns (frontier ++ n ∷ []) (put n start_state best)
          (omega (arith, h, length-append frontier (n ∷ []))))
  | inr (st, e) ↦ rw (seed_start, e) (seeds_left ns frontier best h)
]

depth_of-positive : (q : Query) → 0 < depth_of q
depth_of-positive q =
    if_split (λ d. 0 < d) (ltb 0 q.max_depth) (λ e. ltb→lt _ _ e) (λ e. omega arith)

seeds_some : (ns : List ℕ) → 0 < length ns → 0 < length (seed_start ns ([], [])).0
unfolding seed_start find
seeds_some [] h = h
seeds_some (n ∷ ns) h = seeds_left ns (n ∷ []) (put n start_state []) (omega arith)

search-Fits :
    (q : Query) (edges : List Edge) → 0 < length q.start → Fits (limit_of q) (search q edges)
unfolding search
search-Fits q edges h =
    levels-Fits_first (rows q edges) (limit_of q) (depth_of q) 1 (seed_start q.start ([], [])).0
      false (seed_start q.start ([], [])).1 (depth_of-positive q) (seeds_some q.start h)

cut-fits :
    (truncated : Bool) (limit : ℕ) (out : List Found)
    → (truncated ≡ true) ⊎ (length out ≤ limit)
    → length (cut truncated limit out) ≤ limit
cut-fits truncated limit out h =
    if_split (λ (x : List Found). length x ≤ limit) (truncated && ltb limit (length out))
      (λ e. omega (arith, length-take limit out)) (λ e. ground (arith, h, e))

-- The database has at most one node of an id.
abbrev pub OnePerId : (List ℕ → Option (List Node)) → Type 0
OnePerId load =
    (ids : List ℕ) (nodes : List Node) → load ids ≡ some nodes → length nodes ≤ length ids

pub length-map : {A B : Type 0} (f : A → B) (xs : List A) → length (map f xs) ≡ length xs
length-map f [] = refl
length-map f (x ∷ xs) = omega (arith, length-map f xs)

abbrev IsWithin : ℕ → Result TraverseError (List Found) → Type 0
IsWithin limit (ok out) = length out ≤ limit
IsWithin limit (err e) = Unit {0}

report-IsWithin :
    (load : List ℕ → Option (List Node)) (limit : ℕ) (w : Walked)
    → OnePerId load
    → Fits limit w
    → IsWithin limit (report load limit w)
unfolding report
report-IsWithin load limit w one f = elim (Option-cases (load (ids_of w.best))) [
  | inl e ↦ rw (report, e) tt
  | inr (nodes, e) ↦
      rw (report, e)
        (cut-fits (w.truncated || (not (is_empty w.frontier) && leb limit (length w.best))) limit
          (sort_by found_before (map (found_of w.best) nodes)) (fitting nodes e f))
]
  where
    fitting :
        (nodes : List Node)
        → load (ids_of w.best) ≡ some nodes
        → Fits limit w
        → ((w.truncated || (not (is_empty w.frontier) && leb limit (length w.best))) ≡ true)
          ⊎ (length (sort_by found_before (map (found_of w.best) nodes)) ≤ limit)
    fitting nodes e (inl t) = inl (rw t refl)
    fitting nodes e (inr b) = inr (
        omega (
          arith,
          b,
          one (ids_of w.best) nodes e,
          length-map (found_of w.best) nodes,
          length-sort_by found_before (map (found_of w.best) nodes),
          length-map (λ (entry : ℕ × PathState). entry.0) w.best,
        ))

traverse-IsWithin :
    (load : List ℕ → Option (List Node)) (edges : List Edge) (q : Query)
    → OnePerId load
    → IsWithin (limit_of q) (traverse load edges q)
unfolding traverse
traverse-IsWithin load edges q one =
    if_split (IsWithin (limit_of q)) (is_empty q.start) (λ a. omega arith)
      (λ a.
        if_split (IsWithin (limit_of q)) (ltb max_traversal_depth (depth_of q)) (λ b. tt)
          (λ b.
            if_split (IsWithin (limit_of q)) (not (all valid_evidence q.min_evidence)) (λ c. tt)
              (λ c.
                report-IsWithin load (limit_of q) (search q edges) one
                  (search-Fits q edges (some_start q.start a)))))
  where
    some_start : (ns : List ℕ) → is_empty ns ≡ false → 0 < length ns
    some_start [] a = absurd cc
    some_start (n ∷ ns) a = omega arith

-- Where the database has at most one node of an id, a traversal never returns more nodes than the cap of
-- its query, or than the default cap if the query has none, however many start nodes it is given.
pub traverse_fits :
    (load : List ℕ → Option (List Node)) (edges : List Edge) (q : Query) (out : List Found)
    → OnePerId load
    → traverse load edges q ≡ ok out
    → length out ≤ limit_of q
traverse_fits load edges q out one e =
    subst (IsWithin (limit_of q)) e (traverse-IsWithin load edges q one)

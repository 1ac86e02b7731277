-- ===== src/Graph/Traverse/Walks.antt =====
-- The walks that a query allows, and that the map of the best paths only holds walks.
use local_engineer.Prelude.{
  ℕ, suc, ◌≡◌, refl, sym, ap, subst, ◌∙◌, inl, inr, List, [], ◌∷◌, some, arith, ◌==◌, ==_iff, In,
  Bool-cases,
}
use local_engineer.Graph.Traverse.{
  Row, PathState, Best, find, put, weakest, parent_rank, Hop, row_state, fetch_hop,
}
use local_engineer.Graph.Traverse.Best.{
  Explored, Explored-new, Explored-better, Within, find-put, fetch_hop_rule,
}

-- A walk from a start node of so many hops, its weakest hop of this rank, to this node.
pub data Walk (table : List Row) (start : List ℕ) : ℕ → ℕ → ℕ → Type 0 where
  here : {n : ℕ} → In n start → Walk table start 0 0 n
  hop :
      {d r : ℕ} (row : Row)
      → Walk table start d r row.source
      → In row table
      → Walk table start (suc d) (weakest r row.rank) row.target

abbrev pub Sound : List Row → List ℕ → Best → Type 0
Sound table start best =
    (v : ℕ) (st : PathState) → find v best ≡ some st → Walk table start st.depth st.rank v

-- The rows start at nodes of the level before.
abbrev pub Leads : ℕ → List Row → Best → Type 0
Leads depth rs best =
    (r : Row)
    → In r rs
    → (parent : PathState) × (find r.source best ≡ some parent) × (suc parent.depth ≡ depth)

module _ (table : List Row) (start : List ℕ) (depth limit : ℕ) where
  put-Sound :
      (q : Row) (best : Best) (parent : PathState)
      → Sound table start best
      → In q table
      → find q.source best ≡ some parent
      → suc parent.depth ≡ depth
      → Sound table start (put q.target (row_state depth q best) best)
  put-Sound q best parent sound i f d v st g = elim (Bool-cases (q.target == v)) [
    | inr e ↦ sound v st (ground (arith, find-put v q.target (row_state depth q best) best))
    | inl e ↦
        let walk = hop q (sound q.source parent f) i in
        let same : row_state depth q best ≡ st =
          ground (arith, find-put v q.target (row_state depth q best) best) in
        let target : q.target ≡ v = (==_iff q.target v).0 e in
        let rank : (row_state depth q best).rank ≡ weakest parent.rank q.rank =
          ap (λ o. weakest (parent_rank o) q.rank) f in
        let depths : suc parent.depth ≡ st.depth = d ∙ ap (λ (x : PathState). x.depth) same in
        let ranks : weakest parent.rank q.rank ≡ st.rank =
          sym rank ∙ ap (λ (x : PathState). x.rank) same in
        subst (λ n. Walk table start st.depth st.rank n) target
          (subst (λ r. Walk table start st.depth r q.target) ranks
            (subst (λ k. Walk table start k (weakest parent.rank q.rank) q.target) depths walk))
  ]

  Leads-rest :
      (r : Row) (rs : List Row) (best next : Best) (found : List ℕ)
      → Explored depth best next found
      → Leads depth (r ∷ rs) best
      → Leads depth rs next
  Leads-rest r rs best next found x leads q i =
      let (parent, f, d) = leads q (inr i) in
      (parent, x.earlier q.source parent f (omega (arith, d)), d)

  -- A query over rows of the table leaves walks only.
  pub fetch_hop-Sound :
      (rs : List Row) (best : Best)
      → Within depth best
      → ((r : Row) → In r rs → In r table)
      → Leads depth rs best
      → Sound table start best
      → Sound table start (fetch_hop depth limit rs best).best
  unfolding fetch_hop
  fetch_hop-Sound [] best w rows leads sound = sound
  fetch_hop-Sound (q ∷ rs) best w rows leads sound =
      let st = row_state depth q best in
      let next = put q.target st best in
      let (parent, f, d) = leads q (inl refl) in
      let written = put-Sound q best parent sound (rows q (inl refl)) f d in
      fetch_hop_rule depth limit (λ (h : Hop). Sound table start h.best) q rs best
        (λ prev g b.
          fetch_hop-Sound rs best w (λ r i. rows r (inr i)) (λ r i. leads r (inr i)) sound)
        (λ prev g b.
          let x = Explored-better depth q.target st best refl w prev g b in
          fetch_hop-Sound rs next x.bounded (λ r i. rows r (inr i))
            (Leads-rest q rs best next [] x leads) written)
        (λ g. sound)
        (λ g.
          let x = Explored-new depth q.target st best refl w g in
          fetch_hop-Sound rs next x.bounded (λ r i. rows r (inr i))
            (Leads-rest q rs best next (q.target ∷ []) x leads) written)

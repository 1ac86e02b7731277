-- ===== src/Graph/Traverse/Best.antt =====
-- What one query of a level does to the map of the best paths.
use local_engineer.Prelude.{
  ℕ, suc, ◌≤◌, ◌<◌, ◌≡◌, refl, sym, ap, ◌∙◌, ◌⊎◌, inl, inr, true, false, List, [], ◌∷◌, ◌++◌, none,
  some, arith, leb, ◌==◌, if◌then◌else◌, length, In, In-append, if_split, Bool-cases, Option-cases,
  subst, ==_iff,
}
use local_engineer.Graph.Traverse.{
  Row, PathState, Best, find, put, weakest, parent_rank, Hop, no_better, row_state, counted,
  discovered, fetch_hop,
}

pub find-put :
    (j i : ℕ) (st : PathState) (best : Best)
    → find j (put i st best) ≡ (if i == j then some st else find j best)
unfolding find put
find-put j i st [] = refl
find-put j i st ((m, old) ∷ rest) = ground (arith, find-put j i st rest)

-- The map says of `v` that it is nearer than `d`, or as near and reached at least as strongly as `r`.
pub record Covers (best : Best) (d r v : ℕ) : Type 0 where
  pub state : PathState
  pub entry : find v best ≡ some state
  pub near : (state.depth < d) ⊎ ((state.depth ≡ d) × (state.rank ≤ r))

abbrev pub Within : ℕ → Best → Type 0
Within depth best = (v : ℕ) (st : PathState) → find v best ≡ some st → st.depth ≤ depth

-- The node is on the level.
abbrev pub At : ℕ → Best → ℕ → Type 0
At depth best v = (st : PathState) × (find v best ≡ some st) × (st.depth ≡ depth)

-- How the map may change while the level `depth` is explored: entries get better, entries of earlier
-- levels stay, and the entries of the level are the old ones and those of `found`.
pub record Explored (depth : ℕ) (before after : Best) (found : List ℕ) : Type 0 where
  pub better : (d r v : ℕ) → Covers before d r v → Covers after d r v
  pub earlier :
      (v : ℕ) (st : PathState) → find v before ≡ some st → st.depth < depth → find v after ≡ some st
  pub bounded : Within depth after
  pub level :
      (v : ℕ) (st : PathState)
      → find v after ≡ some st
      → st.depth ≡ depth
      → In v found ⊎ ((old : PathState) × (find v before ≡ some old) × (old.depth ≡ depth))
  pub stays :
      (v : ℕ) (st : PathState) → find v before ≡ some st → st.depth ≡ depth → At depth after v
  pub fresh : (v : ℕ) → In v found → At depth after v

pub Explored-same : (depth : ℕ) (best : Best) → Within depth best → Explored depth best best []
Explored-same depth best w = record {
  better = λ d r v c. c;
  earlier = λ v st f h. f;
  bounded = w;
  level = λ v st f h. inr (st, f, h);
  stays = λ v st f h. (st, f, h);
  fresh = λ v i. absurd i;
}

-- A state that is written over one that it beats, or for a node that is new.
module _ (depth : ℕ) (n : ℕ) (st : PathState) (best : Best) (at : st.depth ≡ depth)
    (w : Within depth best) where
  put-bounded : Within depth (put n st best)
  put-bounded v st' f = elim (Bool-cases (n == v)) [
    | inl e ↦ ground (arith, find-put v n st best)
    | inr e ↦ w v st' (ground (arith, find-put v n st best))
  ]

  Covers-ne : (d r v : ℕ) → (n == v) ≡ false → Covers best d r v → Covers (put n st best) d r v
  Covers-ne d r v e c = record {
    state = c.state;
    entry = find-put v n st best ∙ rw e c.entry;
    near = c.near;
  }

  pub Explored-new : find n best ≡ none → Explored depth best (put n st best) (n ∷ [])
  Explored-new fresh = record {
    better = λ d r v c. elim (Bool-cases (n == v)) [
      | inl e ↦ absurd (ground (arith, c.entry))
      | inr e ↦ Covers-ne d r v e c
    ];
    earlier = λ v st' f h. ground (arith, find-put v n st best);
    bounded = put-bounded;
    level = λ v st' f h. elim (Bool-cases (n == v)) [
      | inl e ↦ inl (inl (ground arith))
      | inr e ↦ inr (st', ground (arith, find-put v n st best), h)
    ];
    stays = λ v st' f h. elim (Bool-cases (n == v)) [
      | inl e ↦ (st, find-put v n st best ∙ rw e refl, at)
      | inr e ↦ (st', find-put v n st best ∙ rw e f, h)
    ];
    fresh =
        λ v i. elim i [ inl e ↦ (st, find-put v n st best ∙ ground arith, at) | inr k ↦ absurd k ];
  }

  -- The entry of the node that is written.
  had_at :
      (prev : PathState) (v : ℕ)
      → find n best ≡ some prev
      → (n == v) ≡ true
      → find v best ≡ some prev
  had_at prev v had e = subst (λ x. find x best ≡ some prev) ((==_iff n v).0 e) had

  some_entry : (a b : PathState) → some a ≡ some b → (a.depth ≡ b.depth) × (a.rank ≡ b.rank)
  some_entry a b e = (cc e, cc e)

  pub Explored-better :
      (prev : PathState)
      → find n best ≡ some prev
      → no_better depth st.rank prev ≡ false
      → Explored depth best (put n st best) []
  Explored-better prev had worse = record {
    better = λ d r v c. elim (Bool-cases (n == v)) [
      | inl e ↦ record {
        state = st;
        entry = find-put v n st best ∙ rw e refl;
        near =
            let here = had_at prev v had e in
            let same = some_entry prev c.state (sym here ∙ c.entry) in
            ground (arith, same, w v prev here, at, worse, c.near);
      }
      | inr e ↦ Covers-ne d r v e c
    ];
    earlier = λ v st' f h. elim (Bool-cases (n == v)) [
      | inl e ↦
          let here = had_at prev v had e in
          let same = some_entry prev st' (sym here ∙ f) in absurd (ground (arith, same, worse))
      | inr e ↦ find-put v n st best ∙ rw e f
    ];
    bounded = put-bounded;
    level = λ v st' f h. elim (Bool-cases (n == v)) [
      | inl e ↦
          let here = had_at prev v had e in inr (prev, here, ground (arith, w v prev here, worse))
      | inr e ↦ inr (st', ground (arith, find-put v n st best), h)
    ];
    stays = λ v st' f h. elim (Bool-cases (n == v)) [
      | inl e ↦ (st, find-put v n st best ∙ rw e refl, at)
      | inr e ↦ (st', find-put v n st best ∙ rw e f, h)
    ];
    fresh = λ v i. absurd i;
  }

pub Explored-trans :
    (depth : ℕ) (a b c : Best) (found found' : List ℕ)
    → Explored depth a b found
    → Explored depth b c found'
    → Explored depth a c (found ++ found')
Explored-trans depth a b c found found' x y = record {
  better = λ d r v k. y.better d r v (x.better d r v k);
  earlier = λ v st f h. y.earlier v st (x.earlier v st f h) h;
  bounded = y.bounded;
  level = λ v st f h. elim (y.level v st f h) [
    | inl i ↦ inl ((In-append v found found').1 (inr i))
    | inr (old, g, k) ↦ elim (x.level v old g k) [
      | inl i ↦ inl ((In-append v found found').1 (inl i))
      | inr o ↦ inr o
    ]
  ];
  stays = λ v st f h. let (st', g, k) = x.stays v st f h in y.stays v st' g k;
  fresh = λ v i. elim ((In-append v found found').0 i) [
    | inl k ↦ let (st', g, h) = x.fresh v k in y.stays v st' g h
    | inr k ↦ y.fresh v k
  ];
}

module _ (depth limit : ℕ) where
  -- The four ways in which the next row is taken.
  pub fetch_hop_rule :
      (P : Hop → Type 0) (r : Row) (rs : List Row) (best : Best)
      → ((prev : PathState)
          → find r.target best ≡ some prev
          → no_better depth (row_state depth r best).rank prev ≡ true
          → P (counted (fetch_hop depth limit rs best)))
      → ((prev : PathState)
          → find r.target best ≡ some prev
          → no_better depth (row_state depth r best).rank prev ≡ false
          → P (counted (fetch_hop depth limit rs (put r.target (row_state depth r best) best))))
      → (find r.target best ≡ none
          → P (record { found = []; fetched = 1; capped = true; best = best }))
      → (find r.target best ≡ none
          → P (
              discovered r.target
                (counted (fetch_hop depth limit rs (put r.target (row_state depth r best) best)))))
      → P (fetch_hop depth limit (r ∷ rs) best)
  unfolding fetch_hop
  fetch_hop_rule P r rs best skipped improved stopped reached =
      elim (Option-cases (find r.target best)) [
        | inr (prev, f) ↦
            rw (fetch_hop, f)
              (if_split P (no_better depth (row_state depth r best).rank prev) (skipped prev f)
                (improved prev f))
        | inl f ↦
            rw (fetch_hop, f)
              (if_split P (leb limit (length best)) (λ b. stopped f) (λ b. reached f))
      ]

  -- One query explores the level.
  pub fetch_hop-Explored :
      (rs : List Row) (best : Best)
      → Within depth best
      → Explored depth best
          (fetch_hop depth limit rs best).best
          (fetch_hop depth limit rs best).found
  unfolding fetch_hop
  fetch_hop-Explored [] best w = Explored-same depth best w
  fetch_hop-Explored (r ∷ rs) best w =
      let st = row_state depth r best in
      let next = put r.target st best in
      fetch_hop_rule (λ (h : Hop). Explored depth best h.best h.found) r rs best
        (λ prev f b. fetch_hop-Explored rs best w)
        (λ prev f b.
          let x = Explored-better depth r.target st best refl w prev f b in
          Explored-trans depth best next _ [] _ x (fetch_hop-Explored rs next x.bounded))
        (λ f. Explored-same depth best w)
        (λ f.
          let x = Explored-new depth r.target st best refl w f in
          Explored-trans depth best next _ (r.target ∷ []) _ x
            (fetch_hop-Explored rs next x.bounded))

  pub written :
      (n : ℕ) (st : PathState) (best : Best) (rank : ℕ)
      → st.depth ≡ depth
      → st.rank ≡ rank
      → Covers (put n st best) depth rank n
  written n st best rank d r = record {
    state = st;
    entry = find-put n n st best ∙ ground arith;
    near = inr (d, ground arith);
  }

  -- A query that is not cut off covers each of its rows that starts at an earlier level.
  pub fetch_hop-Covers :
      (rs : List Row) (best : Best) (r : Row) (parent : PathState)
      → Within depth best
      → In r rs
      → find r.source best ≡ some parent
      → parent.depth < depth
      → (fetch_hop depth limit rs best).capped ≡ false
      → Covers (fetch_hop depth limit rs best).best depth (weakest parent.rank r.rank) r.target
  fetch_hop-Covers [] best r parent w i f e = absurd i
  fetch_hop-Covers (q ∷ rs) best r parent w (inr i) f e =
      let st = row_state depth q best in
      let next = put q.target st best in
      fetch_hop_rule
        (λ (h : Hop). h.capped ≡ false → Covers h.best depth (weakest parent.rank r.rank) r.target)
        q rs best (λ prev g b c. fetch_hop-Covers rs best r parent w i f e c)
        (λ prev g b c.
          let x = Explored-better depth q.target st best refl w prev g b in
          fetch_hop-Covers rs next r parent x.bounded i (x.earlier r.source parent f e) e c)
        (λ g c. cc)
        (λ g c.
          let x = Explored-new depth q.target st best refl w g in
          fetch_hop-Covers rs next r parent x.bounded i (x.earlier r.source parent f e) e c)
  fetch_hop-Covers (q ∷ rs) best r parent w (inl s) f e =
      let st = row_state depth q best in
      let next = put q.target st best in
      let rank : st.rank ≡ weakest parent.rank r.rank =
        ap (λ (x : Row). weakest (parent_rank (find x.source best)) x.rank) s
        ∙ ap (λ o. weakest (parent_rank o) r.rank) f in
      let target : q.target ≡ r.target = ap (λ (x : Row). x.target) s in
      fetch_hop_rule
        (λ (h : Hop). h.capped ≡ false → Covers h.best depth (weakest parent.rank r.rank) r.target)
        q rs best
        (λ prev g b c. (fetch_hop-Explored rs best w).better depth _ r.target (record {
          state = prev;
          entry = subst (λ n. find n best ≡ some prev) target g;
          near = ground (arith, rank, b);
        }))
        (λ prev g b c.
          let x = Explored-better depth q.target st best refl w prev g b in
          (fetch_hop-Explored rs next x.bounded).better depth _ r.target (
            subst (λ n. Covers next depth (weakest parent.rank r.rank) n) target
              (written q.target st best (weakest parent.rank r.rank) refl rank)))
        (λ g c. cc)
        (λ g c.
          let x = Explored-new depth q.target st best refl w g in
          (fetch_hop-Explored rs next x.bounded).better depth _ r.target (
            subst (λ n. Covers next depth (weakest parent.rank r.rank) n) target
              (written q.target st best (weakest parent.rank r.rank) refl rank)))

  -- A query that is not cut off has read all its rows.
  pub fetch_hop-fetched :
      (rs : List Row) (best : Best)
      → (fetch_hop depth limit rs best).capped ≡ false
      → (fetch_hop depth limit rs best).fetched ≡ length rs
  unfolding fetch_hop
  fetch_hop-fetched [] best k = refl
  fetch_hop-fetched (q ∷ rs) best k =
      fetch_hop_rule (λ (h : Hop). h.capped ≡ false → h.fetched ≡ suc (length rs)) q rs best
        (λ prev g b c. ap suc (fetch_hop-fetched rs best c))
        (λ prev g b c. ap suc (fetch_hop-fetched rs _ c)) (λ g c. cc)
        (λ g c. ap suc (fetch_hop-fetched rs _ c)) k

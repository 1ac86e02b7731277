-- ===== src/Graph/Traverse/Shortest.antt =====
-- The search finds every node within reach, at its shortest distance and by its strongest path of that
-- length, and nothing else.
use local_engineer.Prelude.{
  ℕ, suc, ◌+◌, ◌≤◌, ◌<◌, ◌≡◌, sym, subst, inl, inr, false, List, [], some, arith, ltb, In,
  Bool-cases,
}
use local_engineer.Graph.Traverse.{Row, PathState, Best, find, weakest}
use local_engineer.Graph.Traverse.Run.{Level, expand, chunks}
use local_engineer.Graph.Traverse.Best.{Covers, Within}
use local_engineer.Graph.Traverse.Walks.{Walk, here, hop, Sound}
use local_engineer.Graph.Traverse.Levels.{Parents, expand-Explored, expand-Covers, expand-Sound}
use local_engineer.Graph.Traverse.Chunks.{chunks-In, In-chunks}

module _ (table : List Row) (start : List ℕ) (limit : ℕ) where
  -- What holds before the level `depth` is explored.
  pub record Walking (depth : ℕ) (frontier : List ℕ) (best : Best) : Type 0 where
    pub bounded : (v : ℕ) (st : PathState) → find v best ≡ some st → st.depth < depth
    pub sound : Sound table start best
    pub parents : Parents depth frontier best

  -- What holds besides, as long as no level was cut off.
  pub record Whole (depth : ℕ) (frontier : List ℕ) (best : Best) : Type 0 where
    pub begun : 0 < depth
    pub last :
        (v : ℕ) (st : PathState) → find v best ≡ some st → suc st.depth ≡ depth → In v frontier
    pub covers : (d r v : ℕ) → Walk table start d r v → d < depth → Covers best d r v

  within :
      (depth : ℕ) (frontier : List ℕ) (best : Best)
      → Walking depth frontier best
      → Within depth best
  within depth frontier best w v st f = omega (arith, w.bounded v st f)

  abbrev pub next_level : ℕ → List ℕ → Best → Level
  next_level depth frontier best = expand table depth limit (chunks frontier) best

  pub Walk-on :
      (depth : ℕ) (frontier : List ℕ) (best : Best)
      → Walking depth frontier best
      → Walking
          (depth + 1)
          (next_level depth frontier best).next
          (next_level depth frontier best).best
  Walk-on depth frontier best w =
      let x =
        expand-Explored table depth limit (chunks frontier) best (within depth frontier best w) in
      record {
        bounded = λ v st f. omega (arith, x.bounded v st f);
        sound =
            expand-Sound table depth limit start (chunks frontier) best
              (within depth frontier best w)
              (λ chunk m n i. w.parents n (In-chunks n frontier chunk m i)) w.sound;
        parents = λ n i. let (st, f, d) = x.fresh n i in (st, f, omega (arith, d));
      }

  nearer : (best : Best) (d d' r r' v : ℕ) → Covers best d r v → d < d' → Covers best d' r' v
  nearer best d d' r r' v c h = record {
    state = c.state;
    entry = c.entry;
    near = inl (ground (arith, c.near));
  }

  weaker :
      (best : Best) (d a b e v : ℕ)
      → a ≤ b
      → Covers best d (weakest a e) v
      → Covers best d (weakest b e) v
  weaker best d a b e v h c = record {
    state = c.state;
    entry = c.entry;
    near = ground (arith, c.near);
  }

  -- A walk of one hop more.
  covers_hop :
      (depth : ℕ) (frontier : List ℕ) (best : Best) (d r : ℕ) (row : Row)
      → Walking depth frontier best
      → Whole depth frontier best
      → suc d ≡ depth
      → (next_level depth frontier best).hit_cap ≡ false
      → Walk table start d r row.source
      → In row table
      → Covers (next_level depth frontier best).best depth (weakest r row.rank) row.target
  covers_hop depth frontier best d r row w p e uncut walk i =
      let x =
        expand-Explored table depth limit (chunks frontier) best (within depth frontier best w) in
      let c = p.covers d r row.source walk (omega (arith, e)) in
      elim c.near [
        | inl short ↦
            let shorter = hop row (w.sound row.source c.state c.entry) i in
            let c' = p.covers (suc c.state.depth) _ row.target shorter (omega (arith, e, short)) in
            x.better depth _ row.target
              (nearer best (suc c.state.depth) depth _ _ row.target c' (omega (arith, e, short)))
        | inr (level, strong) ↦
            let on_frontier = p.last row.source c.state c.entry (omega (arith, e, level)) in
            let (chunk, m, k) = chunks-In row.source frontier on_frontier in
            weaker _ depth c.state.rank r row.rank row.target strong (
              expand-Covers table depth limit (chunks frontier) best chunk row c.state
                (within depth frontier best w) m i k c.entry (omega (arith, e, level)) uncut)
      ]

  pub Whole-on :
      (depth : ℕ) (frontier : List ℕ) (best : Best)
      → Walking depth frontier best
      → Whole depth frontier best
      → (next_level depth frontier best).hit_cap ≡ false
      → Whole
          (depth + 1)
          (next_level depth frontier best).next
          (next_level depth frontier best).best
  Whole-on depth frontier best w p uncut =
      let x =
        expand-Explored table depth limit (chunks frontier) best (within depth frontier best w) in
      record {
        begun = omega arith;
        last = λ v st f h. elim (x.level v st f (omega (arith, h))) [
          | inl i ↦ i
          | inr (old, g, k) ↦ absurd (omega (arith, k, w.bounded v old g))
        ];
        covers = λ d r v walk h. elim (Bool-cases (ltb d depth)) [
          | inl e ↦ x.better d r v (p.covers d r v walk (ground (arith, e)))
          | inr e ↦ at_level d r v walk (ground (arith, e, h))
        ];
      }
    where
      at_level :
          (d r v : ℕ)
          → Walk table start d r v
          → d ≡ depth
          → Covers (next_level depth frontier best).best d r v
      at_level d r v (here i) e = absurd (omega (arith, e, p.begun))
      at_level d r v (hop {d = d'} {r = r'} row walk i) e =
          subst
            (λ k. Covers (next_level depth frontier best).best k (weakest r' row.rank) row.target)
            (sym e) (covers_hop depth frontier best d' r' row w p e uncut walk i)

  -- With an empty frontier no walk leads further.
  pub closed :
      (depth : ℕ) (best : Best) (d r v : ℕ)
      → Walking depth [] best
      → Whole depth [] best
      → Walk table start d r v
      → Covers best d r v
  closed depth best d r v w p (here i) = p.covers 0 0 v (here i) p.begun
  closed depth best d r v w p (hop {d = d'} {r = r'} row walk i) =
      let c = closed depth best d' r' row.source w p walk in
      let inner = w.bounded row.source c.state c.entry in
      elim (Bool-cases (ltb (suc c.state.depth) depth)) [
        | inr e ↦ absurd (p.last row.source c.state c.entry (ground (arith, e, inner)))
        | inl e ↦
            let shorter = hop row (w.sound row.source c.state c.entry) i in
            let c' = p.covers (suc c.state.depth) _ row.target shorter (ground (arith, e)) in
            elim c.near [
              | inl short ↦
                  nearer best (suc c.state.depth) (suc d') _ _ row.target c' (omega (arith, short))
              | inr (level, strong) ↦
                  p.covers (suc d') (weakest r' row.rank) row.target (hop row walk i)
                    (ground (arith, e, level))
            ]
      ]

-- ===== src/Graph/Traverse/Search.antt =====
-- The search of `Traverse`: shortest distances, strongest paths, and nothing that cannot be reached.
use local_engineer.Prelude.{
  ℕ, zero, suc, ◌+◌, ◌≤◌, ◌<◌, ◌≡◌, refl, sym, ap, subst, ◌∙◌, ◌⊎◌, inl, inr, Bool, true, false,
  ◌||◌, List, [], ◌∷◌, ◌++◌, some, arith, leb, ◌==◌, ==_iff, length, In, In-append, if_split,
  Bool-cases, Option-cases,
}
use local_engineer.Graph.Traverse.{Row, PathState, Best, find, put, Query, Edge, rows}
use local_engineer.Graph.Traverse.Run.{
  Walked, levels, start_state, seed_start, depth_of, limit_of, search,
}
use local_engineer.Graph.Traverse.Best.{Covers, find-put}
use local_engineer.Graph.Traverse.Walks.{Walk, here, Sound}
use local_engineer.Graph.Traverse.Shortest.{Walking, Whole, next_level, Walk-on, Whole-on, closed}

module _ (table : List Row) (start : List ℕ) (limit : ℕ) where
  abbrev levels_of : ℕ → ℕ → List ℕ → Bool → Best → Walked
  levels_of left depth frontier truncated best =
      levels table limit left depth frontier truncated best

  levels-truncated :
      (left depth : ℕ) (frontier : List ℕ) (best : Best)
      → (levels_of left depth frontier true best).truncated ≡ true
  unfolding levels
  levels-truncated zero depth frontier best = refl
  levels-truncated (suc left) depth [] best = refl
  levels-truncated (suc left) depth (n ∷ ns) best =
      if_split (λ (w : Walked). w.truncated ≡ true) (leb limit (length best)) (λ b. refl)
        (λ b. levels-truncated left (depth + 1) _ _)

  levels-Sound :
      (left depth : ℕ) (frontier : List ℕ) (truncated : Bool) (best : Best)
      → Walking table start limit depth frontier best
      → Sound table start (levels_of left depth frontier truncated best).best
        × ((v : ℕ) (st : PathState)
            → find v (levels_of left depth frontier truncated best).best ≡ some st
            → st.depth < depth + left)
  unfolding levels
  levels-Sound zero depth frontier truncated best w =
      (w.sound, λ v st f. omega (arith, w.bounded v st f))
  levels-Sound (suc left) depth [] truncated best w =
      (w.sound, λ v st f. omega (arith, w.bounded v st f))
  levels-Sound (suc left) depth (n ∷ ns) truncated best w =
      if_split
        (λ (r : Walked).
          Sound table start r.best
          × ((v : ℕ) (st : PathState) → find v r.best ≡ some st → st.depth < depth + suc left))
        (leb limit (length best)) (λ b. (w.sound, λ v st f. omega (arith, w.bounded v st f)))
        (λ b.
          let (sound, near) =
            levels-Sound left (depth + 1) _ _ _ (Walk-on table start limit depth (n ∷ ns) best w) in
          (sound, λ v st f. omega (arith, near v st f)))

  levels-Covers :
      (left depth : ℕ) (frontier : List ℕ) (truncated : Bool) (best : Best)
      → Walking table start limit depth frontier best
      → Whole table start limit depth frontier best
      → (levels_of left depth frontier truncated best).truncated ≡ false
      → (d r v : ℕ) → Walk table start d r v
      → d < depth + left
      → Covers (levels_of left depth frontier truncated best).best d r v
  unfolding levels
  levels-Covers zero depth frontier truncated best w p t d r v walk h =
      p.covers d r v walk (omega (arith, h))
  levels-Covers (suc left) depth [] truncated best w p t d r v walk h =
      closed table start limit depth best d r v w p walk
  levels-Covers (suc left) depth (n ∷ ns) truncated best w p t d r v walk h =
      let l = next_level table start limit depth (n ∷ ns) best in
      if_split (λ (x : Walked). x.truncated ≡ false → Covers x.best d r v) (leb limit (length best))
        (λ b q. cc)
        (λ b q. elim (Bool-cases (truncated || l.hit_cap)) [
          | inl e ↦ absurd (
              ground (
                arith,
                levels-truncated left (depth + 1) l.next l.best,
                ap (λ f. (levels_of left (depth + 1) l.next f l.best).truncated) e,
                q,
              ))
          | inr e ↦
              levels-Covers left (depth + 1) l.next _ l.best
                (Walk-on table start limit depth (n ∷ ns) best w)
                (Whole-on table start limit depth (n ∷ ns) best w p (ground (arith, e))) q d r v
                walk (omega (arith, h))
        ])
        t

-- The start nodes, each with the state of a start node.
record Seeds (start : List ℕ) (acc : List ℕ × Best) : Type 0 where
  entries :
      (v : ℕ) (st : PathState)
      → find v acc.1 ≡ some st
      → (st ≡ start_state) × In v start × In v acc.0
  queued : (v : ℕ) → In v acc.0 → find v acc.1 ≡ some start_state

module _ (start : List ℕ) where
  seed_one :
      (n : ℕ) (acc : List ℕ × Best)
      → Seeds start acc
      → In n start
      → Seeds start (acc.0 ++ n ∷ [], put n start_state acc.1)
  seed_one n acc s i = record {
    entries = λ v st f. elim (Bool-cases (n == v)) [
      | inl e ↦
          let same : n ≡ v = (==_iff n v).0 e in
          (
            ground (arith, find-put v n start_state acc.1),
            subst (λ k. In k start) same i,
            (In-append v acc.0 (n ∷ [])).1 (inr (inl same)),
          )
      | inr e ↦
          let (a, b, c) = s.entries v st (ground (arith, find-put v n start_state acc.1)) in
          (a, b, (In-append v acc.0 (n ∷ [])).1 (inl c))
    ];
    queued = λ v k. elim (Bool-cases (n == v)) [
      | inl e ↦ find-put v n start_state acc.1 ∙ rw e refl
      | inr e ↦ elim ((In-append v acc.0 (n ∷ [])).0 k) [
        | inl old ↦ find-put v n start_state acc.1 ∙ rw e (s.queued v old)
        | inr (inl same) ↦ find-put v n start_state acc.1 ∙ ground arith
        | inr (inr nothing) ↦ absurd nothing
      ]
    ];
  }

  seed_start-Seeds :
      (ns : List ℕ) (acc : List ℕ × Best)
      → Seeds start acc
      → ((v : ℕ) → In v ns → In v start)
      → Seeds start (seed_start ns acc)
        × ((v : ℕ) → In v ns ⊎ In v acc.0 → In v (seed_start ns acc).0)
  unfolding seed_start
  seed_start-Seeds [] acc s i = (s, λ v k. elim k [ inl n ↦ absurd n | inr old ↦ old ])
  seed_start-Seeds (n ∷ ns) acc s i = elim (Option-cases (find n acc.1)) [
    | inr (st, f) ↦
        let (s', keeps) = seed_start-Seeds ns acc s (λ v k. i v (inr k)) in
        rw (seed_start, f)
          (
            s',
            λ v k. keeps v (elim k [
              | inl (inl e) ↦ inr (subst (λ m. In m acc.0) e (s.entries n st f).2)
              | inl (inr m) ↦ inl m
              | inr old ↦ inr old
            ]),
          )
    | inl f ↦
        let next : List ℕ × Best = (acc.0 ++ n ∷ [], put n start_state acc.1) in
        let (s', keeps) =
          seed_start-Seeds ns next (seed_one n acc s (i n (inl refl))) (λ v k. i v (inr k)) in
        rw (seed_start, f)
          (
            s',
            λ v k. keeps v (elim k [
              | inl (inl e) ↦ inr ((In-append v acc.0 (n ∷ [])).1 (inr (inl e)))
              | inl (inr m) ↦ inl m
              | inr old ↦ inr ((In-append v acc.0 (n ∷ [])).1 (inl old))
            ]),
          )
  ]

module _ (q : Query) (edges : List Edge) where
  abbrev seeds : List ℕ × Best
  seeds = seed_start q.start ([], [])

  seeded : Seeds q.start seeds × ((v : ℕ) → In v q.start → In v seeds.0)
  unfolding find
  seeded =
      let (s, keeps) =
        seed_start-Seeds q.start q.start ([], [])
          (record { entries = λ v st f. cc; queued = λ v k. absurd k }) (λ v k. k) in
      (s, λ v k. keeps v (inl k))

  seeds-Walking : Walking (rows q edges) q.start (limit_of q) 1 seeds.0 seeds.1
  seeds-Walking =
      let (s, keeps) = seeded in
      record {
        bounded = λ v st f. ground (arith, ap (λ (x : PathState). x.depth) (s.entries v st f).0);
        sound = λ v st f.
            let (e, i, k) = s.entries v st f in
            subst (λ (x : PathState). Walk (rows q edges) q.start x.depth x.rank v) (sym e)
              (here i);
        parents = λ n i. (start_state, s.queued n i, refl);
      }

  seeds-Whole : Whole (rows q edges) q.start (limit_of q) 1 seeds.0 seeds.1
  seeds-Whole =
      let (s, keeps) = seeded in
      record {
        begun = omega arith;
        last = λ v st f h. (s.entries v st f).2;
        covers = λ d r v walk h. from_start d r v walk h;
      }
    where
      from_start : (d r v : ℕ) → Walk (rows q edges) q.start d r v → d < 1 → Covers seeds.1 d r v
      from_start d r v (here i) h = record {
        state = start_state;
        entry = seeded.0.queued v (seeded.1 v i);
        near = inr (refl, omega arith);
      }
      from_start d r v (Walk.hop row walk i) h = absurd (omega (arith, h))

  -- Whatever the caps cut off, a node that the search holds was reached by a walk of the depth that
  -- the search gives it, within the depth of the query, over edges that the query allows, and the
  -- weakest hop of that walk has the rank that the search gives it.
  pub search_is_sound :
      (v : ℕ) (st : PathState)
      → find v (search q edges).best ≡ some st
      → Walk (rows q edges) q.start st.depth st.rank v × (st.depth ≤ depth_of q)
  unfolding search
  search_is_sound v st f =
      let (sound, near) =
        levels-Sound (rows q edges) q.start (limit_of q) (depth_of q) 1 seeds.0 false seeds.1
          seeds-Walking in
      (sound v st f, omega (arith, near v st f))

  -- A search that was not cut off holds every node that a walk within the depth of the query reaches,
  -- at its shortest depth, and with the strongest rank of a walk of that depth: no walk to it is
  -- shorter, and none of the same depth is stronger.
  pub search_is_shortest :
      (d r v : ℕ)
      → (search q edges).truncated ≡ false
      → Walk (rows q edges) q.start d r v
      → d ≤ depth_of q
      → (st : PathState) × (find v (search q edges).best ≡ some st)
        × Walk (rows q edges) q.start st.depth st.rank v
        × ((st.depth < d) ⊎ ((st.depth ≡ d) × (st.rank ≤ r)))
  search_is_shortest d r v t walk h =
      let c = covers in (c.state, c.entry, (search_is_sound v c.state c.entry).0, c.near)
    where
      covers : Covers (search q edges).best d r v
      covers =
          unfold search in
          levels-Covers (rows q edges) q.start (limit_of q) (depth_of q) 1 seeds.0 false seeds.1
            seeds-Walking seeds-Whole t d r v walk (omega (arith, h))

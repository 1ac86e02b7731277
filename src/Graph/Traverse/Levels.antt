-- ===== src/Graph/Traverse/Levels.antt =====
-- What a level does to the map of the best paths: the batches of its frontier, one query each.
use local_engineer.Prelude.{
  ℕ, zero, suc, ◌<◌, ◌≡◌, refl, sym, ap, subst, inl, inr, true, false, ◌||◌, List, [], ◌∷◌, some,
  arith, leb, ◌==◌, ==_iff, length, In, In-keep, In-any, any-In, if_split, take, any,
}
use local_engineer.Graph.Traverse.{Row, PathState, Best, find, weakest, rows_from}
use local_engineer.Graph.Traverse.Run.{Level, row_cap, hop_of, with_found, expand}
use local_engineer.Graph.Traverse.Best.{
  Covers, Within, Explored, Explored-same, Explored-trans, fetch_hop-Explored, fetch_hop-Covers,
  fetch_hop-fetched,
}
use local_engineer.Graph.Traverse.Walks.{Sound, fetch_hop-Sound}

pub In-take : {A : Type 0} (b : A) (n : ℕ) (xs : List A) → In b (take n xs) → In b xs
In-take b zero xs i = absurd i
In-take b (suc n) [] i = absurd i
In-take b (suc n) (x ∷ xs) (inl e) = inl e
In-take b (suc n) (x ∷ xs) (inr i) = inr (In-take b n xs i)

take_all : {A : Type 0} (n : ℕ) (xs : List A) → length (take n xs) < n → take n xs ≡ xs
take_all zero xs h = absurd (omega arith)
take_all (suc n) [] h = refl
take_all {A} (suc n) (x ∷ xs) h = ap (λ (ys : List A). x ∷ ys) (take_all n xs (omega arith))

In-rows_from :
    (r : Row) (chunk : List ℕ) (table : List Row)
    → In r (rows_from chunk table)
    → In r table × In r.source chunk
unfolding rows_from
In-rows_from r chunk table i =
    let (m, h) = (In-keep (λ (q : Row). any (λ n. n == q.source) chunk) r table).0 i in
    let (n, k, e) = any-In (λ n. n == r.source) chunk h in
    (m, subst (λ x. In x chunk) ((==_iff n r.source).0 e) k)

rows_from-In :
    (r : Row) (chunk : List ℕ) (table : List Row)
    → In r table
    → In r.source chunk
    → In r (rows_from chunk table)
unfolding rows_from
rows_from-In r chunk table i k =
    (In-keep (λ (q : Row). any (λ n. n == q.source) chunk) r table).1
      (i, In-any (λ n. n == r.source) r.source chunk k ((==_iff r.source r.source).1 refl))

-- Each node of the frontier stands at the level before.
abbrev pub Parents : ℕ → List ℕ → Best → Type 0
Parents depth frontier best =
    (n : ℕ) → In n frontier → (st : PathState) × (find n best ≡ some st) × (suc st.depth ≡ depth)

module _ (table : List Row) (depth limit : ℕ) where
  -- The three ways in which the next batch is taken.
  pub expand_rule :
      (P : Level → Type 0) (chunk : List ℕ) (cs : List (List ℕ)) (best : Best)
      → P (record { next = []; hit_cap = true; best = best })
      → P (record {
        next = (hop_of table depth limit chunk best).found;
        hit_cap = true;
        best = (hop_of table depth limit chunk best).best;
      })
      → ((hop_of table depth limit chunk best).capped ≡ false
          → (hop_of table depth limit chunk best).fetched < row_cap limit best
          → P (
              with_found
                (hop_of table depth limit chunk best).found
                (expand table depth limit cs (hop_of table depth limit chunk best).best)))
      → P (expand table depth limit (chunk ∷ cs) best)
  unfolding expand
  expand_rule P chunk cs best full capped went_on =
      if_split P (leb limit (length best)) (λ b. full)
        (λ b.
          if_split P
            ((hop_of table depth limit chunk best).capped
              || leb (row_cap limit best) (hop_of table depth limit chunk best).fetched)
            (λ c. capped) (λ c. went_on (ground (arith, c)) (ground (arith, c))))

  pub expand-Explored :
      (cs : List (List ℕ)) (best : Best)
      → Within depth best
      → Explored depth best
          (expand table depth limit cs best).best
          (expand table depth limit cs best).next
  unfolding expand
  expand-Explored [] best w = Explored-same depth best w
  expand-Explored (chunk ∷ cs) best w =
      let x =
        fetch_hop-Explored depth limit (take (row_cap limit best) (rows_from chunk table)) best w in
      expand_rule (λ (l : Level). Explored depth best l.best l.next) chunk cs best
        (Explored-same depth best w) x
        (λ c f. Explored-trans depth best _ _ _ _ x (expand-Explored cs _ x.bounded))

  -- A level that is not cut off covers every row that starts in its frontier.
  pub expand-Covers :
      (cs : List (List ℕ)) (best : Best) (chunk : List ℕ) (r : Row) (parent : PathState)
      → Within depth best
      → In chunk cs
      → In r table
      → In r.source chunk
      → find r.source best ≡ some parent
      → parent.depth < depth
      → (expand table depth limit cs best).hit_cap ≡ false
      → Covers (expand table depth limit cs best).best depth (weakest parent.rank r.rank) r.target
  expand-Covers [] best chunk r parent w m i k f d = absurd m
  expand-Covers (c ∷ cs) best chunk r parent w (inr m) i k f d =
      let x =
        fetch_hop-Explored depth limit (take (row_cap limit best) (rows_from c table)) best w in
      expand_rule
        (λ (l : Level).
          l.hit_cap ≡ false → Covers l.best depth (weakest parent.rank r.rank) r.target)
        c cs best (λ h. cc) (λ h. cc)
        (λ u v h.
          expand-Covers cs _ chunk r parent x.bounded m i k (x.earlier r.source parent f d) d h)
  expand-Covers (c ∷ cs) best chunk r parent w (inl e) i k f d =
      let taken = take (row_cap limit best) (rows_from c table) in
      let x = fetch_hop-Explored depth limit taken best w in
      expand_rule
        (λ (l : Level).
          l.hit_cap ≡ false → Covers l.best depth (weakest parent.rank r.rank) r.target)
        c cs best (λ h. cc) (λ h. cc)
        (λ u v h.
          let all_rows : taken ≡ rows_from c table =
            take_all (row_cap limit best) (rows_from c table) (
              subst (λ n. n < row_cap limit best) (fetch_hop-fetched depth limit taken best u) v) in
          let there : In r taken =
            subst (λ (rs : List Row). In r rs) (sym all_rows)
              (rows_from-In r c table i (subst (λ (ns : List ℕ). In r.source ns) (sym e) k)) in
          (expand-Explored cs _ x.bounded).better depth _ r.target
            (fetch_hop-Covers depth limit taken best r parent w there f d u))

  pub expand-Sound :
      (start : List ℕ) (cs : List (List ℕ)) (best : Best)
      → Within depth best
      → ((chunk : List ℕ) → In chunk cs → Parents depth chunk best)
      → Sound table start best
      → Sound table start (expand table depth limit cs best).best
  unfolding expand
  expand-Sound start [] best w parents sound = sound
  expand-Sound start (chunk ∷ cs) best w parents sound =
      let taken = take (row_cap limit best) (rows_from chunk table) in
      let x = fetch_hop-Explored depth limit taken best w in
      let s =
        fetch_hop-Sound table start depth limit taken best w
          (λ r i. (In-rows_from r chunk table (In-take r _ _ i)).0)
          (λ r i.
            parents chunk (inl refl) r.source (In-rows_from r chunk table (In-take r _ _ i)).1)
          sound in
      expand_rule (λ (l : Level). Sound table start l.best) chunk cs best sound s
        (λ c f.
          expand-Sound start cs _ x.bounded
            (λ k m n i.
              let (st, g, d) = parents k (inr m) n i in
              (st, x.earlier n st g (omega (arith, d)), d))
            s)

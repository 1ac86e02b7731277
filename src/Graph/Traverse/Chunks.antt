-- ===== src/Graph/Traverse/Chunks.antt =====
-- The batches of a frontier hold its nodes and no others.
use local_engineer.Prelude.{
  ℕ, zero, suc, ◌≤◌, refl, sym, subst, ◌⊎◌, inl, inr, List, [], ◌∷◌, arith, length, In, take, drop,
}
use local_engineer.Graph.Traverse.{expand_batch}
use local_engineer.Graph.Traverse.Run.{chunks, chunks_from}
use local_engineer.Graph.Traverse.Levels.{In-take}

In-drop : (b n : ℕ) (xs : List ℕ) → In b (drop n xs) → In b xs
In-drop b zero xs i = i
In-drop b (suc n) [] i = i
In-drop b (suc n) (x ∷ xs) i = inr (In-drop b n xs i)

take_or_drop : (b n : ℕ) (xs : List ℕ) → In b xs → In b (take n xs) ⊎ In b (drop n xs)
take_or_drop b zero xs i = inr i
take_or_drop b (suc n) [] i = absurd i
take_or_drop b (suc n) (x ∷ xs) (inl e) = inl (inl e)
take_or_drop b (suc n) (x ∷ xs) (inr i) = ground (arith, take_or_drop b n xs i)

length-drop : (n : ℕ) (xs : List ℕ) → length (drop n xs) ≤ length xs
length-drop zero xs = omega arith
length-drop (suc n) [] = omega arith
length-drop (suc n) (x ∷ xs) = omega (arith, length-drop n xs)

-- The batches hold the nodes of the frontier.
chunks_from-In :
    (fuel b : ℕ) (ns : List ℕ)
    → length ns ≤ fuel
    → In b ns
    → (chunk : List ℕ) × In chunk (chunks_from fuel ns) × In b chunk
unfolding chunks_from
chunks_from-In fuel b [] h i = absurd i
chunks_from-In zero b (n ∷ ns) h i = absurd (omega arith)
chunks_from-In (suc fuel) b (n ∷ ns) h i = elim (take_or_drop b expand_batch (n ∷ ns) i) [
  | inl t ↦ (take expand_batch (n ∷ ns), inl refl, t)
  | inr d ↦
      let (chunk, m, k) =
        chunks_from-In fuel b (drop expand_batch (n ∷ ns)) (omega (arith, length-drop 399 ns, h))
          d in
      (chunk, inr m, k)
]

In-chunks_from :
    (fuel b : ℕ) (ns chunk : List ℕ) → In chunk (chunks_from fuel ns) → In b chunk → In b ns
unfolding chunks_from
In-chunks_from zero b ns chunk m i = absurd m
In-chunks_from (suc fuel) b [] chunk m i = absurd m
In-chunks_from (suc fuel) b (n ∷ ns) chunk (inl e) i =
    In-take b expand_batch (n ∷ ns) (subst (λ (c : List ℕ). In b c) (sym e) i)
In-chunks_from (suc fuel) b (n ∷ ns) chunk (inr m) i =
    In-drop b expand_batch (n ∷ ns) (In-chunks_from fuel b (drop expand_batch (n ∷ ns)) chunk m i)

pub chunks-In :
    (b : ℕ) (ns : List ℕ) → In b ns → (chunk : List ℕ) × In chunk (chunks ns) × In b chunk
unfolding chunks
chunks-In b ns i = chunks_from-In (length ns) b ns (omega arith) i

pub In-chunks : (b : ℕ) (ns chunk : List ℕ) → In chunk (chunks ns) → In b chunk → In b ns
unfolding chunks
In-chunks b ns chunk m i = In-chunks_from (length ns) b ns chunk m i

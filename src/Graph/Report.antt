-- ===== src/Graph/Report.antt =====
-- The impact report keeps every consumer that was reached, and counts each one once.
use local_engineer.Prelude.{
  ℕ, suc, ◌+◌, ◌≡◌, refl, ◌↔◌, inl, inr, Bool, not, List, [], ◌∷◌, arith, length, In, In-sort_by,
  length-sort_by, Bool-cases, keep, map,
}
use local_engineer.Graph.{
  Node, Reached, ChangeKind, Consumer, Counts, no_counts, count_verdict, consumer_of, is_changed,
  collect, report_before, build_impact, verdict_for, Verdict, breaking, compiles, compatible,
  undetermined,
}

-- The consumers, before they are put in order.
abbrev pub affected : List Node → ChangeKind → List Reached → List Consumer
affected changed kind reached =
    map (consumer_of kind) (keep (λ r. not (is_changed changed r)) reached)

collect-consumers :
    (changed : List Node) (kind : ChangeKind) (counts : Counts) (rs : List Reached)
    → (collect changed kind counts rs).0 ≡ affected changed kind rs
unfolding collect
collect-consumers changed kind counts [] = refl
collect-consumers changed kind counts (r ∷ rs) = ground (
  arith,
  collect-consumers changed kind counts rs,
  collect-consumers changed kind (count_verdict (verdict_for kind r.via r.evidence).0 counts) rs,
)

abbrev pub total : Counts → ℕ
total c = c.breaking_count + c.undetermined_count + c.compiles_count + c.compatible_count

total-count_verdict : (v : Verdict) (c : Counts) → total (count_verdict v c) ≡ suc (total c)
total-count_verdict breaking c = omega arith
total-count_verdict undetermined c = omega arith
total-count_verdict compiles c = omega arith
total-count_verdict compatible c = omega arith

collect-total :
    (changed : List Node) (kind : ChangeKind) (counts : Counts) (rs : List Reached)
    → total (collect changed kind counts rs).1
      ≡ total counts + length (collect changed kind counts rs).0
unfolding collect
collect-total changed kind counts [] = omega arith
collect-total changed kind counts (r ∷ rs) = elim (Bool-cases (is_changed changed r)) [
  | inl skip ↦ rw skip (collect-total changed kind counts rs)
  | inr keep ↦
      let v = (verdict_for kind r.via r.evidence).0 in
      rw keep (
        omega (
          arith,
          collect-total changed kind (count_verdict v counts) rs,
          total-count_verdict v counts,
        ))
]

-- A consumer is in the report exactly when it was reached and is not itself a changed node, whatever
-- the strength of its evidence; it carries the verdict of the table.
pub build_impact-consumers :
    (changed : List Node) (kind : ChangeKind) (reached : List Reached) (cut : Bool) (c : Consumer)
    → In c (build_impact changed kind reached cut).consumers ↔ In c (affected changed kind reached)
unfolding build_impact
build_impact-consumers changed kind reached cut c =
    rw (← collect-consumers changed kind no_counts reached) (In-sort_by report_before c _)

-- The counts by verdict add up to the number of consumers listed.
pub build_impact-counts :
    (changed : List Node) (kind : ChangeKind) (reached : List Reached) (cut : Bool)
    → total (build_impact changed kind reached cut).counts
      ≡ length (build_impact changed kind reached cut).consumers
unfolding build_impact
build_impact-counts changed kind reached cut = omega (
  arith,
  collect-total changed kind no_counts reached,
  length-sort_by report_before (collect changed kind no_counts reached).0,
)

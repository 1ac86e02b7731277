-- ===== src/Task/Verify/Bounds.antt =====
-- The counters that bound the driver's turns in VERIFY.
use local_engineer.Prelude.{
  suc, ◌≤◌, ◌<◌, ◌≡◌, refl, ap, ◌∙◌, ◌⊎◌, inl, inr, not, ◌&&◌, List, [], ◌∷◌, ◌++◌, some, arith,
  leb, ltb, if◌then◌else◌, any, is_empty, List-cases, Option-cases, Bool-cases,
}
use local_engineer.GoStrings.{text_eq}
use local_engineer.Recipe.{RunResult}
use local_engineer.Recipe.Acceptance.{Reason, failed_only}
use local_engineer.Workflow.{Phase}
use local_engineer.Workflow.Failure.{environmental, regression, classify}
use local_engineer.Task.Verify.{
  no_transcript, Work, World, moved, move, bump, count_failures, localize_again, repair, accept,
  reasons_for, acceptable, decide, judge, run_again, verify, flaky_records,
}
use local_engineer.Task.Verify.Evidence.{move-moved}

-- The counters are those of `u`, or one replan within the bound has been spent.
abbrev pub Counted : Work → Work → Type 0
Counted u w =
    (w.verify_loops ≡ u.verify_loops)
    × (w.attempts ≡ u.attempts)
    × ((w.replans ≡ u.replans) ⊎ ((w.replans ≡ suc u.replans) × (u.replans < 2)))

count_failures-counters :
    (v : World) (rs : List RunResult) (w : Work)
    → ((count_failures v rs w).0.verify_loops ≡ w.verify_loops)
      × ((count_failures v rs w).0.attempts ≡ w.attempts)
      × ((count_failures v rs w).0.replans ≡ w.replans)
unfolding count_failures
count_failures-counters v [] w = (refl, refl, refl)
count_failures-counters v (r ∷ rs) w = count_failures-counters v rs (record w {
  failure_history = w.failure_history ++ classify v.fingerprint_of r w.baseline w.failures ∷ [];
  failures = bump (v.fingerprint_of r).0 w.failures;
  regressions = if regression r w.baseline then suc w.regressions else w.regressions;
})

localize_again-Counted : (v : World) (w w' : Work) → localize_again v w ≡ moved w' → Counted w w'
unfolding localize_again
localize_again-Counted v w w' h =
    let e = move-moved v Phase.localize (record w { replans = suc w.replans }) w' (ground arith) in
    ground (arith, ap (λ u. u.verify_loops) e, ap (λ u. u.attempts) e, ap (λ u. u.replans) e)

move-Counted : (v : World) (next : Phase) (w w' : Work) → move v next w ≡ moved w' → Counted w w'
move-Counted v next w w' h =
    let e = move-moved v next w w' h in
    (ap (λ u. u.verify_loops) e, ap (λ u. u.attempts) e, inl (ap (λ u. u.replans) e))

repair-Counted :
    (v : World) (reasons : List Reason) (w w' : Work) → repair v reasons w ≡ moved w' → Counted w w'
unfolding repair
repair-Counted v reasons w w' h =
    let feedback = if is_empty w.feedback then v.finding reasons ∷ [] else w.feedback in
    let counters = count_failures-counters v feedback (record w { feedback = feedback }) in
    let (u, again) = count_failures v feedback (record w { feedback = feedback }) in
    ground (
      arith,
      localize_again-Counted v (record u { edit = no_transcript }) w',
      move-Counted v Phase.edit (record u { edit = no_transcript }) w',
    )

accept-Counted : (v : World) (w w' : Work) → accept v w ≡ moved w' → Counted w w'
unfolding accept
accept-Counted v w w' h = elim (Option-cases v.obligations) [
  | inl e ↦ absurd (ground arith)
  | inr (fs, e) ↦ elim (List-cases fs) [
    | inl none_left ↦ move-Counted v Phase.review w w' (ground (arith, e ∙ ap some none_left))
    | inr (f, rest, some_left) ↦
        let u = record w { feedback = w.feedback ++ f ∷ rest; impact = v.impact_of_change } in
        let e' = e ∙ ap some some_left in
        let m =
          move-moved v Phase.planning (record u { replans = suc u.replans }) w'
            (ground (arith, e')) in
        ground
          (arith, e', ap (λ u. u.verify_loops) m, ap (λ u. u.attempts) m, ap (λ u. u.replans) m)
  ]
]

judge-Counted : (v : World) (w w' : Work) → judge v w ≡ moved w' → Counted w w'
unfolding judge decide
judge-Counted v w w' h = elim (Option-cases v.out_of_scope) [
  | inl e ↦ absurd (ground arith)
  | inr (outside, o) ↦ elim (Option-cases v.changed) [
    | inl e ↦ absurd (ground arith)
    | inr (changed, c) ↦ elim (Bool-cases (acceptable v w outside changed)) [
      | inl good ↦ accept-Counted v w w' (ground arith)
      | inr bad ↦ repair-Counted v (reasons_for v w outside changed) w w' (ground arith)
    ]
  ]
]

run_again-Counted : (v : World) (w w' : Work) → run_again v w ≡ moved w' → Counted w w'
unfolding run_again
run_again-Counted v w w' h = elim (Option-cases v.rerun) [
  | inl e ↦ absurd (ground arith)
  | inr (rerun, again) ↦ elim (Bool-cases (any environmental rerun)) [
    | inl broken ↦ absurd (ground arith)
    | inr sound ↦ elim (Option-cases v.candidate_after) [
      | inl e ↦ absurd (ground arith)
      | inr (after, a) ↦
          elim (Bool-cases (text_eq after w.candidate && is_empty (failed_only rerun))) [
            | inr real ↦ judge-Counted v w w' (ground arith)
            | inl flaky ↦
                judge-Counted v
                  (record w {
                    failure_history = w.failure_history ++ flaky_records v w w.feedback;
                    results = rerun;
                    feedback = [];
                  })
                  w' (ground arith)
          ]
    ]
  ]
]

-- A turn in VERIFY goes on only below the bound of four loops, and spends at least one of them and at
-- most what is left; it spends no attempt, and at most one replan, within the bound of two.
pub verify_spends :
    (v : World) (w w' : Work)
    → verify v w ≡ moved w'
    → (w.verify_loops < w'.verify_loops)
      × (w'.verify_loops ≤ 4)
      × (w'.attempts ≡ w.attempts)
      × ((w'.replans ≡ w.replans) ⊎ ((w'.replans ≡ suc w.replans) × (w.replans < 2)))
unfolding verify
verify_spends v w w' h = elim (Bool-cases (leb 4 w.verify_loops)) [
  | inl done ↦ absurd (ground arith)
  | inr more ↦ elim (Option-cases v.run) [
    | inl e ↦ absurd (ground arith)
    | inr (results, first) ↦ elim (Bool-cases (any environmental results)) [
      | inl broken ↦ absurd (ground arith)
      | inr sound ↦
          let u = record w {
            verify_loops = suc w.verify_loops;
            results = results;
            feedback = failed_only results;
          } in
          elim (Bool-cases (not (is_empty u.feedback) && ltb u.verify_loops 4)) [
            | inl again ↦
                let c =
                  run_again-Counted v (record u { verify_loops = suc u.verify_loops }) w'
                    (ground arith) in
                ground arith
            | inr once ↦ let c = judge-Counted v u w' (ground arith) in ground arith
          ]
    ]
  ]
]

-- ===== src/Task/Verify/Evidence.antt =====
-- What a turn in VERIFY that goes on to REVIEW has established.
use local_engineer.Prelude.{
  suc, ◌≡◌, sym, ap, ◌∙◌, subst, ◌⊎◌, inl, inr, true, false, not, ◌&&◌, List, [], ◌∷◌, ◌++◌, some,
  arith, leb, ltb, if◌then◌else◌, any, is_empty, In, List-cases, Option-cases, Bool-cases,
}
use local_engineer.GoStrings.{Text, text_eq, text_eq_iff}
use local_engineer.Recipe.{Preset}
use local_engineer.Recipe.Acceptance.{Reason, Passed, check_presets_exact, failed_only}
use local_engineer.Workflow.{Phase}
use local_engineer.Workflow.Failure.{environmental}
use local_engineer.Task.Verify.{
  no_transcript, Work, World, moved, move, count_failures, localize_again, repair, accept, strays,
  acceptable, reasons_for, decide, judge, run_again, verify, flaky_records,
}

-- The failing turns have no next phase.
pub move-moved :
    (v : World) (next : Phase) (w w' : Work)
    → move v next w ≡ moved w'
    → w' ≡ record w { phase = next }
unfolding move
move-moved v next w w' h = ground arith

phase-move : (v : World) (next : Phase) (w w' : Work) → move v next w ≡ moved w' → w'.phase ≡ next
phase-move v next w w' h = ap (λ u. u.phase) (move-moved v next w w' h)

localize_again-phase :
    (v : World) (w w' : Work) → localize_again v w ≡ moved w' → w'.phase ≡ Phase.localize
unfolding localize_again
localize_again-phase v w w' h =
    ground (arith, phase-move v Phase.localize (record w { replans = suc w.replans }) w')

-- A candidate that is not accepted never reaches REVIEW.
repair-phase :
    (v : World) (reasons : List Reason) (w w' : Work)
    → repair v reasons w ≡ moved w'
    → (w'.phase ≡ Phase.localize) ⊎ (w'.phase ≡ Phase.edit)
unfolding repair
repair-phase v reasons w w' h =
    let feedback = if is_empty w.feedback then v.finding reasons ∷ [] else w.feedback in
    let (u, again) = count_failures v feedback (record w { feedback = feedback }) in
    ground (
      arith,
      localize_again-phase v (record u { edit = no_transcript }) w',
      phase-move v Phase.edit (record u { edit = no_transcript }) w',
    )

accept-review :
    (v : World) (w w' : Work)
    → accept v w ≡ moved w'
    → w'.phase ≡ Phase.review
    → (v.obligations ≡ some []) × (w' ≡ record w { phase = Phase.review })
unfolding accept
accept-review v w w' h r = elim (Option-cases v.obligations) [
  | inl e ↦ absurd (ground arith)
  | inr (fs, e) ↦ elim (List-cases fs) [
    | inl none_left ↦ (
      e ∙ ap some none_left,
      move-moved v Phase.review w w' (ground (arith, e ∙ ap some none_left)),
    )
    | inr (f, rest, some_left) ↦
        let u = record w { feedback = w.feedback ++ f ∷ rest; impact = v.impact_of_change } in
        absurd (
          ground (
            arith,
            e ∙ ap some some_left,
            phase-move v Phase.planning (record u { replans = suc u.replans }) w',
          ))
  ]
]

-- The candidate is accepted: every frozen preset passed on it, no run failed, something changed, and
-- nothing outside the plan did.
abbrev pub Accepted : World → Work → Type 0
Accepted v w =
    (is_empty w.presets ≡ false)
    × ((p : Preset) → In p w.presets → Passed w.results w.candidate p)
    × (is_empty (failed_only w.results) ≡ true)
    × ((outside : List Text) × (changed : List Text) × (v.out_of_scope ≡ some outside)
        × (v.changed ≡ some changed)
        × (is_empty changed ≡ false)
        × (is_empty (strays v w.plan outside changed) ≡ true))
    × (v.obligations ≡ some [])

decide-review :
    (v : World) (w w' : Work) (outside changed : List Text)
    → decide v w outside changed ≡ moved w'
    → w'.phase ≡ Phase.review
    → (acceptable v w outside changed ≡ true)
      × (v.obligations ≡ some [])
      × (w' ≡ record w { phase = Phase.review })
unfolding decide
decide-review v w w' outside changed h r = elim (Bool-cases (acceptable v w outside changed)) [
  | inr bad ↦
      absurd (ground (arith, repair-phase v (reasons_for v w outside changed) w w' (ground arith)))
  | inl good ↦ let (o, e) = accept-review v w w' (ground arith) r in (good, o, e)
]

acceptable-Accepted :
    (v : World) (w : Work) (outside changed : List Text)
    → v.out_of_scope ≡ some outside
    → v.changed ≡ some changed
    → acceptable v w outside changed ≡ true
    → v.obligations ≡ some []
    → Accepted v w
unfolding acceptable
acceptable-Accepted v w outside changed o c good settled =
    let (some_preset, passed) =
      (check_presets_exact w.presets w.results w.candidate).0 (ground arith) in
    (
      some_preset,
      passed,
      ground arith,
      (outside, changed, o, c, ground arith, ground arith),
      settled,
    )

judge-review :
    (v : World) (w w' : Work)
    → judge v w ≡ moved w'
    → w'.phase ≡ Phase.review
    → Accepted v w × (w' ≡ record w { phase = Phase.review })
unfolding judge
judge-review v w w' h r = elim (Option-cases v.out_of_scope) [
  | inl e ↦ absurd (ground arith)
  | inr (outside, o) ↦ elim (Option-cases v.changed) [
    | inl e ↦ absurd (ground arith)
    | inr (changed, c) ↦
        let (good, settled, e) = decide-review v w w' outside changed (ground arith) r in
        (acceptable-Accepted v w outside changed o c good settled, e)
  ]
]

-- The results of a turn that goes on to REVIEW: those of its first run, or those of the rerun on a
-- candidate that the rerun left unchanged.
abbrev pub Ran : World → Work → Type 0
Ran v w =
    (v.run ≡ some w.results) ⊎ ((v.rerun ≡ some w.results) × (v.candidate_after ≡ some w.candidate))

run_again-review :
    (v : World) (w w' : Work)
    → v.run ≡ some w.results
    → run_again v w ≡ moved w'
    → w'.phase ≡ Phase.review
    → Accepted v w' × Ran v w'
unfolding run_again
run_again-review v w w' first h r = elim (Option-cases v.rerun) [
  | inl e ↦ absurd (ground arith)
  | inr (rerun, again) ↦ elim (Bool-cases (any environmental rerun)) [
    | inl broken ↦ absurd (ground arith)
    | inr sound ↦ elim (Option-cases v.candidate_after) [
      | inl e ↦ absurd (ground arith)
      | inr (after, a) ↦
          elim (Bool-cases (text_eq after w.candidate && is_empty (failed_only rerun))) [
            | inr real ↦
                let (fine, e) = judge-review v w w' (ground arith) r in
                subst (λ u. Accepted v u × Ran v u) (sym e) (fine, inl first)
            | inl flaky ↦
                let u = record w {
                  failure_history = w.failure_history ++ flaky_records v w w.feedback;
                  results = rerun;
                  feedback = [];
                } in
                let (fine, e) = judge-review v u w' (ground arith) r in
                subst (λ x. Accepted v x × Ran v x) (sym e)
                  (fine, inr (again, ground (arith, text_eq_iff after w.candidate)))
          ]
    ]
  ]
]

-- A turn goes on to REVIEW only with evidence for this candidate: there is a frozen preset, the last
-- result of each of them passed on this candidate, no result failed, something changed, nothing
-- outside the plan or under a policy did, and no consumer of a changed signature is left behind; and
-- those results are those of this turn's run, or of its rerun on a candidate that did not change.
pub review_needs_evidence :
    (v : World) (w w' : Work)
    → verify v w ≡ moved w'
    → w'.phase ≡ Phase.review
    → Accepted v w' × Ran v w'
unfolding verify
review_needs_evidence v w w' h r = elim (Bool-cases (leb 4 w.verify_loops)) [
  | inl done ↦ absurd (ground arith)
  | inr more ↦ elim (Option-cases v.run) [
    | inl e ↦ absurd (ground arith)
    | inr (results, first) ↦ elim (Bool-cases (any environmental results)) [
      | inl broken ↦ absurd (ground arith)
      | inr sound ↦
          let u = record w {
            verify_loops = suc w.verify_loops;
            results = results;
            feedback = failed_only results;
          } in
          elim (Bool-cases (not (is_empty u.feedback) && ltb u.verify_loops 4)) [
            | inl again ↦
                run_again-review v (record u { verify_loops = suc u.verify_loops }) w' first
                  (ground arith) r
            | inr once ↦
                let (fine, e) = judge-review v u w' (ground arith) r in
                subst (λ x. Accepted v x × Ran v x) (sym e) (fine, inl first)
          ]
    ]
  ]
]

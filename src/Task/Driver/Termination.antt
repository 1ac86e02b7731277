-- ===== src/Task/Driver/Termination.antt =====
-- The driver ends every task: each turn that goes on spends a loop, a replan, or a step through the
-- phases.
use local_engineer.Prelude.{
  ℕ, zero, suc, ◌+◌, ◌-◌, ◌*◌, ◌≤◌, ◌<◌, ◌≡◌, ◌≢◌, refl, ap, ◌⊎◌, inl, inr, [], ◌∷◌, ◌++◌, Option,
  none, some, arith, is_empty, Option-cases, Bool-cases,
}
use local_engineer.Workflow.{Phase}
use local_engineer.Workflow.Plan.{PlanError}
use local_engineer.Task.{State}
use local_engineer.Task.Verify.{
  no_transcript, Work, World, Why, Turn, crashed, stopped, moved, move, verify,
}
use local_engineer.Task.Verify.Evidence.{move-moved}
use local_engineer.Task.Verify.Bounds.{verify_spends}
use local_engineer.Task.Finalize.Approval.{finalize-ne-moved}
use local_engineer.Task.Phases.{
  Opening, Planner, Editor, Reviewer, Response, freeze, take_baseline, intake, localize, assess,
  plan_error, plan_again, grants_allowed, planning, edited, counted, edit, review,
}
use local_engineer.Task.Driver.{Answers, in_phase, turn, unfinished, drive}

abbrev pub rank : Phase → ℕ
rank Phase.intake = 8
rank Phase.localize = 7
rank Phase.impact = 6
rank Phase.planning = 5
rank Phase.edit = 4
rank Phase.verify = 3
rank Phase.review = 5
rank Phase.finalize = 0

-- The loops and replans that are left, ten turns each, and the way to the next one.
abbrev pub measure : Work → ℕ
measure w = 10 * ((4 - w.verify_loops) + (2 - w.replans)) + rank w.phase

-- The turn leads to that phase and spends neither a loop nor a replan.
abbrev pub Steps : Phase → Work → Work → Type 0
Steps next w w' = (w'.phase ≡ next) × (w'.verify_loops ≡ w.verify_loops) × (w'.replans ≡ w.replans)

-- The turn spends one replan, within the bound.
abbrev pub Replans : Work → Work → Type 0
Replans w w' =
    (w'.phase ≡ Phase.planning)
    × (w'.verify_loops ≡ w.verify_loops)
    × (w'.replans ≡ suc w.replans)
    × (w.replans < 2)

move-Steps : (v : World) (next : Phase) (w w' : Work) → move v next w ≡ moved w' → Steps next w w'
move-Steps v next w w' h =
    let e = move-moved v next w w' h in
    (ap (λ u. u.phase) e, ap (λ u. u.verify_loops) e, ap (λ u. u.replans) e)

take_baseline-Steps :
    (o : Opening) (v : World) (w w' : Work)
    → take_baseline o v w ≡ moved w'
    → Steps Phase.localize w w'
unfolding take_baseline
take_baseline-Steps o v w w' h = elim (Option-cases o.baseline) [
  | inl e ↦ absurd (ground arith)
  | inr (results, e) ↦
      ground (arith, e, move-Steps v Phase.localize (record w { baseline = results }) w')
]

pub intake-Steps :
    (o : Opening) (v : World) (w w' : Work) → intake o v w ≡ moved w' → Steps Phase.localize w w'
unfolding intake freeze
intake-Steps o v w w' h = elim (Bool-cases (is_empty w.presets)) [
  | inr frozen ↦ take_baseline-Steps o v w w' (ground arith)
  | inl fresh ↦ elim (Option-cases o.discovered) [
    | inl e ↦ absurd (ground arith)
    | inr (presets, e) ↦ elim (Bool-cases v.saves) [
      | inr lost ↦ absurd (ground arith)
      | inl kept ↦ take_baseline-Steps o v (record w { presets = presets }) w' (ground arith)
    ]
  ]
]

pub localize-Steps :
    (o : Opening) (v : World) (w w' : Work) → localize o v w ≡ moved w' → Steps Phase.impact w w'
unfolding localize
localize-Steps o v w w' h = ground (arith, move-Steps v Phase.impact w w')

pub assess-Steps :
    (o : Opening) (v : World) (w w' : Work) → assess o v w ≡ moved w' → Steps Phase.planning w w'
unfolding assess
assess-Steps o v w w' h = elim (Option-cases o.impact) [
  | inl e ↦ absurd (ground arith)
  | inr (impact, e) ↦ move-Steps v Phase.planning (record w { impact = impact }) w' (ground arith)
]

plan_again-Replans :
    (p : Planner) (v : World) (e : Option PlanError) (w w' : Work)
    → w.phase ≡ Phase.planning
    → plan_again p v e w ≡ moved w'
    → Replans w w'
unfolding plan_again
plan_again-Replans p v e w w' here h = ground arith

pub planning-moves :
    (p : Planner) (v : World) (w w' : Work)
    → w.phase ≡ Phase.planning
    → planning p v w ≡ moved w'
    → Replans w w' ⊎ Steps Phase.edit w w'
unfolding planning
planning-moves p v w w' here h = elim (Option-cases p.planned) [
  | inl e ↦ inl (plan_again-Replans p v none w w' here (ground arith))
  | inr (plan, e) ↦ elim (Option-cases (plan_error p w plan)) [
    | inr (wrong, f) ↦ inl (plan_again-Replans p v (some wrong) w w' here (ground arith))
    | inl fine ↦ elim (Bool-cases (grants_allowed p v plan.write_allowlist plan.write_allowlist)) [
      | inr denied ↦ absurd (ground arith)
      | inl allowed ↦ inr (
          move-Steps v Phase.edit (record w { plan = plan; edit = no_transcript }) w'
            (ground arith))
    ]
  ]
]

edited-moves :
    (v : World) (r : Response) (w w' : Work)
    → edited v r w ≡ moved w'
    → Replans w w' ⊎ Steps Phase.verify w w'
unfolding edited
edited-moves v r w w' h = elim (Bool-cases r.exhausted) [
  | inr going ↦ inr (ground (arith, move-Steps v Phase.verify w w'))
  | inl spent ↦
      let u = record w { replans = suc w.replans; feedback = w.feedback ++ r.summary ∷ [] } in
      inl (ground (arith, move-Steps v Phase.planning u w'))
]

pub edit-moves :
    (d : Editor) (v : World) (w w' : Work)
    → edit d v w ≡ moved w'
    → Replans w w' ⊎ Steps Phase.verify w w'
unfolding edit
edit-moves d v w w' h = elim (Option-cases d.response) [
  | inl e ↦ absurd (ground arith)
  | inr (r, e) ↦ edited-moves v r (record (counted w) { edit = r.transcript }) w' (ground arith)
]

pub review-moves :
    (d : Reviewer) (v : World) (w w' : Work)
    → review d v w ≡ moved w'
    → Steps Phase.finalize w w' ⊎ Steps Phase.edit w w'
unfolding review
review-moves d v w w' h = elim (Option-cases d.verdict) [
  | inl e ↦ absurd (ground arith)
  | inr ((ok, findings), e) ↦ elim (Bool-cases ok) [
    | inl accepted ↦ inl (move-Steps v Phase.finalize w w' (ground (arith, e)))
    | inr rejected ↦
        let u = record w { feedback = findings ∷ []; edit = no_transcript } in
        inr (move-Steps v Phase.edit u w' (ground (arith, e)))
  ]
]

rank_bound : (p : Phase) → rank p ≤ 8
rank_bound p = ground arith

verify-measure :
    (v : World) (w w' : Work)
    → w.phase ≡ Phase.verify
    → verify v w ≡ moved w'
    → measure w' < measure w
verify-measure v w w' here h =
    let (spent, bound, same, replans) = verify_spends v w w' h in
    omega (arith, rank_bound w'.phase, ap rank here, spent, bound, replans)

Steps-measure :
    (p next : Phase) (w w' : Work)
    → w.phase ≡ p
    → rank next < rank p
    → Steps next w w'
    → measure w' < measure w
Steps-measure p next w w' here less (phase, loops, replans) =
    omega (arith, ap rank here, ap rank phase, loops, replans, less)

Replans-measure : (w w' : Work) → Replans w w' → measure w' < measure w
Replans-measure w w' (phase, loops, replans, bound) =
    omega (arith, ap rank phase, loops, replans, bound)

in_phase-measure :
    (p : Phase) (a : Answers) (w w' : Work)
    → w.phase ≡ p
    → in_phase p a w ≡ moved w'
    → measure w' < measure w
unfolding in_phase
in_phase-measure Phase.intake a w w' here h =
    Steps-measure Phase.intake Phase.localize w w' here (omega arith)
      (intake-Steps a.opening a.world w w' h)
in_phase-measure Phase.localize a w w' here h =
    Steps-measure Phase.localize Phase.impact w w' here (omega arith)
      (localize-Steps a.opening a.world w w' h)
in_phase-measure Phase.impact a w w' here h =
    Steps-measure Phase.impact Phase.planning w w' here (omega arith)
      (assess-Steps a.opening a.world w w' h)
in_phase-measure Phase.planning a w w' here h =
    elim (planning-moves a.planner a.world w w' here h) [
      | inl again ↦ Replans-measure w w' again
      | inr on ↦ Steps-measure Phase.planning Phase.edit w w' here (omega arith) on
    ]
in_phase-measure Phase.edit a w w' here h = elim (edit-moves a.editor a.world w w' h) [
  | inl again ↦ Replans-measure w w' again
  | inr on ↦ Steps-measure Phase.edit Phase.verify w w' here (omega arith) on
]
in_phase-measure Phase.verify a w w' here h = verify-measure a.world w w' here h
in_phase-measure Phase.review a w w' here h = elim (review-moves a.reviewer a.world w w' h) [
  | inl done ↦ Steps-measure Phase.review Phase.finalize w w' here (omega arith) done
  | inr back ↦ Steps-measure Phase.review Phase.edit w w' here (omega arith) back
]
in_phase-measure Phase.finalize a w w' here h = absurd (finalize-ne-moved a.closing a.world w w' h)

turn-measure : (a : Answers) (w w' : Work) → turn a w ≡ moved w' → measure w' < measure w
unfolding turn
turn-measure a w w' h = elim (Option-cases a.candidate) [
  | inl e ↦ absurd (ground arith)
  | inr (c, e) ↦ in_phase-measure w.phase a (record w { candidate = c }) w' refl (ground arith)
]

pub Turn-cases :
    (t : Turn)
    → ((w : Work) × (t ≡ moved w))
      ⊎ ((t ≡ crashed) ⊎ ((s : State) × (why : Why) × (w : Work) × (t ≡ stopped s why w)))
Turn-cases crashed = inr (inl refl)
Turn-cases (stopped s why w) = inr (inr (s, why, w, refl))
Turn-cases (moved w) = inl (w, refl)

-- The driver ends every task, whatever the world answers: from any state it stops, or ends in an error,
-- within one turn more than its measure, which is ten for each loop and each replan that is left and at
-- most eight more: at most 69 turns in all.
pub drive-ne-unfinished :
    (answers : ℕ → Answers) (fuel : ℕ) (w : Work)
    → measure w < fuel
    → drive answers fuel w ≢ unfinished
unfolding drive
drive-ne-unfinished answers zero w enough e = omega arith
drive-ne-unfinished answers (suc fuel) w enough e = elim (Turn-cases (turn (answers fuel) w)) [
  | inl (w', h) ↦
      let less = turn-measure (answers fuel) w w' h in
      drive-ne-unfinished answers fuel w' (omega arith) (ground (arith, h))
  | inr (inl broken) ↦ ground (arith, broken)
  | inr (inr (s, why, w', stop)) ↦ ground (arith, stop)
]

-- ===== src/Task/Driver/Acceptance.antt =====
-- Only FINALIZE accepts a task.
use local_engineer.Prelude.{
  ℕ, zero, suc, ◌≡◌, ◌≢◌, refl, ap, subst, ◌⊎◌, inl, inr, Bool, true, false, not, ◌&&◌, List, [],
  ◌++◌, arith, leb, ltb, any, is_empty, Option-cases, Bool-cases,
}
use local_engineer.Recipe.Acceptance.{Reason, failed_only}
use local_engineer.Workflow.{Phase}
use local_engineer.Workflow.Failure.{environmental}
use local_engineer.GoStrings.{Text, text_eq}
use local_engineer.Task.{State}
use local_engineer.Task.Verify.{
  Work, World, Why, Turn, crashed, stopped, moved, move, localize_again, repair, accept, decide,
  flaky_records, reasons_for, judge, run_again, verify,
}
use local_engineer.Task.Phases.{
  Opening, Planner, Editor, Reviewer, freeze, take_baseline, intake, localize, assess, plan_again,
  planning, edited, edit, review,
}
use local_engineer.Task.Finalize.Approval.{Scanned, Committed, finalize-accepted}
use local_engineer.Task.Driver.{Answers, in_phase, turn, ended, drive}
use local_engineer.Task.Driver.Termination.{Turn-cases}

abbrev is_accepted : State → Bool
is_accepted State.accepted = true
is_accepted _ = false

abbrev accepts : Turn → Bool
accepts crashed = false
accepts (stopped s why w) = is_accepted s
accepts (moved w) = false

accepts-move : (v : World) (next : Phase) (w : Work) → accepts (move v next w) ≡ false
unfolding move
accepts-move v next w = ground arith

accepts-localize_again : (v : World) (w : Work) → accepts (localize_again v w) ≡ false
unfolding localize_again move
accepts-localize_again v w = ground arith

accepts-repair : (v : World) (rs : List Reason) (w : Work) → accepts (repair v rs w) ≡ false
unfolding repair localize_again move
accepts-repair v rs w = ground arith

accepts-accept : (v : World) (w : Work) → accepts (accept v w) ≡ false
unfolding accept move
accepts-accept v w = ground arith

accepts-decide :
    (v : World) (w : Work) (outside changed : List Text)
    → accepts (decide v w outside changed) ≡ false
unfolding decide
accepts-decide v w outside changed =
    ground (arith, accepts-accept v w, accepts-repair v (reasons_for v w outside changed) w)

accepts-judge : (v : World) (w : Work) → accepts (judge v w) ≡ false
unfolding judge
accepts-judge v w = elim (Option-cases v.out_of_scope) [
  | inl e ↦ rw e refl
  | inr (outside, o) ↦ elim (Option-cases v.changed) [
    | inl e ↦ rw (o, e) refl
    | inr (changed, c) ↦ ground (arith, accepts-decide v w outside changed)
  ]
]

accepts-run_again : (v : World) (w : Work) → accepts (run_again v w) ≡ false
unfolding run_again
accepts-run_again v w = elim (Option-cases v.rerun) [
  | inl e ↦ rw e refl
  | inr (rerun, e) ↦ elim (Bool-cases (any environmental rerun)) [
    | inl broken ↦ rw (e, broken) refl
    | inr sound ↦ elim (Option-cases v.candidate_after) [
      | inl f ↦ rw (e, sound, f) refl
      | inr (after, f) ↦
          elim (Bool-cases (text_eq after w.candidate && is_empty (failed_only rerun))) [
            | inl flaky ↦
                let u = record w {
                  failure_history = w.failure_history ++ flaky_records v w w.feedback;
                  results = rerun;
                  feedback = [];
                } in
                ground (arith, accepts-judge v u)
            | inr real ↦ ground (arith, accepts-judge v w)
          ]
    ]
  ]
]

accepts-verify : (v : World) (w : Work) → accepts (verify v w) ≡ false
unfolding verify
accepts-verify v w = elim (Bool-cases (leb 4 w.verify_loops)) [
  | inl done ↦ rw done refl
  | inr more ↦ elim (Option-cases v.run) [
    | inl e ↦ rw (more, e) refl
    | inr (results, e) ↦ elim (Bool-cases (any environmental results)) [
      | inl broken ↦ rw (more, e, broken) refl
      | inr sound ↦
          elim (Bool-cases (not (is_empty (failed_only results)) && ltb (suc w.verify_loops) 4)) [
            | inl again ↦ rw (more, e, sound, again) (accepts-run_again v _)
            | inr once ↦ rw (more, e, sound, once) (accepts-judge v _)
          ]
    ]
  ]
]

accepts-take_baseline : (o : Opening) (v : World) (w : Work) → accepts (take_baseline o v w) ≡ false
unfolding take_baseline move
accepts-take_baseline o v w = ground arith

accepts-intake : (o : Opening) (v : World) (w : Work) → accepts (intake o v w) ≡ false
unfolding intake freeze
accepts-intake o v w = elim (Bool-cases (is_empty w.presets)) [
  | inr frozen ↦ rw frozen (accepts-take_baseline o v w)
  | inl fresh ↦ elim (Option-cases o.discovered) [
    | inl e ↦ rw (fresh, e) refl
    | inr (presets, e) ↦ elim (Bool-cases v.saves) [
      | inr lost ↦ rw (fresh, e, lost) refl
      | inl saved ↦ ground (arith, accepts-take_baseline o v (record w { presets = presets }))
    ]
  ]
]

accepts-localize : (o : Opening) (v : World) (w : Work) → accepts (localize o v w) ≡ false
unfolding localize move
accepts-localize o v w = ground arith

accepts-assess : (o : Opening) (v : World) (w : Work) → accepts (assess o v w) ≡ false
unfolding assess move
accepts-assess o v w = ground arith

accepts-planning : (p : Planner) (v : World) (w : Work) → accepts (planning p v w) ≡ false
unfolding planning plan_again move
accepts-planning p v w = ground arith

accepts-review : (d : Reviewer) (v : World) (w : Work) → accepts (review d v w) ≡ false
unfolding review move
accepts-review d v w = ground arith

accepts-edit : (d : Editor) (v : World) (w : Work) → accepts (edit d v w) ≡ false
unfolding edit edited move
accepts-edit d v w = ground arith

-- A turn outside FINALIZE never ends with the task accepted.
only_finalize :
    (p : Phase) (a : Answers) (w : Work) → p ≢ Phase.finalize → accepts (in_phase p a w) ≡ false
unfolding in_phase
only_finalize Phase.intake a w ne = accepts-intake a.opening a.world w
only_finalize Phase.localize a w ne = accepts-localize a.opening a.world w
only_finalize Phase.impact a w ne = accepts-assess a.opening a.world w
only_finalize Phase.planning a w ne = accepts-planning a.planner a.world w
only_finalize Phase.edit a w ne = accepts-edit a.editor a.world w
only_finalize Phase.verify a w ne = accepts-verify a.world w
only_finalize Phase.review a w ne = accepts-review a.reviewer a.world w
only_finalize Phase.finalize a w ne = absurd (ne refl)

finalize_or_not : (p : Phase) → (p ≡ Phase.finalize) ⊎ (p ≢ Phase.finalize)
finalize_or_not Phase.finalize = inl refl
finalize_or_not _ = inr (λ e. cc)

-- The diff of the candidate was scanned, and the candidate approved and committed.
abbrev pub Approved : Answers → Work → Type 0
Approved a w = Scanned a.closing × Committed a.closing w

finalize-Approved :
    (a : Answers) (w w' : Work) (why : Why)
    → in_phase Phase.finalize a w ≡ stopped State.accepted why w'
    → Approved a w'
unfolding in_phase
finalize-Approved a w w' why h =
    let (verified, scanned, done, final) = finalize-accepted a.closing a.world w w' why h in
    (scanned, done)

in_phase-Approved :
    (p : Phase) (a : Answers) (w w' : Work) (why : Why)
    → in_phase p a w ≡ stopped State.accepted why w'
    → Approved a w'
in_phase-Approved p a w w' why h = elim (finalize_or_not p) [
  | inr other ↦ absurd (ground (arith, only_finalize p a w other, ap accepts h))
  | inl last ↦
      finalize-Approved a w w' why
        (subst (λ q. in_phase q a w ≡ stopped State.accepted why w') last h)
]

turn-Approved :
    (a : Answers) (w w' : Work) (why : Why)
    → turn a w ≡ stopped State.accepted why w'
    → Approved a w'
unfolding turn
turn-Approved a w w' why h = elim (Option-cases a.candidate) [
  | inl e ↦ absurd (ground arith)
  | inr (c, e) ↦ in_phase-Approved w.phase a (record w { candidate = c }) w' why (ground arith)
]

-- The turns of a run: `drive` with this fuel, from the first work, comes to the second with that fuel
-- left, and every turn between them went on.
pub data Runs (answers : ℕ → Answers) : ℕ → Work → ℕ → Work → Type 0 where
  start : {fuel : ℕ} {w : Work} → Runs answers fuel w fuel w
  after :
      {fuel n : ℕ} {w v u : Work}
      → turn (answers fuel) w ≡ moved v
      → Runs answers fuel v n u
      → Runs answers (suc fuel) w n u

-- The turn is one of FINALIZE that ends with the task accepted.
abbrev pub Accepts : Answers → Work → Why → Work → Type 0
Accepts a u why w' =
    (u.phase ≡ Phase.finalize) × (turn a u ≡ stopped State.accepted why w') × Approved a w'

turn-finalize :
    (a : Answers) (w w' : Work) (why : Why)
    → turn a w ≡ stopped State.accepted why w'
    → w.phase ≡ Phase.finalize
unfolding turn
turn-finalize a w w' why h = elim (finalize_or_not w.phase) [
  | inl here ↦ here
  | inr other ↦ elim (Option-cases a.candidate) [
    | inl e ↦ absurd (ground arith)
    | inr (c, e) ↦
        let u = record w { candidate = c } in
        let ends : in_phase w.phase a u ≡ stopped State.accepted why w' = ground arith in
        absurd (ground (arith, only_finalize w.phase a u other, ap accepts ends))
  ]
]

-- A run of the driver accepts a task only in a turn of FINALIZE that the run comes to: in that turn the
-- diff was scanned and holds no credential, the gate was approved, and the candidate at the gate is the
-- one that is committed, with its intent in the journal before the commit and its outcome after it.
pub drive-Approved :
    (answers : ℕ → Answers) (fuel : ℕ) (w w' : Work) (why : Why)
    → drive answers fuel w ≡ ended State.accepted why w'
    → (n : ℕ) × (u : Work) × Runs answers fuel w (suc n) u × Accepts (answers n) u why w'
unfolding drive
drive-Approved answers zero w w' why h = absurd (ground arith)
drive-Approved answers (suc fuel) w w' why h = elim (Turn-cases (turn (answers fuel) w)) [
  | inl (v, e) ↦
      let (n, u, run, last) = drive-Approved answers fuel v w' why (ground arith) in
      (n, u, after e run, last)
  | inr (inl broken) ↦ absurd (ground arith)
  | inr (inr (s, y, u, e)) ↦
      let ends : turn (answers fuel) w ≡ stopped State.accepted why w' = ground arith in
      (
        fuel,
        w,
        start,
        (
          turn-finalize (answers fuel) w w' why ends,
          ends,
          turn-Approved (answers fuel) w w' why ends,
        ),
      )
]

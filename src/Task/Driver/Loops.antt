-- ===== src/Task/Driver/Loops.antt =====
-- How often a run of the driver can go on from VERIFY: no other phase gives loops back.
use local_engineer.Prelude.{ℕ, suc, ◌+◌, ◌≤◌, ◌≡◌, refl, ◌⊎◌, ◌∙◌, inl, inr, arith, Option-cases}
use local_engineer.Workflow.{Phase}
use local_engineer.Task.Verify.{Work, moved}
use local_engineer.Task.Verify.Bounds.{verify_spends}
use local_engineer.Task.Finalize.Approval.{finalize-ne-moved}
use local_engineer.Task.Driver.{Answers, in_phase, turn, drive}
use local_engineer.Task.Driver.Acceptance.{Runs, start, after}
use local_engineer.Task.Driver.Termination.{
  Steps, Replans, intake-Steps, localize-Steps, assess-Steps, planning-moves, edit-moves,
  review-moves,
}

-- One for a turn of VERIFY.
abbrev pub in_verify : Phase → ℕ
in_verify Phase.verify = 1
in_verify _ = 0

-- The turns of VERIFY in a run.
unfoldable pub verify_turns :
    (answers : ℕ → Answers) {fuel n : ℕ} {w u : Work} → Runs answers fuel w n u → ℕ
verify_turns answers start = 0
verify_turns answers (after {w = w} e run) = in_verify w.phase + verify_turns answers run

-- A turn of this phase spends a loop if it is one of VERIFY, and gives none back.
abbrev Spends : Phase → Work → Work → Type 0
Spends p w w' =
    (in_verify p + w.verify_loops ≤ w'.verify_loops)
    × ((w'.verify_loops ≤ 4) ⊎ (w'.verify_loops ≡ w.verify_loops))

one_of :
    (p next : Phase) (w w' : Work)
    → in_verify p ≡ 0
    → Replans w w' ⊎ Steps next w w'
    → Spends p w w'
one_of p next w w' e (inl (phase, loops, more, bound)) = (omega (arith, e, loops), inr loops)
one_of p next w w' e (inr (phase, loops, r)) = (omega (arith, e, loops), inr loops)

in_phase-Spends :
    (p : Phase) (a : Answers) (w w' : Work)
    → w.phase ≡ p
    → in_phase p a w ≡ moved w'
    → Spends p w w'
unfolding in_phase
in_phase-Spends Phase.intake a w w' here h =
    one_of Phase.intake Phase.localize w w' refl (inr (intake-Steps a.opening a.world w w' h))
in_phase-Spends Phase.localize a w w' here h =
    one_of Phase.localize Phase.impact w w' refl (inr (localize-Steps a.opening a.world w w' h))
in_phase-Spends Phase.impact a w w' here h =
    one_of Phase.impact Phase.planning w w' refl (inr (assess-Steps a.opening a.world w w' h))
in_phase-Spends Phase.planning a w w' here h =
    one_of Phase.planning Phase.edit w w' refl (planning-moves a.planner a.world w w' here h)
in_phase-Spends Phase.edit a w w' here h =
    one_of Phase.edit Phase.verify w w' refl (edit-moves a.editor a.world w w' h)
in_phase-Spends Phase.verify a w w' here h =
    let (spent, bound, same, replans) = verify_spends a.world w w' h in
    (omega (arith, spent), inl bound)
in_phase-Spends Phase.review a w w' here h = elim (review-moves a.reviewer a.world w w' h) [
  | inl done ↦ one_of Phase.review Phase.finalize w w' refl (inr done)
  | inr back ↦ one_of Phase.review Phase.edit w w' refl (inr back)
]
in_phase-Spends Phase.finalize a w w' here h = absurd (finalize-ne-moved a.closing a.world w w' h)

turn-Spends : (a : Answers) (w w' : Work) → turn a w ≡ moved w' → Spends w.phase w w'
unfolding turn
turn-Spends a w w' h = elim (Option-cases a.candidate) [
  | inl e ↦ absurd (ground arith)
  | inr (c, e) ↦ in_phase-Spends w.phase a (record w { candidate = c }) w' refl (ground arith)
]

drive-moved :
    (answers : ℕ → Answers) (fuel : ℕ) (w v : Work)
    → turn (answers fuel) w ≡ moved v
    → drive answers (suc fuel) w ≡ drive answers fuel v
unfolding drive
drive-moved answers fuel w v e = rw (drive, e) refl

-- From a work that has spent at most four loops, a run of the driver, however long and whatever the world
-- answers, goes on from VERIFY at most as many times as there are loops left of the four, whichever
-- phases come between: each time counts as a loop, and no turn gives one back. The driver ends as it does
-- from the work that the run comes to.
pub verify_turns_bounded :
    (answers : ℕ → Answers) (fuel n : ℕ) (w u : Work) (run : Runs answers fuel w n u)
    → w.verify_loops ≤ 4
    → (verify_turns answers run + w.verify_loops ≤ u.verify_loops)
      × (u.verify_loops ≤ 4)
      × (drive answers fuel w ≡ drive answers n u)
unfolding verify_turns
verify_turns_bounded answers fuel n w u start h = (omega arith, h, refl)
verify_turns_bounded answers fuel n w u (after {fuel = m} {v = v} e run) h =
    let (spent, bound) = turn-Spends (answers m) w v e in
    let (rest, four, same) = verify_turns_bounded answers m n v u run (omega (arith, bound, h)) in
    (omega (arith, spent, rest), four, drive-moved answers m w v e ∙ same)

-- ===== src/Task/Verify.antt =====
-- The VERIFY case of runPhases in internal/task/phases.go: one turn of the driver in that phase, with
-- the recipes run, the rerun that tells a flaky failure from a real one, the scope, the acceptance
-- and the ladder of repairs. What the turn asks of the world (the runs, git, the search for
-- consumers of changed signatures) is the record `World`, one answer for each call.
pub mod Evidence
pub mod Bounds
use local_engineer.Prelude.{
  ℕ, suc, Bool, true, false, not, ◌&&◌, ◌||◌, List, [], ◌∷◌, ◌++◌, Option, none, some, leb, ltb,
  if◌then◌else◌, any, keep, map, is_empty,
}
use local_engineer.GoStrings.{Text, codes, text_eq}
use local_engineer.Graph.{Impact}
use local_engineer.Policy.{PolicySet, check}
use local_engineer.Firewall.{generated}
use local_engineer.Recipe.{Status, Kind, Preset, RunResult, lookup}
use local_engineer.Recipe.Acceptance.{
  Reason, changed_nothing, outside_scope, run_failed, check_presets, failed_only,
}
use local_engineer.Workflow.{Phase, transition}
use local_engineer.Workflow.Plan.{Plan, regenerates_generated}
use local_engineer.Workflow.Failure.{
  FailureClass, FailureRecord, environmental, regression, classify, times_seen,
}
use local_engineer.Task.{State}

-- `Transcript`: how many messages it holds, whether a batch of tool calls is pending, and the
-- candidate that it was saved on.
pub record Transcript : Type 0 where
  pub messages : ℕ
  pub pending : Bool
  pub candidate : Text

-- `Transcript{}`.
abbrev pub no_transcript : Transcript
no_transcript = record { messages = 0; pending = false; candidate = [] }

-- What the driver reads and writes of `workflow.State`.
pub record Work : Type 0 where
  pub phase : Phase
  pub candidate : Text
  pub finalization_candidate : Text
  pub attempts : ℕ
  pub replans : ℕ
  pub verify_loops : ℕ
  pub regressions : ℕ
  pub plan : Plan
  pub presets : List Preset
  pub baseline : List RunResult
  pub results : List RunResult
  pub feedback : List RunResult
  pub failures : List (Text × ℕ)
  pub failure_history : List FailureRecord
  pub impact : Option Impact
  pub edit : Transcript

-- The answers of the world; `none` is an error. `obligations` holds a finding for each consumer of a
-- changed signature that the change leaves behind, and `impact_of_change` the report that they are from.
pub record World : Type 0 where
  pub run : Option (List RunResult)
  pub rerun : Option (List RunResult)
  pub candidate_after : Option Text
  pub out_of_scope : Option (List Text)
  pub changed : Option (List Text)
  pub obligations : Option (List RunResult)
  pub impact_of_change : Option Impact
  pub resets : Bool
  pub saves : Bool
  pub policies : PolicySet
  pub max_attempts : ℕ
  pub fingerprint_of : RunResult → Text × List Text
  pub finding : List Reason → RunResult

pub data Why : Type 0 where
  no_time no_tokens : Why
  presets_unknown index_stale environment prefix_unknown : Why
  localization_failed grant_denied drifted_transcript attempts_exhausted : Why
  engine_failed not_declared_done loops_exhausted obligations_unknown : Why
  replans_exhausted repairs_exhausted review_failed review_rejected : Why
  candidate_changed card_failed secret_in_diff rejected_at_gate awaiting_approval commit_failed :
      Why
  not_moved finalized : Why

-- How a turn ends: an error of the driver, a stop in some state of the task, or the next phase.
pub data Turn : Type 0 where
  crashed : Turn
  stopped : State → Why → Work → Turn
  moved : Work → Turn

-- `move`.
unfoldable pub move : World → Phase → Work → Turn
move v next w = elim (transition w.phase next) [
  | some e ↦ stopped State.blocked not_moved w
  | none ↦ if v.saves then moved (record w { phase = next }) else stopped State.blocked not_moved w
]

-- The failures of the first run that did not come back.
unfoldable pub flaky_records : World → Work → List RunResult → List FailureRecord
flaky_records v w [] = []
flaky_records v w (r ∷ rs) =
    record (classify v.fingerprint_of r w.baseline w.failures) { class = FailureClass.flaky }
    ∷ flaky_records v w rs

unfoldable pub bump : Text → List (Text × ℕ) → List (Text × ℕ)
bump fp [] = (fp, 1) ∷ []
bump fp ((k, n) ∷ m) = if text_eq k fp then (k, suc n) ∷ m else (k, n) ∷ bump fp m

-- The loop over the failures: what it leaves in the state, and whether to localize again.
unfoldable pub count_failures : World → List RunResult → Work → Work × Bool
count_failures v [] w = (w, false)
count_failures v (r ∷ rs) w =
    let fp = (v.fingerprint_of r).0 in
    let counted = bump fp w.failures in
    let (w', again) = count_failures v rs (record w {
      failure_history = w.failure_history ++ classify v.fingerprint_of r w.baseline w.failures ∷ [];
      failures = counted;
      regressions = if regression r w.baseline then suc w.regressions else w.regressions;
    }) in
    (w', leb 3 (times_seen (lookup fp counted)) || again)

-- Localize again, within the bound on replans.
unfoldable pub localize_again : World → Work → Turn
localize_again v w =
    if leb 2 w.replans
    then stopped State.failed replans_exhausted w
    else if v.resets
    then move v Phase.localize (record w { replans = suc w.replans })
    else crashed

-- The turn after a candidate that is not accepted.
unfoldable pub repair : World → List Reason → Work → Turn
repair v reasons w =
    let feedback = if is_empty w.feedback then v.finding reasons ∷ [] else w.feedback in
    let (w', again) = count_failures v feedback (record w { feedback = feedback }) in
    if ltb 2 w'.regressions || leb v.max_attempts w'.attempts
    then if v.resets then stopped State.failed repairs_exhausted w' else crashed
    else if again
    then localize_again v (record w' { edit = no_transcript })
    else move v Phase.edit (record w' { edit = no_transcript })

-- The turn after a candidate that is accepted.
unfoldable pub accept : World → Work → Turn
accept v w = elim v.obligations [
  | none ↦ stopped State.blocked obligations_unknown w
  | some [] ↦ move v Phase.review w
  | some (f ∷ fs) ↦
      let w' = record w { feedback = w.feedback ++ f ∷ fs; impact = v.impact_of_change } in
      if leb 2 w'.replans
      then stopped State.failed replans_exhausted w'
      else move v Phase.planning (record w' { replans = suc w'.replans })
]

-- The paths outside the plan: generated ones do not count where the plan runs a generator, and every
-- path that a policy protects does.
unfoldable pub strays : World → Plan → List Text → List Text → List Text
strays v p outside changed =
    (if regenerates_generated p then keep (λ f. not (generated f)) outside else outside)
    ++ map (λ x. x.path) (check v.policies changed)

unfoldable pub run_reasons : List RunResult → List Reason
run_reasons [] = []
run_reasons (r ∷ rs) = run_failed r.recipe r.summary.headline ∷ run_reasons rs

-- `accepted`, with the assignments that take it back.
unfoldable pub acceptable : World → Work → List Text → List Text → Bool
acceptable v w outside changed =
    (check_presets w.presets w.results w.candidate).0
    && not (is_empty changed)
    && is_empty (strays v w.plan outside changed)
    && is_empty (failed_only w.results)

unfoldable pub reasons_for : World → Work → List Text → List Text → List Reason
reasons_for v w outside changed =
    (check_presets w.presets w.results w.candidate).1
    ++ (if is_empty changed then changed_nothing ∷ [] else [])
    ++ (if is_empty (strays v w.plan outside changed) then [] else outside_scope ∷ [])
    ++ run_reasons (failed_only w.results)

unfoldable pub decide : World → Work → List Text → List Text → Turn
decide v w outside changed =
    if acceptable v w outside changed
    then accept v w
    else repair v (reasons_for v w outside changed) w

-- The decision, from the results that the turn has settled on.
unfoldable pub judge : World → Work → Turn
judge v w = elim v.out_of_scope [
  | none ↦ crashed
  | some outside ↦ elim v.changed [ none ↦ crashed | some changed ↦ decide v w outside changed ]
]

-- The rerun of a failing verification on the unchanged candidate.
unfoldable pub run_again : World → Work → Turn
run_again v w = elim v.rerun [
  | none ↦ crashed
  | some rerun ↦
      if any environmental rerun
      then stopped State.blocked environment w
      else elim v.candidate_after [
        | none ↦ crashed
        | some after ↦
            if text_eq after w.candidate && is_empty (failed_only rerun)
            then judge v (record w {
              failure_history = w.failure_history ++ flaky_records v w w.feedback;
              results = rerun;
              feedback = [];
            })
            else judge v w
      ]
]

-- One turn in VERIFY.
unfoldable pub verify : World → Work → Turn
verify v w = if leb 4 w.verify_loops then stopped State.failed loops_exhausted w else elim v.run [
  | none ↦ crashed
  | some results ↦
      let w' = record w { verify_loops = suc w.verify_loops; results = results } in
      if any environmental results
      then stopped State.blocked environment w'
      else let w'' = record w' { feedback = failed_only results } in
        if not (is_empty w''.feedback) && ltb w''.verify_loops 4
        then run_again v (record w'' { verify_loops = suc w''.verify_loops })
        else judge v w''
]

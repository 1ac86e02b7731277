-- ===== src/Task/Phases.antt =====
-- The cases of runPhases in internal/task/phases.go other than VERIFY and FINALIZE: one turn of the
-- driver in each. What a turn asks of the world is a record of answers, `none` or `false` for an error.
use local_engineer.Prelude.{
  suc, Bool, true, false, not, ◌&&◌, ◌||◌, List, [], ◌∷◌, ◌++◌, Option, none, some, leb,
  if◌then◌else◌, any, is_empty, ◌==◌, ◌then_check◌,
}
use local_engineer.GoStrings.{Text, text_eq}
use local_engineer.Graph.{Impact}
use local_engineer.Worktree.{FileSystem}
use local_engineer.Firewall.{Access, check_access}
use local_engineer.Recipe.{Preset, RunResult}
use local_engineer.Workflow.{Phase}
use local_engineer.Workflow.Plan.{
  Plan, PlanError, validate, validate_obligations, validate_regeneration,
}
use local_engineer.Workflow.Failure.{environmental}
use local_engineer.Task.{State}
use local_engineer.Task.Verify.{
  Transcript, no_transcript, Work, Why, index_stale, environment, prefix_unknown,
  localization_failed, grant_denied, drifted_transcript, attempts_exhausted, engine_failed,
  not_declared_done, replans_exhausted, review_failed, review_rejected, Turn, crashed, stopped,
  moved, World, move,
}

-- INTAKE, LOCALIZE and IMPACT.
pub record Opening : Type 0 where
  pub discovered : Option (List Preset)
  pub refreshed : Bool
  pub baseline : Option (List RunResult)
  pub prefix_built : Bool
  pub localized : Bool
  pub impact : Option (Option Impact)

-- PLANNING: the plan that the model returns, and what it is checked against.
pub record Planner : Type 0 where
  pub planned : Option Plan
  pub scope : List Text
  pub files : FileSystem
  pub worktree : Text
  pub correction : Option PlanError → RunResult

-- EDIT: the answer of the engine.
pub record Response : Type 0 where
  pub transcript : Transcript
  pub exhausted : Bool
  pub claims_done : Bool
  pub summary : RunResult

pub record Editor : Type 0 where
  pub packed : Bool
  pub response : Option Response

-- REVIEW: the verdict and its findings.
pub record Reviewer : Type 0 where
  pub diff_read : Bool
  pub verdict : Option (Bool × RunResult)

-- The presets are frozen once.
unfoldable pub freeze : Opening → World → Work → (Work → Turn) → Turn
freeze o v w rest =
    if is_empty w.presets
    then elim o.discovered [
      | none ↦ stopped State.blocked Why.presets_unknown w
      | some presets ↦ if v.saves then rest (record w { presets = presets }) else crashed
    ]
    else rest w

unfoldable pub take_baseline : Opening → World → Work → Turn
take_baseline o v w =
    if not o.refreshed then stopped State.blocked index_stale w else elim o.baseline [
      | none ↦ crashed
      | some results ↦
          if any environmental results
          then stopped State.blocked environment (record w { baseline = results })
          else if not o.prefix_built
          then stopped State.blocked prefix_unknown (record w { baseline = results })
          else move v Phase.localize (record w { baseline = results })
    ]

unfoldable pub intake : Opening → World → Work → Turn
intake o v w = freeze o v w (take_baseline o v)

unfoldable pub localize : Opening → World → Work → Turn
localize o v w =
    if o.localized then move v Phase.impact w else stopped State.blocked localization_failed w

unfoldable pub assess : Opening → World → Work → Turn
assess o v w = elim o.impact [
  | none ↦ crashed
  | some impact ↦ move v Phase.planning (record w { impact = impact })
]

-- The three checks of a plan, the first error of them.
unfoldable pub plan_error : Planner → Work → Plan → Option PlanError
plan_error p w plan =
    validate plan p.scope
    then_check validate_obligations plan w.impact
    then_check validate_regeneration plan w.presets

-- A rejected plan is made again, within the bound on replans; the driver stays in PLANNING.
unfoldable pub plan_again : Planner → World → Option PlanError → Work → Turn
plan_again p v e w =
    if leb 2 w.replans
    then stopped State.blocked replans_exhausted w
    else if v.saves
    then moved (record w { replans = suc w.replans; feedback = p.correction e ∷ [] })
    else crashed

-- Every write grant must be one that the attempt may use.
unfoldable pub grants_allowed : Planner → World → List Text → List Text → Bool
grants_allowed p v scope [] = true
grants_allowed p v scope (file ∷ files) =
    let rest = grants_allowed p v scope files in
    let access : Access = record { write_scope = scope; protected = v.policies } in
    elim (check_access p.files access p.worktree file true) [ none ↦ rest | some denied ↦ false ]

unfoldable pub planning : Planner → World → Work → Turn
planning p v w = elim p.planned [
  | none ↦ plan_again p v none w
  | some plan ↦ elim (plan_error p w plan) [
    | some e ↦ plan_again p v (some e) w
    | none ↦
        if grants_allowed p v plan.write_allowlist plan.write_allowlist
        then move v Phase.edit (record w { plan = plan; edit = no_transcript })
        else stopped State.blocked grant_denied w
  ]
]

-- The turn after the engine has answered.
unfoldable pub edited : World → Response → Work → Turn
edited v r w =
    if r.exhausted
    then if leb w.edit.messages 2 || leb 2 w.replans
      then stopped State.blocked replans_exhausted w
      else move v Phase.planning
          (record w { replans = suc w.replans; feedback = w.feedback ++ r.summary ∷ [] })
    else if not r.claims_done
    then stopped State.blocked not_declared_done w
    else move v Phase.verify w

unfoldable pub drifted : Work → Bool
drifted w =
    not w.edit.pending
    && not (is_empty w.edit.candidate)
    && not (text_eq w.edit.candidate w.candidate)

-- A new attempt is counted when its transcript is empty.
abbrev pub counted : Work → Work
counted w = record w { attempts = if w.edit.messages == 0 then suc w.attempts else w.attempts }

unfoldable pub edit : Editor → World → Work → Turn
edit d v w =
    if drifted w
    then stopped State.blocked drifted_transcript w
    else if leb v.max_attempts w.attempts && w.edit.messages == 0
    then stopped State.failed attempts_exhausted w
    else if not d.packed
    then crashed
    else elim d.response [
      | none ↦ stopped State.blocked engine_failed (counted w)
      | some r ↦ edited v r (record (counted w) { edit = r.transcript })
    ]

unfoldable pub review : Reviewer → World → Work → Turn
review d v w = if not d.diff_read then crashed else elim d.verdict [
  | none ↦ stopped State.blocked review_failed w
  | some (true, findings) ↦ move v Phase.finalize w
  | some (false, findings) ↦
      if leb v.max_attempts w.attempts
      then stopped State.failed review_rejected w
      else move v Phase.edit (record w { feedback = findings ∷ []; edit = no_transcript })
]

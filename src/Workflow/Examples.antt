-- ===== src/Workflow/Examples.antt =====
-- Tests of the phases, the plans and the classes of failures, on one small task.
use local_engineer.Prelude.{◌≡◌, refl, ◌↔◌, false, List, [], ◌∷◌, ◌++◌, none, In, map}
use local_engineer.GoStrings.{Text, codes}
use local_engineer.Recipe.{Status, Kind, Preset, RunResult}
use local_engineer.Graph.{Evidence, EdgeKind, ChangeKind, Verdict, Consumer, Impact, no_counts}
use local_engineer.Workflow.{
  Phase, intake, localize, impact, planning, edit, verify, review, finalize, transition,
}
use local_engineer.Workflow.Order.{History, start, move, finalized_task}
use local_engineer.Workflow.Store.{save_workflow, save_all}
use local_engineer.Workflow.Store.History.{saved, finalized_journal}
use local_engineer.Workflow.Plan.{Plan, is_incomplete, validate}
use local_engineer.Workflow.Plan.Grants.{Grantable, validate_exact}

-- One pass through the phases, with one edit that verification sends back.
abbrev history : List Phase
history = finalize ∷ review ∷ verify ∷ edit ∷ verify ∷ edit ∷ planning ∷ impact ∷ localize ∷ []

past : History intake history finalize
unfolding transition
past =
    move
      (move
        (move (move (move (move (move (move (move start refl) refl) refl) refl) refl) refl) refl)
        refl)
      refl

finalized_task_example :
    In localize history
    × In impact history
    × In planning history
    × In edit history
    × In verify history
    × In review history
finalized_task_example = finalized_task past

-- The first save skips `INTAKE` and is refused; a later one skips a phase and is refused too.
abbrev saves : List (Phase × Text)
saves =
    (edit, [])
    ∷ (intake, [])
    ∷ (localize, [])
    ∷ (impact, [])
    ∷ (planning, [])
    ∷ (edit, [])
    ∷ (finalize, [])
    ∷ (verify, [])
    ∷ (review, [])
    ∷ (finalize, [])
    ∷ []

finalized_journal_example :
    In verify (map (λ r. r.to) (save_all (saved none []) saves).journal)
    × In review (map (λ r. r.to) (save_all (saved none []) saves).journal)
unfolding save_all save_workflow transition
finalized_journal_example = finalized_journal saves refl

abbrev plan : Plan
plan = record {
  root_cause = codes "nil map";
  files = codes "a.go" ∷ [];
  symbols = [];
  tests = codes "unit" ∷ [];
  contracts = [];
  write_allowlist = codes "a.go" ∷ [];
  risks = [];
  obligations =
      record { symbol = codes "g"; path = codes "a.go"; reason = []; resolution = codes "edit" }
      ∷ [];
  regenerate = codes "gen" ∷ [];
}

abbrev generator : Preset
generator = record {
  name = codes "gen";
  kind = Kind.generate;
  argv = [];
  dir = [];
  timeout_seconds = 60;
  parser = [];
}

validate_exact_example : (validate plan [] ≡ none) ↔ (
    (is_incomplete plan ≡ false)
    × ((f : Text) → In f (plan.files ++ plan.write_allowlist) → Grantable [] f)
    × ((f : Text) → In f plan.write_allowlist → In f plan.files))
validate_exact_example = validate_exact plan []

abbrev consumer : Consumer
consumer = record {
  node = record { id = 2; kind = []; name = codes "g"; fqn = codes "p.g"; path = codes "a.go" };
  depth = 1;
  via = EdgeKind.calls;
  evidence = Evidence.declared;
  verdict = Verdict.breaking;
  migration = [];
}

abbrev report : Impact
report = record {
  changed = [];
  kind = ChangeKind.signature;
  consumers = consumer ∷ [];
  counts = no_counts;
  truncated = false;
}

abbrev run_of : Status → Status → RunResult
run_of whole test = record {
  recipe = codes "unit";
  kind = Kind.test;
  status = whole;
  summary = record {
    tests = (codes "T", test) ∷ [];
    headline = [];
    findings = [];
    counts = [];
    truncated = false;
  };
  exit_code = 1;
  candidate = [];
  artifact_hash = [];
  error_text = [];
}

abbrev now_fails : RunResult
now_fails = run_of Status.fail Status.fail

abbrev passed_once : RunResult
passed_once = run_of Status.fail Status.pass

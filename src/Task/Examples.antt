-- ===== src/Task/Examples.antt =====
-- Tests of the states of a task and of a turn in VERIFY.
use local_engineer.Prelude.{◌≡◌, refl, true, false, List, [], ◌∷◌, none, some}
use local_engineer.GoStrings.{codes, text_eq, contains, to_lower, has_prefix}
use local_engineer.Policy.{check}
use local_engineer.Recipe.{Status, Kind, Preset, RunResult}
use local_engineer.Recipe.Acceptance.{check_presets, failed_only, missing_presets, latest}
use local_engineer.Workflow.{Phase, transition}
use local_engineer.Workflow.Plan.{Plan, regenerates_generated}
use local_engineer.Workflow.Failure.{environmental, failure_text}
use local_engineer.Task.{State, Row}
use local_engineer.Task.Verify.{
  no_transcript, Work, World, moved, verify, judge, decide, acceptable, strays, accept, move,
}
use local_engineer.Task.Verify.Evidence.{Accepted, Ran, review_needs_evidence}

abbrev broken_task : Row
broken_task = record {
  id = codes "t";
  title = codes "fix it";
  state = State.failed;
  updated_at = 1;
  finished_at = some 1;
}

abbrev other_task : Row
other_task = record {
  id = codes "u";
  title = codes "tidy up";
  state = State.accepted;
  updated_at = 2;
  finished_at = some 2;
}

abbrev tasks : List Row
tasks = other_task ∷ broken_task ∷ []

abbrev pub result : RunResult
result = record {
  recipe = codes "unit";
  kind = Kind.test;
  status = Status.pass;
  summary = record { tests = []; headline = []; findings = []; counts = []; truncated = false };
  exit_code = 0;
  candidate = codes "c";
  artifact_hash = [];
  error_text = [];
}

abbrev preset : Preset
preset = record {
  name = codes "unit";
  kind = Kind.test;
  argv = [];
  dir = [];
  timeout_seconds = 60;
  parser = [];
}

abbrev pub plan : Plan
plan = record {
  root_cause = [];
  files = [];
  symbols = [];
  tests = [];
  contracts = [];
  write_allowlist = [];
  risks = [];
  obligations = [];
  regenerate = [];
}

abbrev pub work : Work
work = record {
  phase = Phase.verify;
  candidate = codes "c";
  finalization_candidate = [];
  attempts = 1;
  replans = 0;
  verify_loops = 1;
  regressions = 0;
  plan = plan;
  presets = preset ∷ [];
  baseline = [];
  results = [];
  feedback = [];
  failures = [];
  failure_history = [];
  impact = none;
  edit = no_transcript;
}

abbrev pub world : World
world = record {
  run = some (result ∷ []);
  rerun = none;
  candidate_after = none;
  out_of_scope = some [];
  changed = some (codes "a.go" ∷ []);
  obligations = some [];
  impact_of_change = none;
  resets = true;
  saves = true;
  policies = record { policies = [] };
  max_attempts = 3;
  fingerprint_of = λ r. ([], []);
  finding = λ rs. result;
}

abbrev reviewed : Work
reviewed = record work { phase = Phase.review; verify_loops = 2; results = result ∷ [] }

pub goes_to_review : verify world work ≡ moved reviewed
unfolding verify judge decide acceptable strays accept move environmental contains failure_text
    to_lower has_prefix failed_only check_presets missing_presets latest text_eq
    regenerates_generated check transition
goes_to_review = refl

review_needs_evidence_example : Accepted world reviewed × Ran world reviewed
review_needs_evidence_example = review_needs_evidence world work reviewed goes_to_review refl

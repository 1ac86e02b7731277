-- ===== src/Recipe/Examples.antt =====
-- Tests of the acceptance by frozen presets: the last result of a recipe counts.
use local_engineer.Prelude.{false, List, [], ◌∷◌}
use local_engineer.GoStrings.{codes}
use local_engineer.Recipe.{Status, Kind, Preset, RunResult}

abbrev run_of : Status → RunResult
run_of status = record {
  recipe = codes "unit";
  kind = Kind.test;
  status = status;
  summary = record { tests = []; headline = []; findings = []; counts = []; truncated = false };
  exit_code = 0;
  candidate = codes "c";
  artifact_hash = [];
  error_text = [];
}

abbrev presets : List Preset
presets =
    record {
      name = codes "unit";
      kind = Kind.test;
      argv = [];
      dir = [];
      timeout_seconds = 60;
      parser = [];
    }
    ∷ []

abbrev results : List RunResult
results = run_of Status.pass ∷ run_of Status.fail ∷ []

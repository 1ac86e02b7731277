-- ===== src/Supervisor/Examples.antt =====
-- A task that is verified twice, and a status of git with a rename.
use local_engineer.Prelude.{
  ℕ, ◌≡◌, refl, true, false, List, [], ◌∷◌, ◌++◌, none, some, if◌then◌else◌, sort_by,
}
use local_engineer.GoStrings.{Text, codes, text_eq, text_lt, split, has_prefix, trim_space}
use local_engineer.Task.{State, Row}
use local_engineer.Supervisor.{Codec, Outcome, Moment, Store, record_of}
use local_engineer.GitStatus.{parse_porcelain, paths_of, line_path, cut_after, trim_returns}
use local_engineer.Supervisor.Finish.{reviewed_verdict, final_state}
use local_engineer.Supervisor.Verdicts.{Event, answered, checked, judge_all}

parse_porcelain_runs :
    parse_porcelain (codes " M limit.go\nR  old.go -> a.go\n?? \n")
    ≡ codes "a.go" ∷ codes "limit.go" ∷ []
unfolding parse_porcelain paths_of line_path cut_after trim_returns split has_prefix trim_space
    text_lt sort_by
parse_porcelain_runs = refl

abbrev refused : Outcome
refused = record {
  accepted = false;
  candidate = codes "c1";
  reasons = codes "vet failed" ∷ [];
  out_of_scope = [];
  results = [];
}

abbrev passed : Outcome
passed = record {
  accepted = true;
  candidate = codes "c2";
  reasons = [];
  out_of_scope = [];
  results = [];
}

-- Reads the two records above by their text.
abbrev codec : Codec
codec = record {
  started = λ t. some t;
  decision = λ q a. some (q ++ a);
  read_decision = λ t. none;
  verification = λ r. some r.candidate;
  read_verification = λ t.
      if text_eq t (codes "c1")
      then some (record_of refused)
      else if text_eq t (codes "c2")
      then some (record_of passed)
      else none;
  review = λ r. some [];
}

abbrev at : ℕ → Moment
at n = record { begun_at = n; begins = true; completed_at = n; completes = true }

abbrev id : Text
id = codes "oc1"

abbrev row : Row
row = record {
  id = id;
  title = codes "limit";
  state = State.pending;
  updated_at = 1;
  finished_at = none;
}

abbrev store : Store
store = record { tasks = row ∷ []; journal = record { rows = []; next_id = 1 } }

abbrev reported : List (Moment × Text × Event)
reported =
    (at 2, id, checked (some refused))
    ∷ (at 3, id, answered (codes "Keep the old name?") (codes "yes"))
    ∷ (at 4, id, checked (some passed))
    ∷ []

judge_all_runs : final_state (reviewed_verdict (judge_all id reported none)) ≡ State.accepted
unfolding judge_all text_eq
judge_all_runs = refl

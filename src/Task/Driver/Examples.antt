-- ===== src/Task/Driver/Examples.antt =====
-- Tests of the driver and of the end of a task, on the task of local_engineer.Task.Examples.
use local_engineer.Prelude.{
  ℕ, suc, ◌+◌, ◌≤◌, not, is_empty, ◌≡◌, ◌≢◌, refl, true, false, [], ◌∷◌, none, some, arith,
}
use local_engineer.GoStrings.{codes, text_eq, split, has_prefix}
use local_engineer.Worktree.{Links}
use local_engineer.Firewall.{check_diff_secrets, check_lines, credential_pattern}
use local_engineer.Prelude.{ok}
use local_engineer.Ledger.Journal.{begin, max_seq, complete, finish, update}
use local_engineer.Workflow.{Phase}
use local_engineer.Task.{State}
use local_engineer.Task.Verify.{Work, Why, stopped, moved}
use local_engineer.Task.Finalize.{
  approved, Closing, verified_candidate, commit, ask, scan, write_card, finalize,
}
use local_engineer.Task.Finalize.Approval.{Scanned, Committed, Final, finalize-accepted}
use local_engineer.Task.Driver.{Answers, unfinished, ended, turn, in_phase, drive}
use local_engineer.Task.Driver.Termination.{drive-ne-unfinished}
use local_engineer.Task.Driver.Loops.{verify_turns, verify_turns_bounded}
use local_engineer.Task.Driver.Acceptance.{Runs, start, after, Accepts, drive-Approved}
use local_engineer.Task.Examples.{work, world, result, goes_to_review}

abbrev closing : Closing
closing = record {
  card_written = true;
  candidate_with_card = some (codes "d");
  diff = some [];
  gate = some approved;
  candidate_at_gate = some (codes "d");
  task_id = codes "t";
  journal = record { rows = []; next_id = 1 };
  begun_at = 5;
  begins = true;
  intent = some (codes "commit");
  git_commits = λ j. not (is_empty j.rows);
  completed_at = 6;
  completes = true;
  outcome = some (codes "done");
}

abbrev reviewed : Work
reviewed = record work { phase = Phase.finalize; results = result ∷ [] }

abbrev committed : Work
committed = record reviewed { finalization_candidate = codes "d"; candidate = codes "d" }

ending : finalize closing world reviewed ≡ stopped State.accepted Why.finalized committed
unfolding begin max_seq complete finish update finalize write_card scan ask commit text_eq
    check_diff_secrets check_lines credential_pattern split has_prefix
ending = refl

finalize-accepted_example :
    (verified_candidate reviewed ≡ reviewed.candidate)
    × Scanned closing
    × Committed closing committed
    × Final closing reviewed committed
finalize-accepted_example = finalize-accepted closing world reviewed committed Why.finalized ending

-- A world in which planning never succeeds.
abbrev answers : ℕ → Answers
answers n = record {
  out_of_time = false;
  out_of_tokens = false;
  candidate = some (codes "c");
  opening = record {
    discovered = none;
    refreshed = true;
    baseline = some [];
    prefix_built = true;
    localized = true;
    impact = some none;
  };
  planner = record {
    planned = none;
    scope = [];
    files = record {
      eval_symlinks = λ p. Links.resolved p;
      is_symlink = λ p. false;
      read_file = λ p. ok [];
      exists = λ p. true;
    };
    worktree = codes "/w";
    correction = λ e. result;
  };
  editor = record { packed = true; response = none };
  reviewer = record { diff_read = true; verdict = none };
  world = world;
  closing = closing;
}

drive-ne-unfinished_example :
    drive answers 69 (record work { phase = Phase.planning; verify_loops = 0 }) ≢ unfinished
drive-ne-unfinished_example =
    drive-ne-unfinished answers 69 (record work { phase = Phase.planning; verify_loops = 0 })
      (omega arith)

acceptance :
    drive answers 1 (record reviewed { finalization_candidate = [] })
    ≡ ended State.accepted Why.finalized committed
unfolding begin max_seq complete finish update drive turn in_phase finalize write_card scan ask
    commit text_eq check_diff_secrets check_lines credential_pattern split has_prefix
acceptance = refl

drive-Approved_example :
    (n : ℕ) × (u : Work) × Runs answers 1
      (record reviewed { finalization_candidate = [] })
      (suc n)
      u
    × Accepts (answers n) u Why.finalized committed
drive-Approved_example =
    drive-Approved answers 1 (record reviewed { finalization_candidate = [] }) committed
      Why.finalized acceptance

abbrev to_review : Work
to_review = record work { phase = Phase.review; verify_loops = 2; results = result ∷ [] }

-- A turn of VERIFY that goes on to REVIEW.
goes_on : turn (answers 0) work ≡ moved to_review
unfolding turn in_phase
goes_on = goes_to_review

abbrev one_turn : Runs answers 1 work 0 to_review
one_turn = after goes_on start

verify_turns_bounded_example :
    (verify_turns answers one_turn + work.verify_loops ≤ to_review.verify_loops)
    × (to_review.verify_loops ≤ 4)
    × (drive answers 1 work ≡ drive answers 0 to_review)
verify_turns_bounded_example =
    verify_turns_bounded answers 1 0 work to_review one_turn (omega arith)

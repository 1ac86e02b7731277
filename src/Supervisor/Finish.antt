-- ===== src/Supervisor/Finish.antt =====
-- FinishTask of internal/supervisor/lifecycle.go: the review of a task and its last state. The output of
-- git and the policies are arguments.
use local_engineer.Prelude.{
  ℕ, Bool, List, [], ◌∷◌, ◌++◌, Option, none, some, if◌then◌else◌, is_empty, length, map,
}
use local_engineer.GoStrings.{Text, codes}
use local_engineer.Policy.{PolicySet, check}
use local_engineer.Ledger.Journal.{OpKind, Journal, JournalError}
use local_engineer.Task.{State, Row, get, set_state}
use local_engineer.GitStatus.{parse_porcelain}
use local_engineer.Supervisor.{
  Decision, CheckResult, VerificationRecord, Verdict, verified, unverified, not_verified, Review,
  Codec, SupervisorError, no_task, not_journalled, not_set, Moment, record_event, Store, decisions,
  last_verification,
}

-- `changedFiles`, on the output of git, `none` where git fails.
abbrev pub changed_files : Option Text → List Text
changed_files none = []
changed_files (some out) = parse_porcelain out

-- `protectedViolations`, on the policies that are loaded, `none` where loading fails.
abbrev pub protected_violations : Option PolicySet → List Text → List Text
protected_violations none changed = []
protected_violations (some set) changed = map (λ v. v.path) (check set changed)

abbrev pub reviewed_verdict : Option VerificationRecord → Verdict
reviewed_verdict none = unverified
reviewed_verdict (some r) = if r.accepted then verified else not_verified

abbrev pub verdict_warnings : Option VerificationRecord → List Text
verdict_warnings none =
    codes "this task was finished without a verification run, so nothing checked the work" ∷ []
verdict_warnings (some r) = if r.accepted then [] else r.reasons

abbrev pub checks_of : Option VerificationRecord → List CheckResult
checks_of none = []
checks_of (some r) = r.checks

abbrev pub outside_of : Option VerificationRecord → List Text
outside_of none = []
outside_of (some r) = r.out_of_scope

abbrev pub unchanged_warning : List Text → List Text
unchanged_warning files =
    if is_empty files
    then codes "the working tree is unchanged: this task recorded no edits" ∷ []
    else []

abbrev pub protected_warning : List Text → List Text
protected_warning violations =
    if is_empty violations
    then []
    else codes "files this repository protects were changed; review them before committing" ∷ []

-- The review that `FinishTask` builds.
unfoldable pub review_of :
    ℕ → Row → List Decision → Option VerificationRecord → Option Text → Option PolicySet → Review
review_of now t decisions last git policies =
    let files = changed_files git in
    let violations = protected_violations policies files in
    record {
      task_id = t.id;
      intent = t.title;
      verdict = reviewed_verdict last;
      decisions = decisions;
      files_changed_count = length files;
      files_changed = files;
      checks = checks_of last;
      protected = outside_of last ++ violations;
      warnings = verdict_warnings last ++ unchanged_warning files ++ protected_warning violations;
      finished_at = now;
    }

abbrev pub final_state : Verdict → State
final_state verified = State.accepted
final_state unverified = State.failed
final_state not_verified = State.failed

module _ (codec : Codec) where
  -- The end of `FinishTask`, once its review is recorded.
  abbrev pub settle :
      ℕ
      → Bool
      → Text
      → Review
      → Option JournalError × Journal
      → Store
      → Option Review × Option SupervisorError × Store
  settle now sets id rev (some e, j) s =
      (some rev, some (not_journalled e), record s { journal = j })
  settle now sets id rev (none, j) s =
      if sets
      then (
        some rev,
        none,
        record { tasks = set_state now id (final_state rev.verdict) s.tasks; journal = j },
      )
      else (some rev, some not_set, record s { journal = j })

  -- `FinishTask`: what git and the policies say, and whether the new state of the task is committed.
  unfoldable pub finish_task :
      ℕ
      → Bool
      → Moment
      → Option Text
      → Option PolicySet
      → Text
      → Store
      → Option Review × Option SupervisorError × Store
  finish_task now sets m git policies id s = elim (get id s.tasks) [
    | none ↦ (none, some (no_task id), s)
    | some t ↦
        let rev =
          review_of now t (decisions codec id s.journal) (last_verification codec id s.journal) git
            policies in
        settle now sets id rev (record_event m id OpKind.review (codec.review rev) s.journal) s
  ]

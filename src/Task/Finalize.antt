-- ===== src/Task/Finalize.antt =====
-- The FINALIZE case of runPhases in internal/task/phases.go: the candidate is checked once more, the
-- card of the task is written, the diff is scanned, the operator is asked, and the change is committed
-- under a row of the journal.
pub mod Approval
use local_engineer.Prelude.{
  ℕ, ◌≡◌, ◌≢◌, refl, sym, ap, ◌∙◌, ◌⊎◌, inl, inr, Bool, true, false, not, ◌&&◌, ◌||◌, List, [], ◌∷◌,
  Option, none, some, if◌then◌else◌, is_empty, arith, Option-cases, Bool-cases, Result, ok, err,
}
use local_engineer.GoStrings.{Text, text_eq, text_eq_iff}
use local_engineer.Firewall.{check_diff_secrets}
use local_engineer.Ledger.Journal.{OpKind, Journal, begin, complete}
use local_engineer.Recipe.{RunResult}
use local_engineer.Task.{State}
use local_engineer.Task.Verify.{Work, World, Why, Turn, crashed, stopped, moved}

-- The answer at the final gate; `Ask` of internal/broker gives one of these three.
pub data Gate : Type 0 where
  rejected waiting approved : Gate

-- `intent` and `outcome` are the JSON of the commit's row. Whether git commits may depend on what the
-- journal holds at that time.
pub record Closing : Type 0 where
  pub card_written : Bool
  pub candidate_with_card : Option Text
  pub diff : Option Text
  pub gate : Option Gate
  pub candidate_at_gate : Option Text
  pub task_id : Text
  pub journal : Journal
  pub begun_at : ℕ
  pub begins : Bool
  pub intent : Option Text
  pub git_commits : Journal → Bool
  pub completed_at : ℕ
  pub completes : Bool
  pub outcome : Option Text

abbrev first_candidate : List RunResult → Text
first_candidate [] = []
first_candidate (r ∷ rs) = r.candidate

-- `verifiedCandidate`.
abbrev pub verified_candidate : Work → Text
verified_candidate w =
    if is_empty w.finalization_candidate
    then first_candidate w.results
    else w.finalization_candidate

-- The row of a commit that fails is interrupted, which nothing here reads.
unfoldable pub commit : Closing → Work → Turn
commit c w =
    elim (begin c.begun_at c.begins c.task_id OpKind.decision c.intent w.candidate c.journal) [
      | err e ↦ crashed
      | ok (h, begun) ↦
          if not (c.git_commits begun)
          then stopped State.blocked Why.commit_failed w
          else elim (complete c.completed_at c.completes c.outcome w.candidate [] h begun) [
            | err e ↦ crashed
            | ok (h', done) ↦ stopped State.accepted Why.finalized w
          ]
    ]

unfoldable pub ask : Closing → Work → Turn
ask c w = elim c.gate [
  | none ↦ crashed
  | some rejected ↦ stopped State.failed Why.rejected_at_gate w
  | some waiting ↦ stopped State.in_review Why.awaiting_approval w
  | some approved ↦ elim c.candidate_at_gate [
    | none ↦ crashed
    | some current ↦
        if text_eq current w.candidate
        then commit c w
        else stopped State.blocked Why.candidate_changed w
  ]
]

unfoldable pub scan : Closing → Work → Turn
scan c w = elim c.diff [
  | none ↦ crashed
  | some diff ↦ elim (check_diff_secrets diff) [
    | some file ↦ stopped State.blocked Why.secret_in_diff w
    | none ↦ ask c w
  ]
]

-- The card changes the candidate, so that the one it gives is what is finalized; it is written once.
unfoldable pub write_card : Closing → World → Work → Turn
write_card c v w =
    if not (is_empty w.finalization_candidate)
    then scan c w
    else if not c.card_written
    then stopped State.blocked Why.card_failed w
    else elim c.candidate_with_card [
      | none ↦ crashed
      | some final ↦
          if v.saves
          then scan c (record w { finalization_candidate = final; candidate = final })
          else crashed
    ]

unfoldable pub finalize : Closing → World → Work → Turn
finalize c v w =
    if is_empty (verified_candidate w) || not (text_eq (verified_candidate w) w.candidate)
    then stopped State.blocked Why.candidate_changed w
    else write_card c v w

-- ===== src/Ledger/Examples.antt =====
-- Tests of the leases, the journal and the recovery, on one worktree and two instances.
use local_engineer.Prelude.{
  ℕ, ◌≡◌, refl, inl, Bool, true, false, List, [], ◌∷◌, none, some, arith, err,
}
use local_engineer.GoStrings.{Text, codes, text_eq}
use local_engineer.Ledger.Lease
use local_engineer.Ledger.Lease.{
  Leases, acquire_lease, LeaseError, held, find, upsert, ttl_or_default,
}
use local_engineer.Ledger.Lease.Exclusion.{mutual_exclusion}
use local_engineer.Ledger.Journal
use local_engineer.Ledger.Journal.{
  OpKind, Operation, Journal, Handle, JournalError, already_finished, begin, finish, interrupted,
  uncertain, max_seq, find_row, new_row, update,
}
use local_engineer.Ledger.Journal.Certainty.{Pending, crash_leaves_uncertain}
use local_engineer.Ledger.Recover.{
  EditIntent, FileHash, WorkingState, Source, read_kind, read_ops, edited, recover_task,
}
use local_engineer.Ledger.Recover.Resume.{Shows, Recorded, recovered_edits}

abbrev worktree : Text
worktree = codes "wt"

abbrev alice : Text
alice = codes "a"

abbrev bob : Text
bob = codes "b"

abbrev claimed : Lease.Lease
claimed = record { worktree_id = worktree; task_id = codes "t"; holder = alice; expires_at = 110 }

-- Between the two claims, the other instance tries to renew and to release the lease.
abbrev others : List (ℕ × Lease.Call)
others = (101, Lease.renews worktree bob 50) ∷ (102, Lease.releases worktree bob) ∷ []

mutual_exclusion_example :
    acquire_lease 105 worktree (codes "u") bob 20 (Lease.run (claimed ∷ []) others)
    ≡ err (held alice worktree 110)
unfolding text_eq acquire_lease find upsert
mutual_exclusion_example =
    mutual_exclusion 100 worktree (codes "t") alice 10 [] (claimed ∷ []) claimed others 105
      (codes "u") bob 20 refl ((refl, omega arith), ((refl, omega arith), tt)) refl (omega arith)

abbrev empty : Journal
empty = record { rows = []; next_id = 1 }

abbrev intent : Text
intent = codes "edit"

abbrev begun_row : Operation
begun_row = new_row 5 (codes "t") OpKind.edit intent (codes "c0") empty

abbrev begun : Journal
begun = record { rows = begun_row ∷ []; next_id = 2 }

abbrev handle : Handle
handle = record { id = 1; seq = 1; task_id = codes "t"; kind = OpKind.edit; done = false }

abbrev spent : Handle
spent = record handle { done = true }

-- The operation is interrupted, and another one begins.
abbrev calls : List (ℕ × Bool × Journal.Call)
calls =
    (6, true, Journal.interrupts handle none)
    ∷ (7, true, Journal.begins (codes "t") OpKind.search (some (codes "q")) [])
    ∷ []

crash_leaves_uncertain_example : Pending 1 intent (Journal.run begun calls)
unfolding begin max_seq
crash_leaves_uncertain_example =
    crash_leaves_uncertain 5 (codes "t") OpKind.edit intent (codes "c0") empty begun handle calls
      refl (tt, (tt, tt))

abbrev finished : Journal
finished = record begun {
  rows = Journal.finished_row 6 (codes "ok") (codes "c1") [] begun_row ∷ [];
}

abbrev wanted : EditIntent
wanted = record { path = codes "a.go"; after_hash = codes "h1"; before_hash = codes "h0" }

-- Every intent decodes to the one edit, and the file holds its result.
abbrev source : Source
source = record {
  edit_intent = λ t. some wanted;
  inspected_path = λ t. none;
  searched_symbols = λ t. none;
  accepted = λ t. true;
  hash_file = λ p. FileHash.hashed (codes "h1");
}

abbrev resting : WorkingState
resting = record {
  objective = [];
  investigated_files = [];
  investigated_symbols = [];
  decisions = [];
  rejected_hypotheses = [];
  completed_edits = [];
  validations = [];
  remaining_plan = codes "next" ∷ [];
  current_candidate = [];
  last_completed_candidate = [];
  drifted = false;
  uncertain_ops = [];
}

shown : Shows source true begun_row wanted (codes "h1")
shown = (refl, refl, refl, refl, refl)

recovered_edits_example : Recorded source finished.rows wanted
unfolding recover_task read_ops read_kind edited
recovered_edits_example =
    recovered_edits source (codes "c1") finished.rows none [] wanted (inl refl)

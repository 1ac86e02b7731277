-- ===== src/Ledger/Recover.antt =====
-- internal/ledger/recover.go: the reconstruction of a task after a crash. The JSON decoders and the
-- digest of a file in the worktree are parameters; the messages for people are a data type. Dates
-- and the checkpoint's sequence number are left out, and a query that fails ends the call with its
-- error before anything that is modelled here.
pub mod Resume
use local_engineer.Prelude.{
  ℕ, suc, Bool, true, false, not, ◌&&◌, ◌||◌, List, [], ◌∷◌, ◌++◌, Option, none, some, ltb,
  if◌then◌else◌, is_empty, any, all, sort_by, map,
}
use local_engineer.GoStrings.{Text, text_eq, text_lt}
use local_engineer.Ledger.Journal.{
  OpKind, inspect_file, search, retrieval, decision, edit, recipe_run, Operation, uncertain,
}

pub data Applied : Type 0 where
  complete partial not_applied unknown : Applied

pub record EditIntent : Type 0 where
  pub path : Text
  pub after_hash : Text
  pub before_hash : Text

-- Why an operation got its class: the texts of `Detail`.
pub data Detail : Type 0 where
  recheck_recipe read_only no_path no_worktree absent : Detail
  unreadable : Text → Detail
  matches_after matches_before matches_neither : Detail

pub record Reconciliation : Type 0 where
  pub operation : Operation
  pub applied : Applied
  pub detail : Detail
  pub interrupted : Option Text

pub record EvidenceStatus : Type 0 where
  pub id : Text
  pub kind : Text
  pub status : Text
  pub candidate : Text
  pub stale : Bool

-- What `hashFile` answers.
pub data FileHash : Type 0 where
  hashed : Text → FileHash
  not_exist : FileHash
  failed : Text → FileHash

pub record Handoff : Type 0 where
  pub objective : Text
  pub remaining_plan : List Text
  pub next_action : Option Text

-- The texts of `nextAction`, and the one that a checkpoint hands over.
pub data Action : Type 0 where
  handed_over : Text → Action
  reconcile_partial : ℕ → Action
  revalidate_drifted revalidate_stale : Action
  continue_with : Text → Action
  replan : Action

pub record WorkingState : Type 0 where
  pub objective : Text
  pub investigated_files : List Text
  pub investigated_symbols : List Text
  pub decisions : List Text
  pub rejected_hypotheses : List Text
  pub completed_edits : List EditIntent
  pub validations : List EvidenceStatus
  pub remaining_plan : List Text
  pub current_candidate : Text
  pub last_completed_candidate : Text
  pub drifted : Bool
  pub uncertain_ops : List Reconciliation

abbrev pub is_partial : Reconciliation → Bool
is_partial r = elim r.applied [ partial ↦ true | _ ↦ false ]

-- `SafeToResume`.
unfoldable pub safe_to_resume : WorkingState → Bool
safe_to_resume st = not (any is_partial st.uncertain_ops) && not st.drifted

-- `nextAction`, the first of its loops that hits.
unfoldable pub first_partial : List Reconciliation → Option ℕ
first_partial [] = none
first_partial (r ∷ rs) =
    let rest = first_partial rs in if is_partial r then some r.operation.seq else rest

abbrev plan_head : List Text → Action
plan_head [] = replan
plan_head (step ∷ steps) = continue_with step

unfoldable pub next_action : WorkingState → Action
next_action st = elim (first_partial st.uncertain_ops) [
  | some seq ↦ reconcile_partial seq
  | none ↦
      if st.drifted
      then revalidate_drifted
      else if any (λ v. v.stale) st.validations
      then revalidate_stale
      else plan_head st.remaining_plan
]

-- What the reconstruction reads that is not in the journal.
pub record Source : Type 0 where
  pub edit_intent : Text → Option EditIntent
  pub inspected_path : Text → Option Text
  pub searched_symbols : Text → Option (List Text)
  pub accepted : Text → Bool
  pub hash_file : Text → FileHash

abbrev pub cause_of : Operation → Option Text
cause_of op = if is_empty op.cause then none else some op.cause

abbrev verdict : Operation → Applied → Detail → Reconciliation
verdict op a d = record { operation = op; applied = a; detail = d; interrupted = cause_of op }

unfoldable pub classify_hash : Operation → EditIntent → FileHash → Reconciliation
classify_hash op ei not_exist = verdict op not_applied absent
classify_hash op ei (failed why) = verdict op unknown (unreadable why)
classify_hash op ei (hashed got) =
    if text_eq got ei.after_hash
    then verdict op complete matches_after
    else if text_eq got ei.before_hash
    then verdict op not_applied matches_before
    else verdict op partial matches_neither

unfoldable pub inspect_edit : Source → Bool → Operation → Option EditIntent → Reconciliation
inspect_edit src has_worktree op none = verdict op unknown no_path
inspect_edit src has_worktree op (some ei) =
    if is_empty ei.path
    then verdict op unknown no_path
    else if not has_worktree
    then verdict op unknown no_worktree
    else classify_hash op ei (src.hash_file ei.path)

unfoldable pub inspect_kind : OpKind → Source → Bool → Operation → Reconciliation
inspect_kind edit src has_worktree op = inspect_edit src has_worktree op (src.edit_intent op.intent)
inspect_kind recipe_run src has_worktree op = verdict op unknown recheck_recipe
inspect_kind _ src has_worktree op = verdict op unknown read_only

-- `inspect`.
unfoldable pub inspect : Source → Bool → Operation → Reconciliation
inspect src has_worktree op = inspect_kind op.kind src has_worktree op

-- Step 1 of `RecoverTask`: the uncertain operations, and the last recorded candidate.
unfoldable pub reconcile : Source → Bool → List Operation → List Reconciliation
reconcile src has_worktree [] = []
reconcile src has_worktree (op ∷ ops) =
    let rest = reconcile src has_worktree ops in
    if uncertain op then inspect src has_worktree op ∷ rest else rest

unfoldable pub last_candidate : Text → List Operation → Text
last_candidate last [] = last
last_candidate last (op ∷ ops) =
    last_candidate
      (if not (uncertain op) && not (is_empty op.candidate_after) then op.candidate_after else last)
      ops

unfoldable pub has_drifted : Text → Text → Bool
has_drifted last current =
    not (is_empty last) && not (is_empty current) && not (text_eq last current)

-- A set of texts, as the keys of a map, in order.
insert_text : Text → List Text → List Text
insert_text s seen = if any (text_eq s) seen then seen else s ∷ seen

insert_texts : List Text → List Text → List Text
unfolding insert_text
insert_texts [] seen = seen
insert_texts (s ∷ ss) seen = insert_texts ss (insert_text s seen)

inspected : Option Text → List Text → List Text
unfolding insert_text
inspected none files = files
inspected (some path) files = if is_empty path then files else insert_text path files

searched : Option (List Text) → List Text → List Text
unfolding insert_texts
searched none symbols = symbols
searched (some found) symbols = insert_texts found symbols

unfoldable pub edited : Operation → Option EditIntent → List EditIntent → List EditIntent
edited op none edits = edits
edited op (some ei) edits = if uncertain op || is_empty ei.path then edits else edits ++ ei ∷ []

-- Step 2: the switch over the kinds.
unfoldable pub read_kind : OpKind → Source → Operation → WorkingState → WorkingState
unfolding inspected searched edited
read_kind inspect_file src op st = record st {
  investigated_files = inspected (src.inspected_path op.intent) st.investigated_files;
}
read_kind search src op st = record st {
  investigated_symbols = searched (src.searched_symbols op.intent) st.investigated_symbols;
}
read_kind retrieval src op st = record st {
  investigated_symbols = searched (src.searched_symbols op.intent) st.investigated_symbols;
}
read_kind decision src op st =
    if src.accepted op.intent
    then record st { decisions = st.decisions ++ op.intent ∷ [] }
    else record st { rejected_hypotheses = st.rejected_hypotheses ++ op.intent ∷ [] }
read_kind edit src op st = record st {
  completed_edits = edited op (src.edit_intent op.intent) st.completed_edits;
}
read_kind _ src op st = st

unfoldable pub read_ops : Source → List Operation → WorkingState → WorkingState
unfolding read_kind
read_ops src [] st = st
read_ops src (op ∷ ops) st = read_ops src ops (read_kind op.kind src op st)

-- `evidenceFor`: evidence for an older candidate is stale.
unfoldable pub mark_stale : Text → EvidenceStatus → EvidenceStatus
mark_stale candidate e = record e {
  stale =
      not (is_empty candidate) && not (is_empty e.candidate) && not (text_eq e.candidate candidate);
}

abbrev handed : Option Handoff → WorkingState → WorkingState
handed none st = st
handed (some h) st = record st { objective = h.objective; remaining_plan = h.remaining_plan }

abbrev handed_action : Option Handoff → Option Text
handed_action none = none
handed_action (some h) = h.next_action

abbrev action_or : Option Text → Action → Action
action_or none next = next
action_or (some handed) next = handed_over handed

abbrev sorted_sets : WorkingState → WorkingState
sorted_sets st = record st {
  investigated_files = sort_by text_lt st.investigated_files;
  investigated_symbols = sort_by text_lt st.investigated_symbols;
}

-- `RecoverTask`. `current` is the manifest of the worktree, the empty text where there is none.
unfoldable pub recover_task :
    Source → Text → List Operation → Option Handoff → List EvidenceStatus → WorkingState × Action
recover_task src current ops handoff evidence =
    let reconciled : WorkingState = record {
      objective = [];
      investigated_files = [];
      investigated_symbols = [];
      decisions = [];
      rejected_hypotheses = [];
      completed_edits = [];
      validations = [];
      remaining_plan = [];
      current_candidate = current;
      last_completed_candidate = last_candidate [] ops;
      drifted = has_drifted (last_candidate [] ops) current;
      uncertain_ops = reconcile src (not (is_empty current)) ops;
    } in
    let rebuilt = sorted_sets (read_ops src ops (handed handoff reconciled)) in
    let st = record rebuilt { validations = map (mark_stale current) evidence } in
    (st, action_or (handed_action handoff) (next_action st))

-- ===== src/Ledger/Recover/Resume.antt =====
-- What recovery concludes from a worktree, and when it lets a task go on.
use local_engineer.Prelude.{
  ℕ, ◌≡◌, ◌≢◌, refl, sym, ◌↔◌, ◌⊎◌, inl, inr, Bool, true, false, ◌||◌, List, [], ◌∷◌, Option, none,
  some, arith, In, any, is_empty, Bool-cases, In-append, subst, ap,
}
use local_engineer.GoStrings.{Text, text_eq_iff}
use local_engineer.Ledger.Journal.{OpKind, edit, Operation, uncertain, decision}
use local_engineer.Ledger.Recover.{
  Applied, complete, partial, not_applied, EditIntent, Reconciliation, FileHash, hashed, not_exist,
  failed, Handoff, Action, continue_with, replan, WorkingState, is_partial, safe_to_resume,
  first_partial, next_action, Source, classify_hash, inspect_edit, inspect_kind, inspect, read_kind,
  read_ops, edited, recover_task, EvidenceStatus,
}

-- The action goes on with the plan, or asks for a new one.
abbrev pub goes_on : Action → Bool
goes_on (continue_with step) = true
goes_on replan = true
goes_on _ = false

first_partial-any :
    (rs : List Reconciliation)
    → ((first_partial rs ≡ none) × (any is_partial rs ≡ false))
      ⊎ ((seq : ℕ) × (first_partial rs ≡ some seq) × (any is_partial rs ≡ true))
unfolding first_partial
first_partial-any [] = inl (refl, refl)
first_partial-any (r ∷ rs) = elim (Bool-cases (is_partial r)) [
  | inl hit ↦ inr (r.operation.seq, rw hit refl, rw hit refl)
  | inr miss ↦ rw miss (first_partial-any rs)
]

-- Recovery proposes to go on, with the plan or with a new one, exactly when it is safe to resume (no
-- operation is partially applied, and the worktree has not drifted) and no validation is stale.
pub next_action_exact :
    (st : WorkingState)
    → (goes_on (next_action st) ≡ true)
      ↔ ((safe_to_resume st ≡ true) × (any (λ v. v.stale) st.validations ≡ false))
unfolding next_action safe_to_resume
next_action_exact st = elim (first_partial-any st.uncertain_ops) [
  | inl (free, whole) ↦ ground (arith, free, whole)
  | inr (seq, found, torn) ↦ ground (arith, found, torn)
]

-- What the worktree shows of an edit: the file exists and has this digest.
abbrev pub Shows : Source → Bool → Operation → EditIntent → Text → Type 0
Shows src has_worktree op ei got =
    (op.kind ≡ edit)
    × (src.edit_intent op.intent ≡ some ei)
    × (is_empty ei.path ≡ false)
    × (has_worktree ≡ true)
    × (src.hash_file ei.path ≡ hashed got)

abbrev pub ClassOf : Applied → EditIntent → Text → Type 0
ClassOf applied ei got =
    ((applied ≡ complete) ↔ (got ≡ ei.after_hash))
    × ((applied ≡ not_applied) ↔ ((got ≢ ei.after_hash) × (got ≡ ei.before_hash)))
    × ((applied ≡ partial) ↔ ((got ≢ ei.after_hash) × (got ≢ ei.before_hash)))

classify_hash-ClassOf :
    (op : Operation) (ei : EditIntent) (got : Text)
    → ClassOf (classify_hash op ei (hashed got)).applied ei got
unfolding classify_hash
classify_hash-ClassOf op ei got = (
  ground (arith, text_eq_iff got ei.after_hash, text_eq_iff got ei.before_hash),
  ground (arith, text_eq_iff got ei.after_hash, text_eq_iff got ei.before_hash),
  ground (arith, text_eq_iff got ei.after_hash, text_eq_iff got ei.before_hash),
)

inspect_shown :
    (src : Source) (has_worktree : Bool) (op : Operation) (ei : EditIntent) (got : Text)
    → Shows src has_worktree op ei got
    → inspect src has_worktree op ≡ classify_hash op ei (hashed got)
unfolding inspect inspect_kind inspect_edit
inspect_shown src has_worktree op ei got (k, d, p, w, h) =
    rw (k, inspect_kind) (rw (d, inspect_edit) (rw (p, w, h)))

-- An uncertain edit whose file can be read is classed by the file alone: complete if it has the
-- digest after the edit, not applied if it has only the one before, partial if it has neither. A
-- recorded cause does not matter.
pub inspect_by_hash :
    (src : Source) (has_worktree : Bool) (op : Operation) (ei : EditIntent) (got : Text)
    → Shows src has_worktree op ei got
    → ClassOf (inspect src has_worktree op).applied ei got
inspect_by_hash src has_worktree op ei got shown =
    subst (λ r. ClassOf r.applied ei got) (sym (inspect_shown src has_worktree op ei got shown))
      (classify_hash-ClassOf op ei got)

abbrev pub Touched : Applied → Type 0
Touched applied = (applied ≡ complete) ⊎ (applied ≡ partial)

hash_needed :
    (op : Operation) (ei : EditIntent) (f : FileHash)
    → Touched (classify_hash op ei f).applied
    → (got : Text) × (f ≡ hashed got)
unfolding classify_hash
hash_needed op ei not_exist h = absurd (ground arith)
hash_needed op ei (failed why) h = absurd (ground arith)
hash_needed op ei (hashed got) h = (got, refl)

intent_needed :
    (src : Source) (has_worktree : Bool) (op : Operation) (o : Option EditIntent)
    → Touched (inspect_edit src has_worktree op o).applied
    → (ei : EditIntent) × (o ≡ some ei)
      × (is_empty ei.path ≡ false)
      × (has_worktree ≡ true)
      × Touched (classify_hash op ei (src.hash_file ei.path)).applied
unfolding inspect_edit
intent_needed src has_worktree op none h = absurd (ground arith)
intent_needed src has_worktree op (some ei) h = (ei, refl, ground arith, ground arith, ground arith)

edit_needed :
    (k : OpKind) (src : Source) (has_worktree : Bool) (op : Operation)
    → Touched (inspect_kind k src has_worktree op).applied
    → (k ≡ edit) × Touched (inspect_edit src has_worktree op (src.edit_intent op.intent)).applied
unfolding inspect_kind
edit_needed edit src has_worktree op h = (refl, h)
edit_needed _ src has_worktree op h = absurd (ground arith)

-- Only an edit whose intent names a path, in a worktree that is there, over a file that can be read,
-- is ever classed as complete or as partial.
pub inspect_needs_file :
    (src : Source) (has_worktree : Bool) (op : Operation)
    → Touched (inspect src has_worktree op).applied
    → (ei : EditIntent) × (got : Text) × Shows src has_worktree op ei got
unfolding inspect
inspect_needs_file src has_worktree op h =
    let (k, t) = edit_needed op.kind src has_worktree op h in
    let (ei, d, p, w, c) = intent_needed src has_worktree op (src.edit_intent op.intent) t in
    let (got, f) = hash_needed op ei (src.hash_file ei.path) c in (ei, got, (k, d, p, w, f))

-- An edit that is reported as completed was journalled as an edit, with an outcome.
abbrev pub Recorded : Source → List Operation → EditIntent → Type 0
Recorded src ops ei =
    (op : Operation) × In op ops
    × (op.kind ≡ edit)
    × (uncertain op ≡ false)
    × (src.edit_intent op.intent ≡ some ei)

edited-In :
    (src : Source) (op : Operation) (o : Option EditIntent) (edits : List EditIntent)
    (ei : EditIntent)
    → In ei (edited op o edits)
    → In ei edits ⊎ ((uncertain op ≡ false) × (o ≡ some ei))
unfolding edited
edited-In src op none edits ei m = inl m
edited-In src op (some e) edits ei m = elim (Bool-cases (uncertain op || is_empty e.path)) [
  | inl skip ↦ inl (rw skip at m)
  | inr kept ↦ elim ((In-append ei edits (e ∷ [])).0 (rw kept at m)) [
    | inl old ↦ inl old
    | inr new ↦ inr (ground arith, elim new [ inl same ↦ ap some same | inr n ↦ absurd n ])
  ]
]

read_kind-edits :
    (k : OpKind) (src : Source) (op : Operation) (st : WorkingState) (ei : EditIntent)
    → In ei (read_kind k src op st).completed_edits
    → In ei st.completed_edits
      ⊎ ((k ≡ edit) × (uncertain op ≡ false) × (src.edit_intent op.intent ≡ some ei))
unfolding read_kind
read_kind-edits edit src op st ei m =
    elim (edited-In src op (src.edit_intent op.intent) st.completed_edits ei m) [
      | inl old ↦ inl old
      | inr (u, d) ↦ inr (refl, u, d)
    ]
read_kind-edits decision src op st ei m = inl (ground arith)
read_kind-edits _ src op st ei m = inl m

read_ops-edits :
    (src : Source) (ops : List Operation) (st : WorkingState) (ei : EditIntent)
    → In ei (read_ops src ops st).completed_edits
    → In ei st.completed_edits ⊎ Recorded src ops ei
unfolding read_ops
read_ops-edits src [] st ei m = inl m
read_ops-edits src (op ∷ ops) st ei m =
    elim (read_ops-edits src ops (read_kind op.kind src op st) ei m) [
      | inr (o, i, k, u, d) ↦ inr (o, inr i, k, u, d)
      | inl early ↦ elim (read_kind-edits op.kind src op st ei early) [
        | inl old ↦ inl old
        | inr (k, u, d) ↦ inr (op, inl refl, k, u, d)
      ]
    ]

-- Recovery reports an edit as completed only if the journal holds that edit with an outcome: an
-- uncertain edit is never taken for one that happened.
pub recovered_edits :
    (src : Source) (current : Text) (ops : List Operation) (h : Option Handoff)
    (evidence : List EvidenceStatus) (ei : EditIntent)
    → In ei (recover_task src current ops h evidence).0.completed_edits
    → Recorded src ops ei
unfolding recover_task
recovered_edits src current ops none evidence ei m = elim (read_ops-edits src ops _ ei m) [
  | inl nothing ↦ absurd nothing
  | inr recorded ↦ recorded
]
recovered_edits src current ops (some h) evidence ei m = elim (read_ops-edits src ops _ ei m) [
  | inl nothing ↦ absurd nothing
  | inr recorded ↦ recorded
]

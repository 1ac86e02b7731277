-- ===== src/Task/Finalize/Approval.antt =====
-- What an accepted task has gone through at its end, and that FINALIZE ends every turn.
use local_engineer.Prelude.{
  ◌≡◌, ◌≢◌, refl, sym, ap, ◌∙◌, subst, ◌⊎◌, inl, inr, true, [], none, some, arith, Option-cases,
  Result-cases, Bool-cases, ok, List-cases,
}
use local_engineer.GoStrings.{Text, text_eq_iff}
use local_engineer.Firewall.{check_diff_secrets}
use local_engineer.Ledger.Journal.{
  OpKind, Operation, Journal, Handle, begin, complete, find_row, new_row, finished_row, uncertain,
}
use local_engineer.Ledger.Journal.Rows.{begin-row, complete-ok, finished-row}
use local_engineer.Task.{State}
use local_engineer.Task.Verify.{Work, World, Why, stopped, moved}
use local_engineer.Task.Finalize.{
  approved, Closing, verified_candidate, commit, ask, scan, write_card, finalize,
}

-- When git was asked to commit, the journal held the intent of the commit in a new row without an
-- outcome, and git reported no error; the outcome was then written into that row.
pub record Journalled (c : Closing) (candidate : Text) : Type 0 where
  pub begun : Journal
  pub completed : Journal
  pub row : Operation
  pub outcome : Text
  pub handle : Handle
  pub handle' : Handle
  pub starts :
      begin c.begun_at c.begins c.task_id OpKind.decision c.intent candidate c.journal
      ≡ ok (handle, begun)
  pub intended : find_row c.journal.next_id begun.rows ≡ some row
  pub has_intent : c.intent ≡ some row.intent
  pub on_candidate : row.candidate_before ≡ candidate
  pub open_yet : uncertain row ≡ true
  pub committed : c.git_commits begun ≡ true
  pub has_outcome : c.outcome ≡ some outcome
  pub written :
      find_row c.journal.next_id completed.rows
      ≡ some (finished_row c.completed_at outcome candidate [] row)
  pub finishes :
      complete c.completed_at c.completes c.outcome candidate [] handle begun
      ≡ ok (handle', completed)

-- The gate was approved on this candidate, and its commit was journalled, made and recorded.
abbrev pub Committed : Closing → Work → Type 0
Committed c w =
    (c.gate ≡ some approved) × (c.candidate_at_gate ≡ some w.candidate) × Journalled c w.candidate

commit-accepted :
    (c : Closing) (w w' : Work) (why : Why)
    → commit c w ≡ stopped State.accepted why w'
    → Journalled c w.candidate × (w' ≡ w)
unfolding commit
commit-accepted c w w' why h =
    elim (Result-cases
      (begin c.begun_at c.begins c.task_id OpKind.decision c.intent w.candidate c.journal)) [
        | inr (e, failed) ↦ absurd (ground (arith, failed))
        | inl ((handle, begun), b) ↦ elim (Bool-cases (c.git_commits begun)) [
          | inr refused ↦ absurd (ground (arith, b, refused))
          | inl made ↦
              elim (Result-cases
                (complete c.completed_at c.completes c.outcome w.candidate [] handle begun)) [
                  | inr (e, failed) ↦ absurd (ground (arith, b, made, failed))
                  | inl ((handle', done), k) ↦
                      let (intent, i, same, live, found) =
                        begin-row c.begun_at c.begins c.task_id OpKind.decision c.intent w.candidate
                          c.journal begun handle b in
                      let (out, o, d) =
                        complete-ok c.completed_at c.completes c.outcome w.candidate handle handle'
                          begun done k in
                      (
                        record {
                          begun = begun;
                          completed = done;
                          row =
                              new_row c.begun_at c.task_id OpKind.decision intent w.candidate
                                c.journal;
                          outcome = out;
                          handle = handle;
                          handle' = handle';
                          starts = b;
                          intended = found;
                          has_intent = i;
                          on_candidate = refl;
                          open_yet = refl;
                          committed = made;
                          has_outcome = o;
                          written =
                              finished-row c.journal.next_id
                                (finished_row c.completed_at out w.candidate []) handle _ begun done
                                (λ r. refl) same found d;
                          finishes = k;
                        },
                        ground (arith, b, made, k),
                      )
                ]
        ]
      ]

-- The diff was read, and holds no credential.
abbrev pub Scanned : Closing → Type 0
Scanned c = (diff : Text) × (c.diff ≡ some diff) × (check_diff_secrets diff ≡ none)

ask-accepted :
    (c : Closing) (w w' : Work) (why : Why)
    → ask c w ≡ stopped State.accepted why w'
    → Committed c w' × (w' ≡ w)
unfolding ask
ask-accepted c w w' why h = elim (Option-cases c.gate) [
  | inl e ↦ absurd (ground arith)
  | inr (gate, g) ↦ elim (Option-cases c.candidate_at_gate) [
    | inl e ↦ absurd (ground arith)
    | inr (current, k) ↦
        let (journalled, same) = commit-accepted c w w' why (ground (arith, g, k)) in
        subst (λ u. Committed c u × (u ≡ w)) (sym same)
          ((ground arith, ground (arith, text_eq_iff current w.candidate), journalled), refl)
  ]
]

scan-accepted :
    (c : Closing) (w w' : Work) (why : Why)
    → scan c w ≡ stopped State.accepted why w'
    → Scanned c × Committed c w' × (w' ≡ w)
unfolding scan
scan-accepted c w w' why h = elim (Option-cases c.diff) [
  | inl e ↦ absurd (ground arith)
  | inr (diff, d) ↦ elim (Option-cases (check_diff_secrets diff)) [
    | inr (file, leak) ↦ absurd (ground arith)
    | inl clean ↦
        let (done, same) = ask-accepted c w w' why (ground arith) in ((diff, d, clean), done, same)
  ]
]

-- The candidate that is committed: the one verified, or the one that the card has made of it.
abbrev pub Final : Closing → Work → Work → Type 0
Final c w w' =
    (w'.candidate ≡ w.candidate)
    ⊎ ((w.finalization_candidate ≡ []) × (c.candidate_with_card ≡ some w'.candidate))

write_card-accepted :
    (c : Closing) (v : World) (w w' : Work) (why : Why)
    → write_card c v w ≡ stopped State.accepted why w'
    → Scanned c × Committed c w' × Final c w w'
unfolding write_card
write_card-accepted c v w w' why h = elim (List-cases w.finalization_candidate) [
  | inr (x, xs, written) ↦
      let (scanned, done, same) = scan-accepted c w w' why (ground (arith, written)) in
      (scanned, done, inl (ap (λ u. u.candidate) same))
  | inl blank ↦ elim (Option-cases c.candidate_with_card) [
    | inl e ↦ absurd (ground (arith, blank))
    | inr (final, f) ↦
        let u = record w { finalization_candidate = final; candidate = final } in
        let (scanned, done, same) = scan-accepted c u w' why (ground (arith, blank, f)) in
        (scanned, done, inr (blank, f ∙ ap (λ x. some x.candidate) (sym same)))
  ]
]

-- A task is accepted in FINALIZE only if the candidate of the checkout was the verified one, the diff
-- was read and holds no credential, the gate was approved, and the candidate at the gate is the one
-- that is committed. When git was asked to commit, the journal held the intent of that commit in a row
-- on this candidate that had no outcome yet; git reported no error, and the row then has the outcome.
pub finalize-accepted :
    (c : Closing) (v : World) (w w' : Work) (why : Why)
    → finalize c v w ≡ stopped State.accepted why w'
    → (verified_candidate w ≡ w.candidate) × Scanned c × Committed c w' × Final c w w'
unfolding finalize
finalize-accepted c v w w' why h =
    let (scanned, done, final) = write_card-accepted c v w w' why (ground arith) in
    (ground (arith, text_eq_iff (verified_candidate w) w.candidate), scanned, done, final)

ask-ne-moved : (c : Closing) (w w' : Work) → ask c w ≢ moved w'
unfolding ask commit
ask-ne-moved c w w' h = elim (Option-cases c.gate) [
  | inl e ↦ ground arith
  | inr (gate, g) ↦ elim (Option-cases c.candidate_at_gate) [
    | inl e ↦ ground arith
    | inr (current, k) ↦ ground arith
  ]
]

scan-ne-moved : (c : Closing) (w w' : Work) → scan c w ≢ moved w'
unfolding scan
scan-ne-moved c w w' h = elim (Option-cases c.diff) [
  | inl e ↦ ground arith
  | inr (diff, d) ↦ elim (Option-cases (check_diff_secrets diff)) [
    | inr (file, leak) ↦ ground arith
    | inl clean ↦ ask-ne-moved c w w' (ground arith)
  ]
]

-- FINALIZE ends every turn.
pub finalize-ne-moved : (c : Closing) (v : World) (w w' : Work) → finalize c v w ≢ moved w'
unfolding finalize write_card
finalize-ne-moved c v w w' h = elim (List-cases w.finalization_candidate) [
  | inr (x, xs, written) ↦ scan-ne-moved c w w' (ground (arith, written))
  | inl blank ↦ elim (Option-cases c.candidate_with_card) [
    | inl e ↦ ground (arith, blank)
    | inr (final, f) ↦
        let u = record w { finalization_candidate = final; candidate = final } in
        scan-ne-moved c u w' (ground (arith, blank, f))
  ]
]

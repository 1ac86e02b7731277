-- ===== src/Native/Exec/Audit.antt =====
-- No effect without an authorized call, and none that the journal did not admit first.
use local_engineer.Prelude.{
  ℕ, ◌≡◌, ◌≢◌, refl, sym, ◌⊎◌, inl, inr, true, [], Option, none, some, arith, ap, subst, ok,
  Result-cases, Option-cases,
}
use local_engineer.GoStrings.{Text}
use local_engineer.Ledger.Journal.{
  OpKind, Operation, Journal, Handle, begin, complete, find_row, new_row, uncertain, update,
  finished_row,
}
use local_engineer.Ledger.Journal.Rows.{begin-row, complete-ok}
use local_engineer.Ledger.Journal.Certainty.{find-update}
use local_engineer.Native.{ToolCall}
use local_engineer.Native.Authorize.{Refusal}
use local_engineer.Native.Exec.{
  Request, Commit, Host, Executed, empty_result, refused, act, decision, settle, exec,
}

module _ {W : Type 0} (host : Host W) where
  settle-world :
      (c : Commit) (denial : Option Refusal) (call : ToolCall) (h : Handle) (j : Journal) (w : W)
      → ((settle host c denial call h j w).world ≡ (act host denial call w).1)
        × ((settle host c denial call h j w).result ≡ (act host denial call w).0)
  unfolding settle
  settle-world c denial call h j w = ground arith

  -- A journalled call either stops before it decides anything, or it is begun and then settled.
  abbrev Stopped : Executed W → Journal → W → Type 0
  Stopped x j w =
      (x.world ≡ w) × (x.result ≡ empty_result) × (x.error ≢ none) × (x.journal ≡ some j)

  Begun : Request → Commit → Commit → ToolCall → Journal → W → Executed W → Type 0
  Begun req c c' call j w x =
      (before : Text) × (h : Handle) × (j' : Journal) × (host.manifest w ≡ some before)
      × (begin c.now c.commits req.task_id OpKind.decision
            (host.intent (decision host req call w) call) before j
          ≡ ok (h, j'))
      × (x ≡ settle host c' (decision host req call w) call h j' w)

  exec-cases :
      (req : Request) (c c' : Commit) (call : ToolCall) (j : Journal) (w : W)
      → Stopped (exec host req c c' call (some j) w) j w
        ⊎ Begun req c c' call j w (exec host req c c' call (some j) w)
  unfolding exec Begun
  exec-cases req c c' call j w = elim (Option-cases (host.manifest w)) [
    | inl e ↦ inl (ground arith)
    | inr (before, m) ↦
        elim (Result-cases (
          begin c.now c.commits req.task_id OpKind.decision
            (host.intent (decision host req call w) call) before j)) [
              | inr (e, failed) ↦ inl (ground arith)
              | inl ((h, j'), begun) ↦ inr (before, h, j', m, begun, ground arith)
            ]
  ]

  -- A refused call leaves the world as it was, whatever the journal does, and its result is the
  -- refusal or, where the journal stopped it, the empty one.
  pub exec-refused :
      (req : Request) (c c' : Commit) (call : ToolCall) (j : Option Journal) (w : W) (r : Refusal)
      → decision host req call w ≡ some r
      → ((exec host req c c' call j w).world ≡ w)
        × (((exec host req c c' call j w).result ≡ refused host r)
            ⊎ ((exec host req c c' call j w).result ≡ empty_result))
  exec-refused req c c' call none w r d = unfold exec in ground arith
  exec-refused req c c' call (some j) w r d =
      unfold Begun in
      elim (exec-cases req c c' call j w) [
        | inl (same, nothing, rest, kept) ↦ (same, inr nothing)
        | inr (before, h, j', m, begun, x) ↦
            let (a, b) = settle-world c' (decision host req call w) call h j' w in
            (ground arith, inl (ground arith))
      ]

  -- What `settle` leaves in the journal: the row finished, or the journal as it was.
  Settled : Commit → Handle → Journal → Executed W → Type 0
  Settled c h j x =
      (out : Text) × (after : Text) × (x.error ≡ none)
      × (host.body x.result ≡ some out)
      × (host.manifest x.world ≡ some after)
      × (x.journal
          ≡ some (record j { rows = update h.id (finished_row c.now out after []) j.rows }))

  settle-cases :
      (c : Commit) (denial : Option Refusal) (call : ToolCall) (h : Handle) (j : Journal) (w : W)
      → Settled c h j (settle host c denial call h j w)
        ⊎ (((settle host c denial call h j w).error ≢ none)
            × ((settle host c denial call h j w).journal ≡ some j))
  unfolding settle Settled
  settle-cases c denial call h j w =
      let (result, w') = act host denial call w in
      elim (Option-cases (host.manifest w')) [
        | inl e ↦ inr (ground arith)
        | inr (after, m) ↦
            elim (Result-cases (complete c.now c.commits (host.body result) after [] h j)) [
              | inr (e, failed) ↦ inr (ground arith)
              | inl ((h', j'), fine) ↦
                  let (out, b, k) =
                    complete-ok c.now c.commits (host.body result) after h h' j j' fine in
                  inl (out, after, ground arith, ground arith, ground arith, ground arith)
            ]
      ]

  -- The row that a begun call leaves: its intent as it was written, and its outcome with the manifest
  -- of the world where the call ended well.
  abbrev Recorded : ℕ → Operation → Executed W → Type 0
  Recorded i row x =
      (j : Journal) × (o : Operation) × (x.journal ≡ some j)
      × (find_row i j.rows ≡ some o)
      × (o.intent ≡ row.intent)
      × (o.candidate_before ≡ row.candidate_before)
      × (x.error ≢ none → o ≡ row)
      × (x.error ≡ none
          → (host.body x.result ≡ some o.outcome)
            × (host.manifest x.world ≡ some o.candidate_after))

  settle-Recorded :
      (c : Commit) (denial : Option Refusal) (call : ToolCall) (h : Handle) (j : Journal) (w : W)
      (row : Operation)
      → find_row h.id j.rows ≡ some row
      → Recorded h.id row (settle host c denial call h j w)
  unfolding Settled
  settle-Recorded c denial call h j w row found = elim (settle-cases c denial call h j w) [
    | inr (wrong, kept) ↦ (j, row, kept, found, refl, refl, (λ e. refl), (λ e. absurd (wrong e)))
    | inl (out, after, fine, body, manifest, rows) ↦
        let f = finished_row c.now out after [] in
        (
          record j { rows = update h.id f j.rows },
          f row,
          rows,
          ground (arith, find-update h.id h.id f j.rows (λ p. refl)),
          refl,
          refl,
          (λ e. absurd (e fine)),
          (λ e. (body, manifest)),
        )
  ]

  Begun-Recorded :
      (req : Request) (c c' : Commit) (call : ToolCall) (j : Journal) (w : W) (x : Executed W)
      → Begun req c c' call j w x
      → (before : Text) × (intent : Text) × (host.manifest w ≡ some before)
        × (host.intent (decision host req call w) call ≡ some intent)
        × Recorded j.next_id (new_row c.now req.task_id OpKind.decision intent before j) x
  unfolding Begun
  Begun-Recorded req c c' call j w x (before, h, j', m, begun, settled) =
      let d = decision host req call w in
      let (intent, body, key, fresh, found) =
        begin-row c.now c.commits req.task_id OpKind.decision (host.intent d call) before j j' h
          begun in
      let row = new_row c.now req.task_id OpKind.decision intent before j in
      (
        before,
        intent,
        m,
        body,
        subst (Recorded j.next_id row) (sym settled) (
            subst (λ i. Recorded i row (settle host c' d call h j' w)) key
              (settle-Recorded c' d call h j' w row (rw key found))),
      )

  -- A call that changes the world was authorized, and the journal held its intent, and the manifest of
  -- the world before it, in a row of its own; where the call then ends in an error, that row is
  -- uncertain.
  pub effect_is_admitted :
      (req : Request) (c c' : Commit) (call : ToolCall) (j : Journal) (w : W)
      → (exec host req c c' call (some j) w).world ≢ w
      → (decision host req call w ≡ none)
        × ((j' : Journal) × (o : Operation) × ((exec host req c c' call (some j) w).journal
              ≡ some j')
            × (find_row j.next_id j'.rows ≡ some o)
            × (host.intent none call ≡ some o.intent)
            × (host.manifest w ≡ some o.candidate_before)
            × ((exec host req c c' call (some j) w).error ≢ none → uncertain o ≡ true))
  effect_is_admitted req c c' call j w changed = elim (exec-cases req c c' call j w) [
    | inl stopped ↦ absurd (changed (stopped.0))
    | inr begun ↦ elim (Option-cases (decision host req call w)) [
      | inr (r, d) ↦ absurd (changed (exec-refused req c c' call (some j) w r d).0)
      | inl allowed ↦
          let (before, intent, m, body, recorded) =
            Begun-Recorded req c c' call j w (exec host req c c' call (some j) w) begun in
          let (j', o, kept, found, same_intent, same_before, pending, closed) = recorded in
          (
            allowed,
            (
              j',
              o,
              kept,
              found,
              ground (arith, ap (λ d. host.intent d call) allowed),
              ground arith,
              λ e. rw (pending e) refl,
            ),
          )
    ]
  ]

  -- A journalled call that ends without an error has left a row of its own whose outcome is the encoded
  -- result, whose candidates are the manifests of the world before and after it, and whose intent says
  -- what was decided.
  pub outcome_is_recorded :
      (req : Request) (c c' : Commit) (call : ToolCall) (j : Journal) (w : W)
      → (exec host req c c' call (some j) w).error ≡ none
      → (j' : Journal) × (o : Operation) × ((exec host req c c' call (some j) w).journal ≡ some j')
        × (find_row j.next_id j'.rows ≡ some o)
        × (host.intent (decision host req call w) call ≡ some o.intent)
        × (host.manifest w ≡ some o.candidate_before)
        × (host.body (exec host req c c' call (some j) w).result ≡ some o.outcome)
        × (host.manifest (exec host req c c' call (some j) w).world ≡ some o.candidate_after)
  outcome_is_recorded req c c' call j w fine = elim (exec-cases req c c' call j w) [
    | inl stopped ↦ absurd (stopped.2 fine)
    | inr begun ↦
        let (before, intent, m, body, recorded) =
          Begun-Recorded req c c' call j w (exec host req c c' call (some j) w) begun in
        let (j', o, kept, found, same_intent, same_before, pending, closed) = recorded in
        (j', o, kept, found, ground arith, ground arith, (closed fine).0, (closed fine).1)
  ]

-- ===== src/Broker/Rules.antt =====
-- The ways in which `Ask`, `Decide` and their parts end: what holds of each holds of the call.
use local_engineer.Prelude.{
  ◌≡◌, inl, inr, true, not, ◌&&◌, [], none, some, arith, ok, err, is_empty, Option-cases,
  Result-cases, if_split,
}
use local_engineer.GoStrings.{Text}
use local_engineer.Ledger.Journal.{OpKind, Journal, Handle, begin, operations, after, fail}
use local_engineer.Broker.{Kind, Decision, Gate, is_open, Policy, Evidence, needs, bounded}
use local_engineer.Broker.Gates.{
  Store, Moment, Codec, BrokerError, unreadable, unencodable, not_saved, not_closed, not_begun,
  no_gate, already, automatic, answered, save, find_gate, decided_for, new_gate, open_gate, Answer,
  ask_person, ask, open_approval, close, decided, decide,
}

module _ (codec : Codec) where
  -- The four ways in which `Ask` ends.
  pub ask_rule :
      (P : Answer → Type 0) (policy : Policy) (m : Moment) (task : Text) (kind : Kind)
      (question : Text) (ev : Evidence) (candidate : Text) (s : Store)
      → (needs policy kind ev ≡ none → P (ok (automatic task kind), s))
      → ((e : BrokerError) → P (err e, s))
      → ((g : Gate) → decided_for m.now task kind candidate s.gates ≡ some g → P (ok g, s))
      → ((why body : Text)
          → decided_for m.now task kind candidate s.gates ≡ none
          → P (open_gate codec m why (new_gate policy m task kind question why body candidate) s))
      → P (ask codec policy m task kind question ev candidate s)
  unfolding ask ask_person
  ask_rule P policy m task kind question ev candidate s free stopped reused opened =
      elim (Option-cases (needs policy kind ev)) [
        | inl n ↦ rw (ask, n) (free n)
        | inr (why, n) ↦
            rw (ask, n, ask_person)
              (if_split P (not m.reads && not (is_empty candidate)) (λ b. stopped unreadable)
                λ b. elim (Option-cases (decided_for m.now task kind candidate s.gates)) [
                  | inr (g, d) ↦ rw d (reused g d)
                  | inl d ↦ rw d (elim (Option-cases (codec.encode (bounded ev))) [
                    | inl e ↦ rw e (stopped unencodable)
                    | inr (body, e) ↦ rw e (opened why body d)
                  ])
                ])
      ]

  -- The journal is written first, then the row.
  pub open_gate_rule :
      (P : Answer → Type 0) (m : Moment) (why : Text) (g : Gate) (s : Store)
      → ((e : BrokerError) (j : Journal) → P (err e, record s { journal = j }))
      → ((h : Handle) (j : Journal)
          → begin m.now m.begins g.task_id OpKind.approval
              (codec.intent g.id g.kind g.question why)
              []
              s.journal
            ≡ ok (h, j)
          → P (ok g, record { gates = save g s.gates; journal = j }))
      → P (open_gate codec m why g s)
  unfolding open_gate
  open_gate_rule P m why g s stopped opened =
      elim (Result-cases (
        begin m.now m.begins g.task_id OpKind.approval (codec.intent g.id g.kind g.question why) []
          s.journal)) [
            | inr (e, f) ↦ rw (open_gate, f) (stopped (not_begun e) s.journal)
            | inl ((h, j), f) ↦
                rw (open_gate, f)
                  (if_split P m.saves (λ t. opened h j f)
                    λ t.
                      stopped not_saved
                        (after j (fail codec.failed_body m.now m.fails codec.save_error h j)))
          ]

  -- Closing the journal's entry leaves the table as it is.
  pub close_rule :
      (P : Answer → Type 0) (m : Moment) (gate : Text) (g : Gate) (s : Store)
      → ((e : BrokerError) → P (err e, s))
      → ((j : Journal) → P (ok g, record s { journal = j }))
      → P (close codec m gate g s)
  unfolding close
  close_rule P m gate g s stopped closed =
      if_split P (not m.reads_journal) (λ r. stopped unreadable)
        λ r. elim (Option-cases (open_approval codec gate (operations g.task_id s.journal))) [
          | inl o ↦ rw o (closed s.journal)
          | inr (o, f) ↦ rw f (elim (Option-cases (codec.outcome g.decision g.decided_by g.note)) [
            | inl b ↦ rw b (stopped not_closed)
            | inr (body, b) ↦ rw b (if_split P m.closes (λ t. closed _) (λ t. stopped not_closed))
          ])
        ]

  -- `Decide` answers a gate only while it is open.
  pub decide_rule :
      (P : Answer → Type 0) (m : Moment) (gate : Text) (decision : Decision) (by note : Text)
      (s : Store)
      → ((e : BrokerError) → P (err e, s))
      → ((g : Gate)
          → find_gate gate s.gates ≡ some g
          → is_open g.decision ≡ true
          → P (
              close codec m gate
                (decided codec m decision by note g)
                (record s { gates = save (decided codec m decision by note g) s.gates })))
      → P (decide codec m gate decision by note s)
  unfolding decide
  decide_rule P m gate decision by note s stopped answered =
      if_split P (not m.reads) (λ r. stopped unreadable)
        λ r. elim (Option-cases (find_gate gate s.gates)) [
          | inl f ↦ rw f (stopped (no_gate gate))
          | inr (g, f) ↦ rw f (
              if_split P (not (is_open g.decision)) (λ o. stopped (already gate g.decision))
                λ o. if_split P m.saves (λ t. answered g f (ground arith)) (λ t. stopped not_saved))
        ]

-- ===== src/Broker/Stays.antt =====
-- An answer stays as it was given.
use local_engineer.Prelude.{
  ℕ, ◌≡◌, ◌≢◌, ◌⊎◌, inl, inr, true, false, not, List, [], ◌∷◌, some, arith, All, Bool-cases,
  if_split, Result,
}
use local_engineer.GoStrings.{Text, codes, text_eq, text_eq_iff}
use local_engineer.Broker.{Kind, Decision, expired, Gate, Policy, Evidence, gate_id, past}
use local_engineer.Broker.Gates.{
  Store, Moment, Codec, Answer, BrokerError, save, find_gate, new_gate, ask, decided, decide,
  is_answer, expire_all, pending_gates, Call, asks, decides, lists, step, run,
}
use local_engineer.Broker.Table.{find_gate-save, find_gate-id, find_gate-In}
use local_engineer.Broker.Rules.{ask_rule, open_gate_rule, close_rule, decide_rule}
use local_engineer.Broker.Answers.{IsAbout, decided_for-none}

abbrev pub Kept : Gate → Answer → Type 0
Kept r a = find_gate r.id a.1.gates ≡ some r

save-other :
    (g r : Gate) (gs : List Gate)
    → g.id ≢ r.id
    → find_gate r.id gs ≡ some r
    → find_gate r.id (save g gs) ≡ some r
save-other g r gs ne f = ground (arith, find_gate-save r.id g gs, text_eq_iff g.id r.id)

-- A call that cannot be about the row: an `Ask` for a gate of another name, or one that finds the
-- row's answer still in time. Every `Decide` and every `Pending` is allowed.
abbrev pub Spares : Gate → Moment × Call → Type 0
Spares r (m, asks policy task kind question ev candidate) =
    (gate_id m.fresh task kind candidate ≢ r.id)
    ⊎ (candidate ≢ []) × IsAbout task kind candidate r × (past m.now r.expires_at ≡ false)
Spares r (m, decides gate decision by note) = Unit {0}
Spares r (m, lists moments) = Unit {0}

module _ (codec : Codec) where
  ask-keeps :
      (policy : Policy) (m : Moment) (task : Text) (kind : Kind) (question : Text) (ev : Evidence)
      (candidate : Text) (s : Store) (r : Gate)
      → find_gate r.id s.gates ≡ some r
      → is_answer r.decision ≡ true
      → Spares r (m, asks policy task kind question ev candidate)
      → Kept r (ask codec policy m task kind question ev candidate s)
  ask-keeps policy m task kind question ev candidate s r f a spared =
      ask_rule codec (Kept r) policy m task kind question ev candidate s (λ n. f) (λ e. f)
        (λ g d. f)
        λ why body d.
          let g = new_gate policy m task kind question why body candidate in
          open_gate_rule codec (Kept r) m why g s (λ e j. f)
            λ h j b. elim spared [
              | inl ne ↦ save-other g r s.gates ne f
              | inr (ne, about, time) ↦
                  let spent =
                    decided_for-none m.now task kind candidate s.gates r d ne
                      (find_gate-In r.id s.gates r f) about in
                  absurd (ground arith)
            ]

  decide-keeps :
      (m : Moment) (gate : Text) (decision : Decision) (by note : Text) (s : Store) (r : Gate)
      → find_gate r.id s.gates ≡ some r
      → is_answer r.decision ≡ true
      → Kept r (decide codec m gate decision by note s)
  decide-keeps m gate decision by note s r f a =
      decide_rule codec (Kept r) m gate decision by note s (λ e. f)
        λ g h o.
          let g' = decided codec m decision by note g in
          let kept : find_gate r.id (save g' s.gates) ≡ some r =
            elim (Bool-cases (text_eq gate r.id)) [
              | inl e ↦ absurd (ground (arith, text_eq_iff gate r.id))
              | inr e ↦
                  save-other g' r s.gates
                    (λ same. ground (arith, text_eq_iff gate r.id, find_gate-id gate s.gates g h)) f
            ] in
          close_rule codec (Kept r) m gate g' _ (λ e. kept) (λ j. kept)

  expire_all-keeps :
      (now : ℕ) (moments : Text → Moment) (shown : List Gate) (s : Store) (r : Gate)
      → find_gate r.id s.gates ≡ some r
      → is_answer r.decision ≡ true
      → find_gate r.id (expire_all codec now moments shown s).1.gates ≡ some r
  unfolding expire_all
  expire_all-keeps now moments [] s r f a = f
  expire_all-keeps now moments (g ∷ gs) s r f a =
      if_split (λ (x : List Gate × Store). find_gate r.id x.1.gates ≡ some r)
        (past now g.expires_at)
        (λ p.
          expire_all-keeps now moments gs _ r
            (decide-keeps (moments g.id) g.id expired (codes "system")
              (codes "nobody answered within the policy timeout") s r f a)
            a)
        (λ p. expire_all-keeps now moments gs s r f a)

  step-keeps :
      (s : Store) (c : Moment × Call) (r : Gate)
      → find_gate r.id s.gates ≡ some r
      → is_answer r.decision ≡ true
      → Spares r c
      → find_gate r.id (step codec s c).gates ≡ some r
  unfolding step pending_gates
  step-keeps s (m, asks policy task kind question ev candidate) r f a spared =
      ask-keeps policy m task kind question ev candidate s r f a spared
  step-keeps s (m, decides gate decision by note) r f a spared =
      decide-keeps m gate decision by note s r f a
  step-keeps s (m, lists moments) r f a spared =
      if_split (λ (x : Result BrokerError (List Gate) × Store). find_gate r.id x.1.gates ≡ some r)
        (not m.reads) (λ t. f) (λ t. expire_all-keeps m.now moments _ s r f a)

  -- An approval or a rejection stays as it was given, whoever answered, note included: no later
  -- answer, no expiry and no question changes the row, if each later question is for a gate of
  -- another name or is the same question while the answer is in time.
  pub answer_stays :
      (s : Store) (cs : List (Moment × Call)) (r : Gate)
      → find_gate r.id s.gates ≡ some r
      → is_answer r.decision ≡ true
      → All (Spares r) cs
      → find_gate r.id (run codec s cs).gates ≡ some r
  unfolding run
  answer_stays s [] r f a spared = f
  answer_stays s (c ∷ cs) r f a (spared, rest) =
      answer_stays (step codec s c) cs r (step-keeps s c r f a spared) a rest

-- ===== src/Broker/Expiry.antt =====
-- An answer is honoured until its deadline, and a deadline that has passed is never moved.
use local_engineer.Prelude.{
  ◌≡◌, ◌≢◌, sym, ◌∙◌, ap, inl, inr, true, List, [], none, some, ok, Bool-cases,
}
use local_engineer.GoStrings.{Text}
use local_engineer.Broker.{Kind, Gate, is_open, Policy, Evidence, needs, gate_id, past}
use local_engineer.Broker.Gates.{Store, Moment, Codec, find_gate, ask, Call, run}
use local_engineer.Broker.Table.{Sound, IsNamed, Keyed-find_gate}
use local_engineer.Broker.Changes.{run-Changes, start, Changes-row, run-Sound}
use local_engineer.Broker.Answers.{IsAbout, ask_answers}

-- Two rows about the same content have the same name.
about-name :
    (task : Text) (kind : Kind) (candidate : Text) (g : Gate)
    → candidate ≢ []
    → IsAbout task kind candidate g
    → IsNamed g
    → g.id ≡ gate_id [] task kind candidate
about-name task kind candidate g ne (t, k, c) n = n (λ e. ne (sym c ∙ e)) [] ∙ cc (t, k, c)

module _ (codec : Codec) where
  -- Once the deadline of the row about a content has passed, that question about that content is
  -- never answered again: whatever is asked, decided or listed afterwards, approvals of the gate
  -- included, a question that needs a person gets a gate that is still open, or an error.
  pub expired_gate_never_answers :
      (s : Store) (cs : List (Moment × Call)) (policy : Policy) (m : Moment) (task : Text)
      (kind : Kind) (question : Text) (ev : Evidence) (candidate : Text) (row g : Gate)
      → Sound s.gates
      → candidate ≢ []
      → find_gate row.id s.gates ≡ some row
      → IsAbout task kind candidate row
      → past m.now row.expires_at ≡ true
      → needs policy kind ev ≢ none
      → (ask codec policy m task kind question ev candidate (run codec s cs)).0 ≡ ok g
      → is_open g.decision ≡ true
  expired_gate_never_answers s cs policy m task kind question ev candidate row g sound ne f about
        late need a =
      elim (Bool-cases (is_open g.decision)) [
        | inl o ↦ o
        | inr o ↦
            let s' = run codec s cs in
            let sound' = run-Sound codec s cs sound in
            let (same, answer) =
              ask_answers codec policy m task kind question ev candidate s' g a o in
            elim answer [
              | inl (n, d) ↦ absurd (need n)
              | inr (ne', i, about', u, time) ↦
                  let (row', f', (e, t, k, c, x)) =
                    Changes-row row.id row f (run-Changes codec s s cs start) in
                  let g' = Keyed-find_gate g s'.gates sound'.keyed i in
                  let same : g.id ≡ row.id =
                    about-name task kind candidate g ne about' (sound'.named g.id g g')
                    ∙ sym
                        (about-name task kind candidate row ne about (sound.named row.id row f)) in
                  let both : some g ≡ some row' =
                    sym g' ∙ ap (λ j. find_gate j s'.gates) same ∙ f' in
                  absurd (cc (both, x, time, late))
            ]
      ]

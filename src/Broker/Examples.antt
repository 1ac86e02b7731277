-- ===== src/Broker/Examples.antt =====
-- The gates at concrete inputs: a change is put to a person, answered, and asked for again.
use local_engineer.Prelude.{
  ℕ, ◌≡◌, refl, inl, inr, true, false, List, [], ◌∷◌, none, some, ok, ◌⊎◌, ◌≢◌, sort_by,
}
use local_engineer.GoStrings.{codes, text_eq, text_eq_iff, trim_space}
use local_engineer.Ledger.Journal.{operations, max_seq, update, begin}
use local_engineer.Broker.{
  approved, rejected, apply, Gate, is_open, Policy, default_policy, Evidence, needs, gate_id,
}
use local_engineer.Broker.Gates.{
  Store, Moment, Codec, ask, asks, decides, lists, decide, run, find_gate, new_gate, decided, Call,
  step, close, save, decided_for, first, ask_person, open_gate, open_approval, expire_all,
  pending_gates,
}
use local_engineer.Broker.Table.{Sound}
use local_engineer.Broker.Changes.{ask-Sound}
use local_engineer.Broker.Answers.{Answers, ask_answers}
use local_engineer.Broker.Expiry.{expired_gate_never_answers}
use local_engineer.Broker.Stays.{answer_stays}

abbrev plain : Codec
plain = record {
  encode = λ ev. some ev.diff;
  intent = λ gate kind question why. some gate;
  intent_gate = λ t. some t;
  outcome = λ d by note. some note;
  failed_body = λ cause. cause;
  save_error = codes "disk full";
}

abbrev at : ℕ → Moment
at now = record {
  now = now;
  fresh = codes "17";
  reads = true;
  reads_journal = true;
  begins = true;
  saves = true;
  fails = true;
  closes = true;
}

abbrev empty : Store
empty = record { gates = []; journal = record { rows = []; next_id = 1 } }

abbrev timed : Policy
timed = record default_policy { timeout = 10 }

abbrev change : Evidence
change = record {
  summary = codes "fix";
  impact_report = none;
  breaking_count = 0;
  outside = [];
  diff = codes "+x";
  findings = [];
  policy_reasons = [];
  review_concerns = [];
}

abbrev gate : Gate
gate =
    new_gate timed (at 100) (codes "t") apply (codes "Apply?")
      (codes "the policy gates applying a change") (codes "+x") (codes "abc")

abbrev asked : Store
asked = (ask plain timed (at 100) (codes "t") apply (codes "Apply?") change (codes "abc") empty).1

asks_a_person :
    (ask plain timed (at 100) (codes "t") apply (codes "Apply?") change (codes "abc") empty).0
    ≡ ok gate
unfolding run step decide close find_gate save decided_for first ask ask_person open_gate needs
    gate_id sort_by begin operations open_approval update text_eq trim_space expire_all
    pending_gates max_seq
asks_a_person = refl

empty-Sound : Sound []
unfolding find_gate
empty-Sound = record { keyed = tt; named = λ i g f. cc }

asked-Sound : Sound asked.gates
asked-Sound =
    ask-Sound plain timed (at 100) (codes "t") apply (codes "Apply?") change (codes "abc") empty
      empty-Sound

-- The person answers five milliseconds later.
abbrev answer : Gate
answer = decided plain (at 105) approved (codes "ann") (codes "fine") gate

abbrev told : Store
told = (decide plain (at 105) gate.id approved (codes "ann") (codes "fine") asked).1

is_asked : find_gate gate.id asked.gates ≡ some gate
unfolding run step decide close find_gate save decided_for first ask ask_person open_gate needs
    gate_id sort_by begin operations open_approval update text_eq trim_space expire_all
    pending_gates max_seq
is_asked = refl

is_told : find_gate gate.id told.gates ≡ some answer
unfolding run step decide close find_gate save decided_for first ask ask_person open_gate needs
    gate_id sort_by begin operations open_approval update text_eq trim_space expire_all
    pending_gates max_seq
is_told = refl

asks_again :
    (ask plain timed (at 108) (codes "t") apply (codes "Apply?") change (codes "abc") told).0
    ≡ ok answer
unfolding run step decide close find_gate save decided_for first ask ask_person open_gate needs
    gate_id sort_by begin operations open_approval update text_eq trim_space expire_all
    pending_gates max_seq
asks_again = refl

ask_answers_example :
    ((ask plain timed (at 108) (codes "t") apply (codes "Apply?") change (codes "abc") told).1
      ≡ told)
    × ((needs timed apply change ≡ none) × (answer.decision ≡ approved)
        ⊎ Answers 108 (codes "t") apply (codes "abc") told.gates answer)
ask_answers_example =
    ask_answers plain timed (at 108) (codes "t") apply (codes "Apply?") change (codes "abc") told
      answer asks_again refl

apply_needs : needs timed apply change ≡ some (codes "the policy gates applying a change")
unfolding needs
apply_needs = refl

other_test : text_eq (gate_id (codes "17") (codes "u") apply (codes "abc")) gate.id ≡ false
unfolding gate_id text_eq
other_test = refl

other_name : gate_id (codes "17") (codes "u") apply (codes "abc") ≢ gate.id
other_name e =
    let hit = (text_eq_iff (gate_id (codes "17") (codes "u") apply (codes "abc")) gate.id).1 e in
    cc (other_test, hit)

abbrev later_calls : List (Moment × Call)
later_calls =
    (at 106, decides gate.id rejected (codes "bob") (codes "no"))
    ∷ (at 108, asks timed (codes "t") apply (codes "Apply?") change (codes "abc"))
    ∷ (at 109, asks timed (codes "u") apply (codes "Apply?") change (codes "abc"))
    ∷ (at 300, lists (λ gate. at 300))
    ∷ []

answer_stays_example : find_gate answer.id (run plain told later_calls).gates ≡ some answer
answer_stays_example =
    answer_stays plain told later_calls answer is_told refl
      (tt, (inr ((λ e. cc), (refl, refl, refl), refl), (inl other_name, (tt, tt))))

-- The gate ran out at 110; the approval at 200 counts for nothing at 300.
abbrev late_calls : List (Moment × Call)
late_calls =
    (at 200, asks timed (codes "t") apply (codes "Apply?") change (codes "abc"))
    ∷ (at 201, decides gate.id approved (codes "ann") (codes "fine"))
    ∷ []

abbrev open_again : Gate
open_again = record gate { created_at = 300; expires_at = some 310 }

asks_for_ever :
    (ask plain timed
      (at 300)
      (codes "t")
      apply
      (codes "Apply?")
      change
      (codes "abc")
      (run plain asked late_calls)).0
    ≡ ok open_again
unfolding run step decide close find_gate save decided_for first ask ask_person open_gate needs
    gate_id sort_by begin operations open_approval update text_eq trim_space expire_all
    pending_gates max_seq
asks_for_ever = refl

expired_gate_never_answers_example : is_open open_again.decision ≡ true
expired_gate_never_answers_example =
    expired_gate_never_answers plain asked late_calls timed (at 300) (codes "t") apply
      (codes "Apply?") change (codes "abc") gate open_again asked-Sound (λ e. cc) is_asked
      (refl, refl, refl) refl (λ n. cc (apply_needs, n)) asks_for_ever

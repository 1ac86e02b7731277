-- ===== src/Broker/Answers.antt =====
-- What the caller of `Ask` can rely on, and that an answer stays.
use local_engineer.Prelude.{
  ℕ, suc, ◌≡◌, ◌≢◌, refl, sym, ◌∙◌, ap, ◌⊎◌, inl, inr, Bool, true, false, ◌↔◌, ◌==◌, List-cases,
  List, [], ◌∷◌, Option, none, some, arith, if◌then◌else◌, ok, keep, sort_by, In, Bool-cases,
  reverse, In-keep, In-reverse, In-sort_by,
}
use local_engineer.GoStrings.{Text, text_eq_iff}
use local_engineer.Ledger.Journal.{OpKind, Operation, Journal, Handle, uncertain, new_row, begin}
use local_engineer.Broker.{
  Kind, pending, approved, Gate, is_open, Policy, Evidence, needs, kind_name, past, plan, impact,
  out_of_scope, budget, apply,
}
use local_engineer.Broker.Gates.{
  Store, Moment, Codec, Answer, older, find_gate, decided_for, new_gate, ask, first, usable,
  is_answer, about,
}
use local_engineer.Broker.Table.{find_gate-save, saved}
use local_engineer.Broker.Rules.{ask_rule, open_gate_rule}

initial : Text → ℕ
initial [] = 0
initial (c ∷ s) = c

kind_of : ℕ → Kind
kind_of c =
    if c == b'p'
    then plan
    else if c == b'i'
    then impact
    else if c == b'o'
    then out_of_scope
    else if c == b'b'
    then budget
    else apply

kind_of-kind_name : (k : Kind) → kind_of (initial (kind_name k)) ≡ k
unfolding kind_of initial
kind_of-kind_name plan = refl
kind_of-kind_name impact = refl
kind_of-kind_name out_of_scope = refl
kind_of-kind_name budget = refl
kind_of-kind_name apply = refl

kind_name-injective : (k l : Kind) → kind_name k ≡ kind_name l → k ≡ l
kind_name-injective k l e =
    sym (kind_of-kind_name k) ∙ ap (λ t. kind_of (initial t)) e ∙ kind_of-kind_name l

-- The gate asks this question of this task about this content.
abbrev pub IsAbout : Text → Kind → Text → Gate → Type 0
IsAbout task kind candidate g = (g.task_id ≡ task) × (g.kind ≡ kind) × (g.candidate ≡ candidate)

pub about_iff :
    (task : Text) (kind : Kind) (candidate : Text) (g : Gate)
    → (about task kind candidate g ≡ true) ↔ IsAbout task kind candidate g
about_iff task kind candidate g = ground (
  arith,
  text_eq_iff g.task_id task,
  text_eq_iff (kind_name g.kind) (kind_name kind),
  text_eq_iff g.candidate candidate,
  kind_name-injective g.kind kind,
  ap kind_name,
)

first-some :
    (p : Gate → Bool) (gs : List Gate) (g : Gate) → first p gs ≡ some g → In g gs × (p g ≡ true)
unfolding first
first-some p [] g h = cc
first-some p (x ∷ xs) g h = elim (Bool-cases (p x)) [
  | inl t ↦ ground arith
  | inr t ↦ let (m, q) = first-some p xs g (ground arith) in (inr m, q)
]

first-none :
    (p : Gate → Bool) (gs : List Gate) (g : Gate) → first p gs ≡ none → In g gs → p g ≡ false
unfolding first
first-none p [] g h m = absurd m
first-none p (x ∷ xs) g h m = ground (arith, first-none p xs g)

module _ (now : ℕ) (task : Text) (kind : Kind) (candidate : Text) (gates : List Gate)
    (g : Gate) where
  In-decided_for :
      In g (reverse (sort_by older (keep (about task kind candidate) gates)))
      ↔ (In g gates × IsAbout task kind candidate g)
  In-decided_for = ground (
    arith,
    In-reverse g (sort_by older (keep (about task kind candidate) gates)),
    In-sort_by older g (keep (about task kind candidate) gates),
    In-keep (about task kind candidate) g gates,
    about_iff task kind candidate g,
  )

  pub decided_for-some :
      decided_for now task kind candidate gates ≡ some g
      → (candidate ≢ []) × In g gates × IsAbout task kind candidate g × (usable now g ≡ true)
  unfolding decided_for
  decided_for-some d = elim (List-cases candidate) [
    | inl e ↦ absurd (ground (arith, e, d))
    | inr (c, cs, e) ↦
        let hit : first (usable now)
              (reverse (sort_by older (keep (about task kind candidate) gates)))
            ≡ some g =
          ground (arith, e, d) in
        let (m, u) = first-some (usable now) _ g hit in
        (λ n. cc, (In-decided_for.0 m).0, (In-decided_for.0 m).1, u)
  ]

  pub decided_for-none :
      decided_for now task kind candidate gates ≡ none
      → candidate ≢ []
      → In g gates
      → IsAbout task kind candidate g
      → usable now g ≡ false
  unfolding decided_for
  decided_for-none d ne m a = elim (List-cases candidate) [
    | inl e ↦ absurd (ne e)
    | inr (c, cs, e) ↦
        first-none (usable now) (reverse (sort_by older (keep (about task kind candidate) gates))) g
          (ground (arith, e, d)) (In-decided_for.1 (m, a))
  ]

-- An answer that the table holds for this question on this content, and that has not run out.
abbrev pub Answers : ℕ → Text → Kind → Text → List Gate → Gate → Type 0
Answers now task kind candidate gates g =
    (candidate ≢ [])
    × In g gates
    × IsAbout task kind candidate g
    × (is_answer g.decision ≡ true)
    × (past now g.expires_at ≡ false)

saved-decision : (g : Gate) (o : Option Gate) → (saved g o).decision ≡ g.decision
saved-decision g none = refl
saved-decision g (some old) = refl

module _ (codec : Codec) where
  -- `Ask` returns a gate that is not open in two cases only: the policy asks nobody, and then the
  -- gate is approved; or the table holds an approval or a rejection, still in time, of the same task,
  -- kind and non-empty candidate, and that row is what is returned. In both the store is unchanged.
  pub ask_answers :
      (policy : Policy) (m : Moment) (task : Text) (kind : Kind) (question : Text) (ev : Evidence)
      (candidate : Text) (s : Store) (g : Gate)
      → (ask codec policy m task kind question ev candidate s).0 ≡ ok g
      → is_open g.decision ≡ false
      → ((ask codec policy m task kind question ev candidate s).1 ≡ s)
        × ((needs policy kind ev ≡ none) × (g.decision ≡ approved)
            ⊎ Answers m.now task kind candidate s.gates g)
  ask_answers policy m task kind question ev candidate s g =
      ask_rule codec
        (λ (r : Answer).
          r.0 ≡ ok g
          → is_open g.decision ≡ false
          → (r.1 ≡ s)
            × ((needs policy kind ev ≡ none) × (g.decision ≡ approved)
                ⊎ Answers m.now task kind candidate s.gates g))
        policy m task kind question ev candidate s (λ n e c. (refl, inl (n, ground arith)))
        (λ x e c. cc)
        (λ g' d e c.
          let (ne, i, a, u) =
            decided_for-some m.now task kind candidate s.gates g (d ∙ ground arith) in
          (refl, inr (ne, i, a, ground arith, ground arith)))
        λ why body d.
          let g' = new_gate policy m task kind question why body candidate in
          open_gate_rule codec
            (λ (r : Answer).
              r.0 ≡ ok g
              → is_open g.decision ≡ false
              → (r.1 ≡ s)
                × ((needs policy kind ev ≡ none) × (g.decision ≡ approved)
                    ⊎ Answers m.now task kind candidate s.gates g))
            m why g' s (λ x j e c. cc) λ h j b e c. absurd (ground arith)

  begun-Uncertain :
      (m : Moment) (task : Text) (kind : OpKind) (intent : Option Text) (before : Text) (h : Handle)
      (j j' : Journal)
      → begin m.now m.begins task kind intent before j ≡ ok (h, j')
      → (o : Operation) × In o j'.rows
        × (o.kind ≡ kind)
        × (o.task_id ≡ task)
        × (intent ≡ some o.intent)
        × (uncertain o ≡ true)
  unfolding begin
  begun-Uncertain m task kind none before h j j' b = absurd (ground arith)
  begun-Uncertain m task kind (some intent) before h j j' b =
      let opened : j' ≡ record {
        rows = new_row m.now task kind intent before j ∷ j.rows;
        next_id = suc j.next_id;
      } =
        ground arith in
      rw opened (new_row m.now task kind intent before j, inl refl, refl, refl, refl, refl)

  -- A row of the gate's name is open in the table, and the journal has an approval with the gate's
  -- name, kind and question as its intent, whose outcome is not known.
  abbrev pub IsRecorded : Text → Kind → Gate → Store → Type 0
  IsRecorded task kind g s =
      ((row : Gate) × (find_gate g.id s.gates ≡ some row) × (row.decision ≡ pending))
      × ((o : Operation) × (why : Text) × In o s.journal.rows
          × (o.kind ≡ OpKind.approval)
          × (o.task_id ≡ task)
          × (codec.intent g.id kind g.question why ≡ some o.intent)
          × (uncertain o ≡ true))

  -- The gate that a caller waits for is on record before it waits: a row of its name is open in the
  -- table, and the journal has an approval of the task, with the gate's name, kind and question as its
  -- intent, whose outcome is not known.
  pub ask-IsRecorded :
      (policy : Policy) (m : Moment) (task : Text) (kind : Kind) (question : Text) (ev : Evidence)
      (candidate : Text) (s : Store) (g : Gate)
      → (ask codec policy m task kind question ev candidate s).0 ≡ ok g
      → is_open g.decision ≡ true
      → IsRecorded task kind g (ask codec policy m task kind question ev candidate s).1
  ask-IsRecorded policy m task kind question ev candidate s g =
      ask_rule codec
        (λ (r : Answer). r.0 ≡ ok g → is_open g.decision ≡ true → IsRecorded task kind g r.1) policy
        m task kind question ev candidate s (λ n e c. absurd (ground arith)) (λ x e c. cc)
        (λ g' d e c.
          let (ne, i, a, u) =
            decided_for-some m.now task kind candidate s.gates g (d ∙ ground arith) in
          absurd (ground arith))
        λ why body d.
          let g' = new_gate policy m task kind question why body candidate in
          open_gate_rule codec
            (λ (r : Answer). r.0 ≡ ok g → is_open g.decision ≡ true → IsRecorded task kind g r.1) m
            why g' s (λ x j e c. cc)
            λ h j b e c.
              let same : g ≡ g' = ground arith in
              let (o, i, k, t, n, u) =
                begun-Uncertain m task OpKind.approval _ [] h s.journal j b in
              rw same (
                (
                  saved g' (find_gate g'.id s.gates),
                  ground (arith, find_gate-save g'.id g' s.gates, text_eq_iff g'.id g'.id),
                  saved-decision g' (find_gate g'.id s.gates),
                ),
                (o, why, i, k, t, n, u),
              )

-- ===== src/Broker/Changes.antt =====
-- What the calls do to the table `gates`: they open a gate or answer an open one, and never touch its
-- name, its content or its deadline.
use local_engineer.Prelude.{
  ℕ, ◌≡◌, ◌≢◌, refl, sym, ◌∙◌, inl, inr, true, not, List, [], ◌∷◌, some, arith, Bool-cases, Result,
  if_split, subst,
}
use local_engineer.GoStrings.{Text, codes, text_eq, text_eq_iff}
use local_engineer.Broker.{
  Kind, Decision, pending, expired, past, Gate, is_open, Policy, Evidence, gate_id,
}
use local_engineer.Broker.Gates.{
  Store, Moment, Codec, BrokerError, answered, save, find_gate, new_gate, ask, decided, decide,
  expire_all, pending_gates, Call, asks, decides, lists, step, run,
}
use local_engineer.Broker.Rules.{ask_rule, open_gate_rule, close_rule, decide_rule}
use local_engineer.Broker.Table.{find_gate-id, find_gate-save, Sound, save-Keyed, save-IsNamed}

-- A gate that has just been named and that nobody has answered.
abbrev pub IsNew : Gate → Type 0
IsNew g =
    (g.decision ≡ pending)
    × (g.candidate ≢ [] → (fresh : Text) → g.id ≡ gate_id fresh g.task_id g.kind g.candidate)

pub data Change (gs : List Gate) : List Gate → Type 0 where
  same : Change gs gs
  opens : (g : Gate) → IsNew g → Change gs (save g gs)
  answers :
      (old g : Gate)
      → find_gate g.id gs ≡ some old
      → is_open old.decision ≡ true
      → Change gs (save g gs)

pub data Changes (gs : List Gate) : List Gate → Type 0 where
  start : Changes gs gs
  then_change : {mid after : List Gate} → Changes gs mid → Change mid after → Changes gs after

pub gate_id-fresh :
    (fresh fresh' task candidate : Text) (kind : Kind)
    → candidate ≢ []
    → gate_id fresh task kind candidate ≡ gate_id fresh' task kind candidate
unfolding gate_id
gate_id-fresh fresh fresh' task [] kind ne = absurd (ne refl)
gate_id-fresh fresh fresh' task (c ∷ candidate) kind ne = refl

module _ (codec : Codec) where
  ask-Change :
      (policy : Policy) (m : Moment) (task : Text) (kind : Kind) (question : Text) (ev : Evidence)
      (candidate : Text) (s : Store)
      → Change s.gates (ask codec policy m task kind question ev candidate s).1.gates
  ask-Change policy m task kind question ev candidate s =
      ask_rule codec (λ r. Change s.gates r.1.gates) policy m task kind question ev candidate s
        (λ n. same) (λ e. same) (λ g d. same)
        λ why body d.
          let g = new_gate policy m task kind question why body candidate in
          open_gate_rule codec (λ r. Change s.gates r.1.gates) m why g s (λ e j. same)
            λ h j b. opens g (refl, λ ne fresh. gate_id-fresh m.fresh fresh task candidate kind ne)

  decide-Change :
      (m : Moment) (gate : Text) (decision : Decision) (by note : Text) (s : Store)
      → Change s.gates (decide codec m gate decision by note s).1.gates
  decide-Change m gate decision by note s =
      decide_rule codec (λ r. Change s.gates r.1.gates) m gate decision by note s (λ e. same)
        λ g f o.
          let g' = decided codec m decision by note g in
          let change =
            answers g g'
              (subst (λ i. find_gate i s.gates ≡ some g) (sym (find_gate-id gate s.gates g f)) f)
              o in
          close_rule codec (λ r. Change s.gates r.1.gates) m gate g' _ (λ e. change) (λ j. change)

  expire_all-Changes :
      (now : ℕ) (moments : Text → Moment) (shown : List Gate) (s s' : Store)
      → Changes s.gates s'.gates
      → Changes s.gates (expire_all codec now moments shown s').1.gates
  unfolding expire_all
  expire_all-Changes now moments [] s s' c = c
  expire_all-Changes now moments (g ∷ gs) s s' c =
      if_split (λ (r : List Gate × Store). Changes s.gates r.1.gates) (past now g.expires_at)
        (λ p. expire_all-Changes now moments gs s _ (
          then_change c (
            decide-Change (moments g.id) g.id expired (codes "system")
              (codes "nobody answered within the policy timeout") s')))
        (λ p. expire_all-Changes now moments gs s s' c)

  step-Changes :
      (s s' : Store) (c : Moment × Call)
      → Changes s.gates s'.gates
      → Changes s.gates (step codec s' c).gates
  unfolding step pending_gates
  step-Changes s s' (m, asks policy task kind question ev candidate) c =
      then_change c (ask-Change policy m task kind question ev candidate s')
  step-Changes s s' (m, decides gate decision by note) c =
      then_change c (decide-Change m gate decision by note s')
  step-Changes s s' (m, lists moments) c =
      if_split (λ (r : Result BrokerError (List Gate) × Store). Changes s.gates r.1.gates)
        (not m.reads) (λ r. c) (λ r. expire_all-Changes m.now moments _ s s' c)

  -- A run of calls is a sequence of changes of the table.
  pub run-Changes :
      (s s' : Store) (cs : List (Moment × Call))
      → Changes s.gates s'.gates
      → Changes s.gates (run codec s' cs).gates
  unfolding run
  run-Changes s s' [] c = c
  run-Changes s s' (x ∷ cs) c = run-Changes s (step codec s' x) cs (step-Changes s s' x c)

-- The columns that no update touches.
abbrev pub IsSameRow : Gate → Gate → Type 0
IsSameRow r r' =
    (r'.id ≡ r.id)
    × (r'.task_id ≡ r.task_id)
    × (r'.kind ≡ r.kind)
    × (r'.candidate ≡ r.candidate)
    × (r'.expires_at ≡ r.expires_at)

save-row :
    (i : Text) (g r : Gate) (gs : List Gate)
    → find_gate i gs ≡ some r
    → (r' : Gate) × (find_gate i (save g gs) ≡ some r') × IsSameRow r r'
save-row i g r gs f = elim (Bool-cases (text_eq g.id i)) [
  | inl e ↦ (
    answered g r,
    ground (arith, find_gate-save i g gs, text_eq_iff g.id i),
    (refl, refl, refl, refl, refl),
  )
  | inr e ↦ (r, ground (arith, find_gate-save i g gs), (refl, refl, refl, refl, refl))
]

Change-row :
    {gs gs' : List Gate} (i : Text) (r : Gate)
    → find_gate i gs ≡ some r
    → Change gs gs'
    → (r' : Gate) × (find_gate i gs' ≡ some r') × IsSameRow r r'
Change-row i r f same = (r, f, (refl, refl, refl, refl, refl))
Change-row {gs} i r f (opens g new) = save-row i g r gs f
Change-row {gs} i r f (answers old g h o) = save-row i g r gs f

pub Changes-row :
    {gs gs' : List Gate} (i : Text) (r : Gate)
    → find_gate i gs ≡ some r
    → Changes gs gs'
    → (r' : Gate) × (find_gate i gs' ≡ some r') × IsSameRow r r'
Changes-row i r f start = (r, f, (refl, refl, refl, refl, refl))
Changes-row i r f (then_change c d) =
    let (r', f', (a, b, k, e, t)) = Changes-row i r f c in
    let (r'', f'', (a', b', k', e', t')) = Change-row i r' f' d in
    (r'', f'', (a' ∙ a, b' ∙ b, k' ∙ k, e' ∙ e, t' ∙ t))

Change-Sound : {gs gs' : List Gate} → Change gs gs' → Sound gs → Sound gs'
Change-Sound same sound = sound
Change-Sound {gs} (opens g new) sound = record {
  keyed = save-Keyed g gs sound.keyed;
  named = λ i r. save-IsNamed i g r gs sound (λ n. new.1);
}
Change-Sound {gs} (answers old g f o) sound = record {
  keyed = save-Keyed g gs sound.keyed;
  named = λ i r. save-IsNamed i g r gs sound (λ n. cc);
}

Changes-Sound : {gs gs' : List Gate} → Changes gs gs' → Sound gs → Sound gs'
Changes-Sound start sound = sound
Changes-Sound (then_change c d) sound = Change-Sound d (Changes-Sound c sound)

module _ (codec : Codec) where
  pub ask-Sound :
      (policy : Policy) (m : Moment) (task : Text) (kind : Kind) (question : Text) (ev : Evidence)
      (candidate : Text) (s : Store)
      → Sound s.gates
      → Sound (ask codec policy m task kind question ev candidate s).1.gates
  ask-Sound policy m task kind question ev candidate s =
      Change-Sound (ask-Change codec policy m task kind question ev candidate s)

  pub decide-Sound :
      (m : Moment) (gate : Text) (decision : Decision) (by note : Text) (s : Store)
      → Sound s.gates
      → Sound (decide codec m gate decision by note s).1.gates
  decide-Sound m gate decision by note s =
      Change-Sound (decide-Change codec m gate decision by note s)

-- Whatever calls are made, in any order and whichever of their statements go through, no two gates
-- share a name, and a gate about a content is named after its task, its kind and that content.
pub run-Sound :
    (codec : Codec) (s : Store) (cs : List (Moment × Call))
    → Sound s.gates
    → Sound (run codec s cs).gates
run-Sound codec s cs sound = Changes-Sound (run-Changes codec s s cs start) sound

-- ===== src/Broker/Table.antt =====
-- The rows of the table `gates`: their names, and what a save leaves under a name.
use local_engineer.Prelude.{
  ◌≡◌, ◌≢◌, refl, inl, inr, List, [], ◌∷◌, Option, none, some, arith, if◌then◌else◌, In,
  Option-cases, Bool-cases,
}
use local_engineer.GoStrings.{Text, text_eq, text_eq_iff}
use local_engineer.GoStrings.Laws.{text_eq_refl}
use local_engineer.Broker.{Gate, gate_id}
use local_engineer.Broker.Gates.{answered, save, find_gate}

pub find_gate-id : (i : Text) (gs : List Gate) (g : Gate) → find_gate i gs ≡ some g → g.id ≡ i
unfolding find_gate
find_gate-id i [] g f = cc
find_gate-id i (h ∷ hs) g f = ground (arith, text_eq_iff h.id i, find_gate-id i hs g)

pub find_gate-In : (i : Text) (gs : List Gate) (g : Gate) → find_gate i gs ≡ some g → In g gs
unfolding find_gate
find_gate-In i [] g f = cc
find_gate-In i (h ∷ hs) g f = ground (arith, find_gate-In i hs g)

-- What a save leaves under the name of its gate.
abbrev pub saved : Gate → Option Gate → Gate
saved g none = g
saved g (some old) = answered g old

pub find_gate-save :
    (i : Text) (g : Gate) (gs : List Gate)
    → find_gate i (save g gs)
      ≡ (if text_eq g.id i then some (saved g (find_gate g.id gs)) else find_gate i gs)
unfolding find_gate save
find_gate-save i g [] = refl
find_gate-save i g (h ∷ hs) =
    ground
      (arith, text_eq_iff h.id g.id, text_eq_iff g.id i, text_eq_iff h.id i, find_gate-save i g hs)

abbrev pub Keyed : List Gate → Type 0
Keyed [] = Unit {0}
Keyed (g ∷ gs) = (find_gate g.id gs ≡ none) × Keyed gs

abbrev pub IsNamed : Gate → Type 0
IsNamed g = g.candidate ≢ [] → (fresh : Text) → g.id ≡ gate_id fresh g.task_id g.kind g.candidate

-- No two rows share a name, and a row about a content is named after it.
pub record Sound (gs : List Gate) : Type 0 where
  pub keyed : Keyed gs
  pub named : (i : Text) (g : Gate) → find_gate i gs ≡ some g → IsNamed g

pub save-Keyed : (g : Gate) (gs : List Gate) → Keyed gs → Keyed (save g gs)
unfolding find_gate save
save-Keyed g [] k = (refl, tt)
save-Keyed g (h ∷ hs) (fresh, k) = ground (
  arith,
  save-Keyed g hs k,
  find_gate-save h.id g hs,
  text_eq_iff h.id g.id,
  text_eq_iff g.id h.id,
)

pub Keyed-find_gate : (g : Gate) (gs : List Gate) → Keyed gs → In g gs → find_gate g.id gs ≡ some g
unfolding find_gate
Keyed-find_gate g [] k m = absurd m
Keyed-find_gate g (h ∷ hs) (fresh, k) (inl e) = rw e (rw (text_eq_refl g.id) refl)
Keyed-find_gate g (h ∷ hs) (fresh, k) (inr m) =
    ground (arith, Keyed-find_gate g hs k m, text_eq_iff h.id g.id)

pub save-IsNamed :
    (i : Text) (g r : Gate) (gs : List Gate)
    → Sound gs
    → ((find_gate g.id gs ≡ none) → IsNamed g)
    → find_gate i (save g gs) ≡ some r
    → IsNamed r
save-IsNamed i g r gs sound new f = elim (Bool-cases (text_eq g.id i)) [
  | inr e ↦ sound.named i r (ground (arith, find_gate-save i g gs))
  | inl e ↦ elim (Option-cases (find_gate g.id gs)) [
    | inl n ↦ let same : r ≡ g = ground (arith, find_gate-save i g gs) in rw same (new n)
    | inr (old, o) ↦
        let same : r ≡ answered g old = ground (arith, find_gate-save i g gs) in
        rw same (sound.named g.id old o)
  ]
]

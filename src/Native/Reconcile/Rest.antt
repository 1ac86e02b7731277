-- ===== src/Native/Reconcile/Rest.antt =====
-- The calls of an interrupted batch that have no answer yet.
use local_engineer.Prelude.{
  ◌≡◌, refl, sym, ap, ◌∙◌, Bool, true, false, not, ◌&&◌, List, [], ◌∷◌, none, some, arith, is_empty,
  keep, All, Option-cases, List-cases, inl, inr,
}
use local_engineer.GoStrings.{codes, text_eq, text_eq_iff}
use local_engineer.Native.{ToolCall}
use local_engineer.Native.Loop.{Message}
use local_engineer.Native.Loop.Batches.{unanswered, answers_call, is_role, calls_of}
use local_engineer.Native.Reconcile.{last_batch, completed}

-- No two calls of the batch share an id.
abbrev pub Distinct : List ToolCall → Type 0
Distinct [] = Unit {0}
Distinct (c ∷ cs) = All (λ (d : ToolCall). text_eq c.id d.id ≡ false) cs × Distinct cs

abbrev pub still_open : List Message → ToolCall → Bool
still_open after c = not (completed after c)

-- The batch stands at the head, when none follows.
head_batch :
    (m : Message) (ms after : List Message) (calls : List ToolCall)
    → last_batch ms ≡ none
    → last_batch (m ∷ ms) ≡ some (calls, after)
    → (is_role (codes "assistant") m ≡ true) × (m.tool_calls ≡ calls) × (ms ≡ after)
unfolding last_batch
head_batch m ms after calls e l = ground (arith, e)

one_role : (m : Message) → is_role (codes "assistant") m ≡ true → is_role (codes "tool") m ≡ false
unfolding text_eq
one_role m a =
    let role = (text_eq_iff m.role (codes "assistant")).0 a in
    ap (λ r. text_eq r (codes "tool")) role

pub batch-split :
    (waiting rest calls : List ToolCall) (msgs after : List Message)
    → last_batch msgs ≡ some (calls, after)
    → unanswered waiting msgs ≡ some rest
    → (unanswered calls after ≡ some rest) × (last_batch after ≡ none)
unfolding last_batch unanswered
batch-split waiting rest calls [] after l u = cc
batch-split [] rest calls (m ∷ ms) after l u = elim (Option-cases (last_batch ms)) [
  | inr ((calls', after'), e) ↦
      batch-split (calls_of m) rest calls ms after (ground arith) (ground arith)
  | inl e ↦
      let (a, c, t) = head_batch m ms after calls e l in
      let quiet = one_role m a in
      let open_here : unanswered m.tool_calls ms ≡ some rest = ground (arith, a, quiet) in
      (rw (← c, ← t) open_here, rw (← t) e)
]
batch-split (c ∷ cs) rest calls (m ∷ ms) after l u = elim (Option-cases (last_batch ms)) [
  | inr ((calls', after'), e) ↦ batch-split cs rest calls ms after (ground arith) (ground arith)
  | inl e ↦
      let (a, d, t) = head_batch m ms after calls e l in
      let quiet = one_role m a in absurd (ground (arith, a, quiet))
]

all_answered :
    (msgs : List Message) (rest : List ToolCall)
    → last_batch msgs ≡ none
    → unanswered [] msgs ≡ some rest
    → rest ≡ []
unfolding last_batch unanswered
all_answered [] rest l u = ground arith
all_answered (m ∷ ms) rest l u = elim (Option-cases (last_batch ms)) [
  | inr (r, e) ↦ absurd (ground arith)
  | inl e ↦
      let none_here : calls_of m ≡ [] = no_calls m (ground arith) in
      all_answered ms rest e (ground (arith, none_here))
]
  where
    no_calls :
        (m : Message)
        → (is_role (codes "assistant") m && not (is_empty m.tool_calls)) ≡ false
        → calls_of m ≡ []
    no_calls m h = elim (List-cases m.tool_calls) [
      | inl e ↦ ground (arith, e)
      | inr (c, cs, e) ↦ ground (arith, e)
    ]

keep-answered :
    (m : Message) (ms : List Message) (c : ToolCall) (cs : List ToolCall)
    → answers_call m c ≡ true
    → All (λ (d : ToolCall). text_eq c.id d.id ≡ false) cs
    → keep (still_open (m ∷ ms)) cs ≡ keep (still_open ms) cs
keep-answered m ms c [] a fresh = refl
keep-answered m ms c (d ∷ ds) a (other, fresh) = ground (
  arith,
  keep-answered m ms c ds a fresh,
  text_eq_iff m.tool_call_id c.id,
  text_eq_iff m.tool_call_id d.id,
  text_eq_iff c.id d.id,
)

earlier_batch :
    (m : Message) (ms : List Message) → last_batch (m ∷ ms) ≡ none → last_batch ms ≡ none
unfolding last_batch
earlier_batch m ms l = elim (Option-cases (last_batch ms)) [
  | inl e ↦ e
  | inr (r, e) ↦ absurd (ground arith)
]

-- What is not completed is what has no answer, when the ids are distinct.
pub open_calls_are_rest :
    (calls rest : List ToolCall) (after : List Message)
    → Distinct calls
    → unanswered calls after ≡ some rest
    → last_batch after ≡ none
    → keep (still_open after) calls ≡ rest
unfolding last_batch unanswered
open_calls_are_rest calls rest [] d u l = keep_all calls ∙ ground arith
  where
    keep_all : (cs : List ToolCall) → keep (still_open []) cs ≡ cs
    keep_all [] = refl
    keep_all (c ∷ cs) = ap (λ (ds : List ToolCall). c ∷ ds) (keep_all cs)
open_calls_are_rest [] rest (m ∷ ms) d u l = sym (all_answered (m ∷ ms) rest l u)
open_calls_are_rest (c ∷ cs) rest (m ∷ ms) (fresh, d) u l =
    let a : answers_call m c ≡ true = ground arith in
    let rest_open = open_calls_are_rest cs rest ms d (ground (arith, a)) (earlier_batch m ms l) in
    ground (arith, a, keep-answered m ms c cs a fresh, rest_open)

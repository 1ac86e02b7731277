-- ===== src/Task/Packs/Frozen.antt =====
-- The prefix of a task's requests stays as it was.
use local_engineer.Prelude.{
  ℕ, ◌≡◌, refl, sym, ap, ◌∙◌, subst, inl, inr, Bool, true, false, not, List, [], ◌∷◌, Option, none,
  some, arith, is_empty, if_split, Result, ok, err, get_elem?, All, Bool-cases,
}
use local_engineer.GoStrings.{Text, codes}
use local_engineer.Trust.{Fence, new_fence, restore_fence}
use local_engineer.Trust.Tokens.{restore_fence-nonce}
use local_engineer.ContextPack.{
  Block, Prefix, PackError, Pack, Tail, messages, message, system_text, frozen_user, new_pack,
}
use local_engineer.ContextPack.Requests.{
  append_all, append_all-same, first_message, second_message, new_pack-made,
}
use local_engineer.Task.Packs.{
  Kept, PacksError, keep_fence, restored, task_fence, PhaseBudget, pack_budget, as_pack, pack_with,
  pack_for, Built, ensure_prefix, plan_card,
}

-- What the driver does with the prefix and the fence of a task.
pub data Event : Type 0 where
  requests : Option (List ℕ) → Bool → PhaseBudget → Event
  ensures : Built → Bool → Event
  plans : Text → Event

unfoldable pub event : Event → Kept → Kept
event (requests random saves b) s = (pack_for random saves b s).1
event (ensures b saves) s = (ensure_prefix b saves s).1
event (plans card) s = plan_card card s

unfoldable pub events : List Event → Kept → Kept
events [] s = s
events (e ∷ es) s = events es (event e s)

-- The task gets no plan.
abbrev pub NoPlan : Event → Type 0
NoPlan (plans card) = ⊥
NoPlan _ = Unit {0}

-- The fence and the prefix are there.
abbrev IsReady : Kept → Type 0
IsReady s = (is_empty s.fence_token ≡ false) × (is_empty s.prefix.policy ≡ false)

-- From `s` to `t` nothing changes but the card of the task, and that not without a plan.
record Keeps (Plain : Type 0) (s t : Kept) : Type 0 where
  token : t.fence_token ≡ s.fence_token
  policy : t.prefix.policy ≡ s.prefix.policy
  whole : Plain → t.prefix ≡ s.prefix

task_fence-set :
    (random : Option (List ℕ)) (saves : Bool) (s : Kept)
    → is_empty s.fence_token ≡ false
    → task_fence random saves s ≡ (restored (restore_fence s.fence_token), s)
unfolding task_fence
task_fence-set random saves s h = rw h refl

pack_with-state :
    (b : PhaseBudget) (r : Result PacksError Fence) (s : Kept) → (pack_with b (r, s)).1 ≡ s
pack_with-state b (ok f) s = refl
pack_with-state b (err e) s = refl

pack_for-set :
    (random : Option (List ℕ)) (saves : Bool) (b : PhaseBudget) (s : Kept)
    → is_empty s.fence_token ≡ false
    → (pack_for random saves b s).1 ≡ s
unfolding pack_for
pack_for-set random saves b s h =
    ap (λ x. (pack_with b x).1) (task_fence-set random saves s h)
    ∙ pack_with-state b (restored (restore_fence s.fence_token)) s

event-Keeps : (e : Event) (s : Kept) → IsReady s → Keeps (NoPlan e) s (event e s)
unfolding event pack_for ensure_prefix
event-Keeps (requests random saves b) s (token, policy) =
    let same = pack_for-set random saves b s token in
    record {
      token = ap (λ (x : Kept). x.fence_token) same;
      policy = ap (λ (x : Kept). x.prefix.policy) same;
      whole = λ h. ap (λ (x : Kept). x.prefix) same;
    }
event-Keeps (ensures b saves) s (token, policy) =
    if_split (λ (r : Option PacksError × Kept). Keeps (Unit {0}) s r.1)
      (not (is_empty s.prefix.policy))
      (λ e. record { token = refl; policy = refl; whole = λ h. refl })
      (λ e. absurd (ground (arith, policy, e)))
event-Keeps (plans card) s h = record { token = refl; policy = refl; whole = λ x. absurd x }

events-Keeps : (es : List Event) (s : Kept) → IsReady s → Keeps (All NoPlan es) s (events es s)
unfolding events
events-Keeps [] s h = record { token = refl; policy = refl; whole = λ x. refl }
events-Keeps (e ∷ es) s (token, policy) =
    let one = event-Keeps e s (token, policy) in
    let rest = events-Keeps es (event e s) (rw one.token token, rw one.policy policy) in
    record {
      token = rest.token ∙ one.token;
      policy = rest.policy ∙ one.policy;
      whole = λ (x, xs). rest.whole xs ∙ one.whole x;
    }

restored-ok : (x : Option Fence) (f : Fence) → restored x ≡ ok f → x ≡ some f
restored-ok none f h = absurd cc
restored-ok (some g) f h = cc

-- The fence of a request is the one whose token is kept after it.
keep_fence-ok :
    (x : Option Fence) (saves : Bool) (s t : Kept) (f : Fence)
    → keep_fence x saves s ≡ (ok f, t)
    → (f.nonce ≡ t.fence_token) × (t.prefix ≡ s.prefix)
keep_fence-ok none saves s t f h = absurd cc
keep_fence-ok (some g) true s t f h =
    let same : g ≡ f = cc (ap (λ (x : Result PacksError Fence × Kept). x.0) h) in
    let next : record s { fence_token = g.nonce } ≡ t =
      ap (λ (x : Result PacksError Fence × Kept). x.1) h in
    (
      sym (ap (λ (x : Fence). x.nonce) same) ∙ ap (λ (x : Kept). x.fence_token) next,
      sym (ap (λ (x : Kept). x.prefix) next),
    )
keep_fence-ok (some g) false s t f h =
    absurd (cc (ap (λ (x : Result PacksError Fence × Kept). x.0) h))

task_fence-ok :
    (random : Option (List ℕ)) (saves : Bool) (s t : Kept) (f : Fence)
    → task_fence random saves s ≡ (ok f, t)
    → (f.nonce ≡ t.fence_token) × (t.prefix ≡ s.prefix)
unfolding task_fence
task_fence-ok random saves s t f h = elim (Bool-cases (is_empty s.fence_token)) [
  | inl fresh ↦ keep_fence-ok (new_fence random) saves s t f (sym (rw fresh refl) ∙ h)
  | inr old ↦
      let r = sym (task_fence-set random saves s old) ∙ h in
      let same : s ≡ t = ap (λ (x : Result PacksError Fence × Kept). x.1) r in
      let found =
        restored-ok (restore_fence s.fence_token) f
          (ap (λ (x : Result PacksError Fence × Kept). x.0) r) in
      (
        restore_fence-nonce s.fence_token f found ∙ ap (λ (x : Kept). x.fence_token) same,
        sym (ap (λ (x : Kept). x.prefix) same),
      )
]

as_pack-ok : (r : Result PackError Pack) (p : Pack) → as_pack r ≡ ok p → r ≡ ok p
as_pack-ok (ok q) p h = cc
as_pack-ok (err e) p h = absurd cc

pack_with-ok :
    (b : PhaseBudget) (r : Result PacksError Fence) (s t : Kept) (p : Pack)
    → pack_with b (r, s) ≡ (ok p, t)
    → (f : Fence) × (r ≡ ok f) × (s ≡ t) × (new_pack s.prefix f (pack_budget b) ≡ ok p)
pack_with-ok b (err e) s t p h = absurd (cc (ap (λ (x : Result PacksError Pack × Kept). x.0) h))
pack_with-ok b (ok f) s t p h = (
  f,
  refl,
  ap (λ (x : Result PacksError Pack × Kept). x.1) h,
  as_pack-ok (new_pack s.prefix f (pack_budget b)) p
      (ap (λ (x : Result PacksError Pack × Kept). x.0) h),
)

-- The first two messages, whatever has been appended.
first_of :
    (k : Tail) (bs : List Block) (p : Pack)
    → get_elem? (messages k (append_all bs p)).0 0
      ≡ some (message (codes "system") (system_text p.prefix.policy p.fence))
first_of k bs p =
    let (prefix, fence) = append_all-same bs p in
    first_message k (append_all bs p)
    ∙ ap (λ (x : Prefix × Fence). some (message (codes "system") (system_text x.0.policy x.1)))
        (λ i. (prefix i, fence i))

second_of :
    (k : Tail) (bs : List Block) (p : Pack)
    → get_elem? (messages k (append_all bs p)).0 1
      ≡ some (message (codes "user") (frozen_user p.prefix))
second_of k bs p =
    second_message k (append_all bs p)
    ∙ ap (λ x. some (message (codes "user") (frozen_user x))) (append_all-same bs p).0

-- A request is made of the prefix that is kept and of the fence whose token is.
record MadeOf (p : Pack) (s t : Kept) : Type 0 where
  prefix : p.prefix ≡ t.prefix
  same_prefix : t.prefix ≡ s.prefix
  fence : p.fence ≡ record { nonce = t.fence_token }
  token : is_empty t.fence_token ≡ false

pack_for-MadeOf :
    (random : Option (List ℕ)) (saves : Bool) (b : PhaseBudget) (s t : Kept) (p : Pack)
    → pack_for random saves b s ≡ (ok p, t)
    → MadeOf p s t
unfolding pack_for
pack_for-MadeOf random saves b s t p h =
    let (r, u) = task_fence random saves s in
    let (f, fine, same, made) = pack_with-ok b r u t p h in
    let (token, kept) = task_fence-ok random saves s u f (ap (λ x. (x, u)) fine) in
    let (prefix, fence, good) = new_pack-made u.prefix f (pack_budget b) p made in
    let nonce : f.nonce ≡ t.fence_token = token ∙ ap (λ (x : Kept). x.fence_token) same in
    let next = ap (λ (x : Kept). x.prefix) same in
    record {
      prefix = prefix ∙ next;
      same_prefix = sym next ∙ kept;
      fence = fence ∙ ap (λ n. record { nonce = n }) nonce;
      token = subst (λ n. is_empty n ≡ false) nonce (ground (arith, good));
    }

-- Over the requests of a task, each of which is made of a pack of its own and of what is appended to it,
-- the first message is always the same once the prefix is there, whatever comes between two of them:
-- other requests, with any random bytes and any failures, attempts to build the prefix again, and a
-- plan. Without a plan between them, the second message is the same too.
pub request_prefix_is_stable :
    (random random' : Option (List ℕ)) (saves saves' : Bool) (b b' : PhaseBudget) (es : List Event)
    (s t v : Kept) (p q : Pack) (xs ys : List Block) (k l : Tail)
    → is_empty s.prefix.policy ≡ false
    → pack_for random saves b s ≡ (ok p, t)
    → pack_for random' saves' b' (events es t) ≡ (ok q, v)
    → (get_elem? (messages l (append_all ys q)).0 0 ≡ get_elem? (messages k (append_all xs p)).0 0)
      × (All NoPlan es
          → get_elem? (messages l (append_all ys q)).0 1
            ≡ get_elem? (messages k (append_all xs p)).0 1)
request_prefix_is_stable random random' saves saves' b b' es s t v p q xs ys k l there first
      second =
    let a = pack_for-MadeOf random saves b s t p first in
    let policy : is_empty t.prefix.policy ≡ false = rw a.same_prefix there in
    let kept = events-Keeps es t (a.token, policy) in
    let again : is_empty (events es t).fence_token ≡ false = rw kept.token a.token in
    let z = pack_for-MadeOf random' saves' b' (events es t) v q second in
    let same : v ≡ events es t =
      sym (ap (λ x. x.1) second) ∙ pack_for-set random' saves' b' (events es t) again in
    let fence : q.fence ≡ p.fence =
      z.fence
      ∙ ap (λ n. record { nonce = n }) (ap (λ (x : Kept). x.fence_token) same ∙ kept.token)
      ∙ sym a.fence in
    let next = z.prefix ∙ z.same_prefix in
    (
      first_of l ys q
          ∙ cc (
            fence,
            ap (λ (x : Prefix). x.policy) next
                ∙ kept.policy
                ∙ sym (ap (λ (x : Prefix). x.policy) a.prefix),
          )
          ∙ sym (first_of k xs p),
      λ h.
          second_of l ys q
          ∙ ap (λ x. some (message (codes "user") (frozen_user x)))
              (next ∙ kept.whole h ∙ sym a.prefix)
          ∙ sym (second_of k xs p),
    )

-- ===== src/ContextPack/Requests.antt =====
-- What is sent: each request extends the one before it, and `Fits` foresees what `Append` does.
use mathlib.Core.List.{append_assoc, append-nil}
use local_engineer.Prelude.{
  subst, ◌+◌, ◌≡◌, refl, sym, ap, ◌∙◌, inl, inr, ◌↔◌, true, false, not, ◌||◌, List, [], ◌∷◌, ◌++◌,
  Option, none, some, arith, ltb, ◌==◌, if_split, map, get_elem?, Result, ok, err, Bool-cases,
}
use local_engineer.GoStrings.{codes}
use local_engineer.Trust.{Fence, valid}
use local_engineer.Native.Loop.{Message}
use local_engineer.ContextPack.{
  Prefix, Block, Budget, Pack, PackError, log_full, truncated, cost, new_pack, append, fits, Tail,
  block_message, tail_messages, frozen, messages, message, system_text, frozen_user, prefix_tokens,
}
use local_engineer.ContextPack.Log.{new_pack-IsSound}

-- `Fits` is true of a block exactly when `Append` takes it. A block that is taken stands at the end of
-- the log, cut, and nothing else of the log changes; one that is not taken leaves the pack as it was.
pub fits_iff_append :
    (b : Block) (p : Pack)
    → ((fits b p ≡ true) ↔ ((append b p).0 ≡ none))
      × (fits b p ≡ true → (append b p).1.log ≡ p.log ++ truncated b ∷ [])
      × (fits b p ≡ false → append b p ≡ (some log_full, p))
unfolding fits append
fits_iff_append b p = elim (Bool-cases (fits b p)) [
  | inl e ↦ (ground (arith, e), ground (arith, e), ground (arith, e))
  | inr e ↦ (ground (arith, e), ground (arith, e), ground (arith, e))
]

-- The messages of a pack before its tail.
abbrev pub sent : Pack → List Message
sent p = frozen p.prefix p.fence ++ map (block_message p.fence) p.log

unfoldable pub append_all : List Block → Pack → Pack
append_all [] p = p
append_all (b ∷ bs) p = append_all bs (append b p).1

-- `q` has sent what `p` has, and more after it.
abbrev Extends : Pack → Pack → Type 0
Extends p q = (new : List Message) × (sent q ≡ sent p ++ new)

map-append : (g : Block → Message) (xs ys : List Block) → map g (xs ++ ys) ≡ map g xs ++ map g ys
map-append g [] ys = refl
map-append g (x ∷ xs) ys = ap (λ ms. g x ∷ ms) (map-append g xs ys)

append-Extends : (b : Block) (p : Pack) → Extends p (append b p).1
unfolding append
append-Extends b p =
    if_split (λ (r : Option PackError × Pack). Extends p r.1)
      (ltb p.budget.log (p.log_tokens + cost p b)) (λ a. ([], sym (append-nil (sent p))))
      (λ a. (
        block_message p.fence (truncated b) ∷ [],
        ap (λ ms. frozen p.prefix p.fence ++ ms)
              (map-append (block_message p.fence) p.log (truncated b ∷ []))
            ∙ sym (
                append_assoc (frozen p.prefix p.fence) (map (block_message p.fence) p.log)
                  (block_message p.fence (truncated b) ∷ [])),
      ))

append_all-Extends : (bs : List Block) (p : Pack) → Extends p (append_all bs p)
unfolding append_all
append_all-Extends [] p = ([], sym (append-nil (sent p)))
append_all-Extends (b ∷ bs) p =
    let (first, e) = append-Extends b p in
    let (rest, f) = append_all-Extends bs (append b p).1 in
    (first ++ rest, f ∙ ap (λ ms. ms ++ rest) e ∙ append_assoc (sent p) first rest)

messages-sent : (t : Tail) (p : Pack) → (messages t p).0 ≡ sent p ++ tail_messages t
unfolding messages
messages-sent t p = refl

messages-count : (t : Tail) (p : Pack) → (messages t p).1 ≡ 2
unfolding messages frozen
messages-count t p = refl

-- Whatever is appended between two requests, the second is the first without its tail, then new
-- messages, then its own tail; and both name the same number of leading messages as the prefix.
pub request_extends :
    (p : Pack) (bs : List Block) (t u : Tail)
    → (old new : List Message) × ((messages t p).0 ≡ old ++ tail_messages t)
      × ((messages u (append_all bs p)).0 ≡ (old ++ new) ++ tail_messages u)
      × ((messages u (append_all bs p)).1 ≡ (messages t p).1)
request_extends p bs t u =
    let (new, e) = append_all-Extends bs p in
    (
      sent p,
      new,
      messages-sent t p,
      messages-sent u (append_all bs p) ∙ ap (λ ms. ms ++ tail_messages u) e,
      messages-count u (append_all bs p) ∙ sym (messages-count t p),
    )

-- A pack that a repack gives has this prefix and this fence.
abbrev pub HoldsIfOk : Prefix → Fence → Result PackError Pack → Type 0
HoldsIfOk x f (ok q) = (q.prefix ≡ x) × (q.fence ≡ f)
HoldsIfOk x f (err e) = Unit {0}

pub new_pack-HoldsIfOk :
    (x : Prefix) (f : Fence) (budget : Budget) → HoldsIfOk x f (new_pack x f budget)
unfolding new_pack
new_pack-HoldsIfOk x f budget =
    if_split (HoldsIfOk x f) (not (valid f)) (λ a. tt)
      (λ a.
        if_split (HoldsIfOk x f) (budget.prefix == 0 || budget.log == 0) (λ b. tt)
          (λ b.
            if_split (HoldsIfOk x f) (ltb budget.prefix (prefix_tokens x f)) (λ c. tt)
              (λ c. (refl, refl))))

pub first_message :
    (t : Tail) (p : Pack)
    → get_elem? (messages t p).0 0
      ≡ some (message (codes "system") (system_text p.prefix.policy p.fence))
unfolding messages frozen
first_message t p = refl

pub second_message :
    (t : Tail) (p : Pack)
    → get_elem? (messages t p).0 1 ≡ some (message (codes "user") (frozen_user p.prefix))
unfolding messages frozen
second_message t p = refl

append-same :
    (b : Block) (p : Pack) → ((append b p).1.prefix ≡ p.prefix) × ((append b p).1.fence ≡ p.fence)
unfolding append
append-same b p =
    if_split (λ (r : Option PackError × Pack). (r.1.prefix ≡ p.prefix) × (r.1.fence ≡ p.fence))
      (ltb p.budget.log (p.log_tokens + cost p b)) (λ a. (refl, refl)) (λ a. (refl, refl))

-- What is appended leaves the prefix and the fence.
pub append_all-same :
    (bs : List Block) (p : Pack)
    → ((append_all bs p).prefix ≡ p.prefix) × ((append_all bs p).fence ≡ p.fence)
unfolding append_all
append_all-same [] p = (refl, refl)
append_all-same (b ∷ bs) p =
    let (x, f) = append-same b p in
    let (xs, fs) = append_all-same bs (append b p).1 in (xs ∙ x, fs ∙ f)

-- A pack has the prefix and the fence that it is made of, and its fence is valid.
pub new_pack-made :
    (x : Prefix) (f : Fence) (budget : Budget) (p : Pack)
    → new_pack x f budget ≡ ok p
    → (p.prefix ≡ x) × (p.fence ≡ f) × (valid f ≡ true)
new_pack-made x f budget p e =
    let (same, own) = subst (HoldsIfOk x f) e (new_pack-HoldsIfOk x f budget) in
    (same, own, subst (λ g. valid g ≡ true) own (new_pack-IsSound x f budget p e).has_fence)

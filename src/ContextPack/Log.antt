-- ===== src/ContextPack/Log.antt =====
-- The log of a pack: what is appended stays, within the budget, and every request extends the last.
use local_engineer.Prelude.{
  ℕ, ◌+◌, ◌≤◌, ◌≡◌, refl, ap, subst, true, not, ◌||◌, List, [], ◌∷◌, ◌++◌, Option, arith, ltb, ◌==◌,
  if_split, All, Result, ok, err,
}
use local_engineer.GoStrings.{Text}
use local_engineer.Trust.{Fence, valid}
use local_engineer.ContextPack.{
  Prefix, Block, BlockKind, evidence, tool_result, model_turn, Budget, Pack, PackError, truncated,
  estimate_tokens, render, prefix_tokens, cost, new_pack, append, with_card, repack,
}
use local_engineer.ContextPack.Lines.{truncate_cuts_once}

-- The whole cost of a log.
unfoldable pub total : Fence → List Block → ℕ
total f [] = 0
total f (b ∷ bs) = estimate_tokens (render f b) + total f bs

total-append :
    (f : Fence) (bs : List Block) (b : Block)
    → total f (bs ++ b ∷ []) ≡ total f bs + estimate_tokens (render f b)
unfolding total
total-append f [] b = omega arith
total-append f (a ∷ bs) b = omega (arith, total-append f bs b)

-- A block whose body would not be cut again.
abbrev pub IsCut : Block → Type 0
IsCut b = truncated b ≡ b

truncated-IsCut : (b : Block) → IsCut (truncated b)
truncated-IsCut b = of_kind b.kind b.origin b.body
  where
    of_kind :
        (k : BlockKind) (o t : Text) → IsCut (truncated (record { kind = k; origin = o; body = t }))
    of_kind evidence o t = refl
    of_kind model_turn o t = refl
    of_kind tool_result o t =
        ap (λ s. record { kind = tool_result; origin = o; body = s }) (truncate_cuts_once t).1

-- What holds of every pack: a fence, room in the budget for the prefix and for the log, a log whose
-- cost is the running count, and bodies that are cut.
pub record IsSound (p : Pack) : Type 0 where
  pub has_fence : valid p.fence ≡ true
  pub prefix_fits : prefix_tokens p.prefix p.fence ≤ p.budget.prefix
  pub log_fits : p.log_tokens ≤ p.budget.log
  pub counted : p.log_tokens ≡ total p.fence p.log
  pub is_cut : All IsCut p.log

All-append : (bs : List Block) (b : Block) → All IsCut bs → IsCut b → All IsCut (bs ++ b ∷ [])
All-append [] b h i = (i, tt)
All-append (a ∷ bs) b (h, hs) i = (h, All-append bs b hs i)

-- A pack, if there is one, is sound.
abbrev SoundIfOk : Result PackError Pack → Type 0
SoundIfOk (ok p) = IsSound p
SoundIfOk (err e) = Unit {0}

new_pack-SoundIfOk : (x : Prefix) (f : Fence) (budget : Budget) → SoundIfOk (new_pack x f budget)
unfolding new_pack
new_pack-SoundIfOk x f budget =
    if_split SoundIfOk (not (valid f)) (λ a. tt)
      (λ a.
        if_split SoundIfOk (budget.prefix == 0 || budget.log == 0) (λ b. tt)
          (λ b.
            if_split SoundIfOk (ltb budget.prefix (prefix_tokens x f)) (λ c. tt)
              (λ c. record {
                has_fence = ground (arith, a);
                prefix_fits = ground (arith, c);
                log_fits = omega arith;
                counted = unfold total in refl;
                is_cut = tt;
              })))

pub new_pack-IsSound :
    (x : Prefix) (f : Fence) (budget : Budget) (p : Pack) → new_pack x f budget ≡ ok p → IsSound p
new_pack-IsSound x f budget p e = subst SoundIfOk e (new_pack-SoundIfOk x f budget)

pub append-IsSound : (b : Block) (p : Pack) → IsSound p → IsSound (append b p).1
unfolding append
append-IsSound b p h =
    if_split (λ (r : Option PackError × Pack). IsSound r.1)
      (ltb p.budget.log (p.log_tokens + cost p b)) (λ a. h)
      (λ a. record {
        has_fence = h.has_fence;
        prefix_fits = h.prefix_fits;
        log_fits = ground (arith, a);
        counted = omega (arith, h.counted, total-append p.fence p.log (truncated b));
        is_cut = All-append p.log (truncated b) h.is_cut (truncated-IsCut b);
      })

-- What is done to a pack; after a repack that fails, the old pack is still there.
pub data Change : Type 0 where
  appends : Block → Change
  repacks : Text → Budget → Change

abbrev pub or_old : Result PackError Pack → Pack → Pack
or_old (ok next) p = next
or_old (err e) p = p

unfoldable pub change : Change → Pack → Pack
change (appends b) p = (append b p).1
change (repacks card budget) p = or_old (repack card budget p) p

unfoldable pub run : List Change → Pack → Pack
run [] p = p
run (c ∷ cs) p = run cs (change c p)

or_old-IsSound :
    (r : Result PackError Pack) (p : Pack) → SoundIfOk r → IsSound p → IsSound (or_old r p)
or_old-IsSound (ok next) p s h = s
or_old-IsSound (err e) p s h = h

change-IsSound : (c : Change) (q : Pack) → IsSound q → IsSound (change c q)
unfolding change repack
change-IsSound (appends b) q h = append-IsSound b q h
change-IsSound (repacks card b) q h =
    or_old-IsSound (repack card b q) q (new_pack-SoundIfOk (with_card card q.prefix) q.fence b) h

changes-IsSound : (cs : List Change) (q : Pack) → IsSound q → IsSound (run cs q)
unfolding run
changes-IsSound [] q h = h
changes-IsSound (c ∷ cs) q h = changes-IsSound cs (change c q) (change-IsSound c q h)

-- However a pack is used, it is sound: its fence is valid, its prefix and its log are within the
-- budget of the phase, the running count is the cost of the log as it is sent, and no body of the log
-- would be cut again.
pub run-IsSound :
    (x : Prefix) (f : Fence) (budget : Budget) (p : Pack) (cs : List Change)
    → new_pack x f budget ≡ ok p
    → IsSound (run cs p)
run-IsSound x f budget p cs e = changes-IsSound cs p (new_pack-IsSound x f budget p e)

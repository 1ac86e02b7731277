-- ===== src/Native/Progress/Streaks.antt =====
-- The guard counts what it says it counts, and ends exactly the loops that repeat themselves.
use local_engineer.Prelude.{
  ℕ, suc, ◌≡◌, refl, sym, ◌∙◌, ◌↔◌, inl, inr, List, [], ◌∷◌, Option, none, some, ◌<◌, arith, ap,
  subst, if◌then◌else◌, Bool-cases, Bool, true, false, not, ◌||◌, ◌++◌, map,
}
use local_engineer.GoStrings.{Text, text_eq, text_eq_iff}
use local_engineer.Recipe.{lookup}
use local_engineer.Native.Progress.{
  Worth, learned, repeated, end_of_step, Record, Progress, new_progress, going, put, count_answer,
  fingerprint, observe, first_repeat, stuck, repeat_limit, stale_limit,
}

lookup-put :
    (k j : Text) (r : Record) (m : List (Text × Record))
    → lookup j (put k r m) ≡ (if text_eq k j then some r else lookup j m)
unfolding lookup put
lookup-put k j r [] = refl
lookup-put k j r ((i, q) ∷ m) =
    ground (arith, text_eq_iff k j, text_eq_iff i k, text_eq_iff i j, lookup-put k j r m)

-- The length of a streak that one more answer `d` gives.
abbrev pub extend : Text → Option Record → ℕ
extend d none = 1
extend d (some r) = if text_eq r.digest d then suc r.count else 1

-- The last answer to a call, and how often it came in a row, the latest call first: other calls
-- between do not matter, and an answer that differs starts again.
unfoldable pub streak : Text → List (Text × Text) → Option Record
streak fp [] = none
streak fp ((k, d) ∷ before) =
    let earlier = streak fp before in
    if text_eq k fp then some (record { digest = d; count = extend d earlier }) else earlier

-- No call stands twice in the map.
unfoldable Distinct : List (Text × Record) → Type 0
Distinct [] = Unit
Distinct ((k, r) ∷ m) = (lookup k m ≡ none) × Distinct m

put-Distinct :
    (k : Text) (r : Record) (m : List (Text × Record)) → Distinct m → Distinct (put k r m)
unfolding Distinct put lookup
put-Distinct k r [] h = (refl, tt)
put-Distinct k r ((i, q) ∷ m) (fresh, h) =
    ground (arith, text_eq_iff i k, text_eq_iff k i, lookup-put k i r m, put-Distinct k r m h)

abbrev Short : (Text → Option Record) → Type 0
Short f = (fp : Text) (r : Record) → f fp ≡ some r → r.count < repeat_limit

lookup-other :
    (k fp : Text) (q r : Record) (m : List (Text × Record))
    → lookup k m ≡ none
    → lookup fp m ≡ some r
    → (if text_eq k fp then some q else lookup fp m) ≡ some r
lookup-other k fp q r m fresh u = elim (Bool-cases (text_eq k fp)) [
  | inr differ ↦ rw differ u
  | inl same ↦
      absurd (ground (arith, subst (λ t. lookup t m ≡ none) ((text_eq_iff k fp).0 same) fresh))
]

-- A call that the map does not hold adds its own record to what is short.
Short-cons :
    (k : Text) (q : Record) (m : List (Text × Record))
    → lookup k m ≡ none
    → Short (λ fp. lookup fp ((k, q) ∷ m)) ↔ ((q.count < repeat_limit) × Short (λ fp. lookup fp m))
unfolding lookup
Short-cons k q m fresh = (
  (λ h. (
    h k q (ground (arith, text_eq_iff k k)),
    (λ fp r u. h fp r (lookup-other k fp q r m fresh u)),
  )),
  (λ (small, h) fp r u. ground (arith, h fp r)),
)

nothing : Short (λ fp. lookup fp [])
unfolding lookup
nothing fp r u = absurd (ground arith)

first_repeat-going :
    (m : List (Text × Record)) → Distinct m → (first_repeat m ≡ going) ↔ Short (λ fp. lookup fp m)
unfolding Distinct first_repeat
first_repeat-going [] h = ((λ e. nothing), (λ e. refl))
first_repeat-going ((k, q) ∷ m) (fresh, h) =
    ground (arith, Short-cons k q m fresh, first_repeat-going m h)

abbrev is_learned : Worth → Bool
is_learned learned = true
is_learned repeated = false

-- Not the answer of the record.
abbrev pub differs : Text → Option Record → Bool
differs d none = true
differs d (some r) = not (text_eq r.digest d)

count_answer-differs :
    (d : Text) (r : Option Record) → is_learned (count_answer d r).1 ≡ differs d r
unfolding count_answer
count_answer-differs d none = refl
count_answer-differs d (some r) = ground arith

ended :
    (b : Bool) (p : Progress) (n : ℕ)
    → end_of_step b (record p { stale = n }) ≡ record p { stale = if b then 0 else suc n }
unfolding end_of_step
ended true p n = refl
ended false p n = refl

-- One call of a step: what was asked and answered, and whether it edited or was done.
pub record Called : Type 0 where
  pub name : Text
  pub arguments : Text
  pub content : Text
  pub changed : Bool

module _ (canonical : Text → Text) (digest_of : Text → Text) where
  -- The calls of an attempt with their answers, the latest first: name, arguments, content.
  abbrev pub observe_all : List (Text × Text × Text) → Progress
  observe_all [] = new_progress
  observe_all ((name, arguments, content) ∷ before) =
      (observe canonical digest_of (observe_all before) name arguments content).0

  -- The same, each call by its fingerprint and each answer by its digest.
  abbrev pub answers : List (Text × Text × Text) → List (Text × Text)
  answers [] = []
  answers ((name, arguments, content) ∷ before) =
      (fingerprint canonical digest_of name arguments, digest_of content) ∷ answers before

  count_answer-extend :
      (d : Text) (r : Option Record)
      → (count_answer d r).0 ≡ record { digest = d; count = extend d r }
  unfolding count_answer
  count_answer-extend d none = refl
  count_answer-extend d (some r) = ground (arith, text_eq_iff r.digest d)

  observe-seen :
      (p : Progress) (name arguments content fp : Text)
      → lookup fp (observe canonical digest_of p name arguments content).0.seen ≡ (
          if text_eq (fingerprint canonical digest_of name arguments) fp
          then some (record {
            digest = digest_of content;
            count =
                extend
                  (digest_of content)
                  (lookup (fingerprint canonical digest_of name arguments) p.seen);
          })
          else lookup fp p.seen)
  unfolding observe
  observe-seen p name arguments content fp =
      let k = fingerprint canonical digest_of name arguments in
      let r = lookup k p.seen in
      lookup-put k fp (count_answer (digest_of content) r).0 p.seen
      ∙ ap (λ q. if text_eq k fp then some q else lookup fp p.seen)
          (count_answer-extend (digest_of content) r)

  observe-Distinct :
      (p : Progress) (name arguments content : Text)
      → Distinct p.seen
      → Distinct (observe canonical digest_of p name arguments content).0.seen
  unfolding observe
  observe-Distinct p name arguments content h =
      let k = fingerprint canonical digest_of name arguments in
      put-Distinct k (count_answer (digest_of content) (lookup k p.seen)).0 p.seen h

  observe_all-Distinct : (calls : List (Text × Text × Text)) → Distinct (observe_all calls).seen
  observe_all-Distinct [] = unfold Distinct in tt
  observe_all-Distinct ((name, arguments, content) ∷ before) =
      observe-Distinct (observe_all before) name arguments content (observe_all-Distinct before)

  -- After any calls, the map holds for each fingerprint the last answer to it and how often that answer
  -- came in a row.
  pub seen_is_streak :
      (fp : Text) (calls : List (Text × Text × Text))
      → lookup fp (observe_all calls).seen ≡ streak fp (answers calls)
  unfolding streak
  seen_is_streak fp [] = unfold lookup in refl
  seen_is_streak fp ((name, arguments, content) ∷ before) =
      let k = fingerprint canonical digest_of name arguments in
      let ih = seen_is_streak fp before in
      observe-seen (observe_all before) name arguments content fp
      ∙ elim (Bool-cases (text_eq k fp)) [
        | inl same ↦ rw (same, (text_eq_iff k fp).0 same, ih) refl
        | inr differ ↦ rw (differ, ih) refl
      ]

  stuck-going :
      (calls : List (Text × Text × Text)) (stale : ℕ)
      → (stuck (record (observe_all calls) { stale = stale }) ≡ going) ↔ (
          (stale < stale_limit)
          × ((fp : Text) (r : Record)
              → streak fp (answers calls) ≡ some r
              → r.count < repeat_limit))
  unfolding stuck
  stuck-going calls stale =
      let short = first_repeat-going (observe_all calls).seen (observe_all-Distinct calls) in
      (
        (λ e.
            (ground arith, (λ fp r u. short.0 (ground arith) fp r (seen_is_streak fp calls ∙ u)))),
        (λ (fresh, h).
            let quiet = short.1 (λ fp r u. h fp r (sym (seen_is_streak fp calls) ∙ u)) in
            ground arith),
      )

  abbrev asked : Called → Text × Text × Text
  asked c = (c.name, c.arguments, c.content)

  -- All calls of the steps, the latest first.
  abbrev pub flat : List (List Called) → List (Text × Text × Text)
  flat [] = []
  flat (step ∷ earlier) = map asked step ++ flat earlier

  -- The calls of one step as the loop observes them, and whether it has learned anything by then.
  abbrev pub observe_step : Progress → List Called → Progress × Bool
  observe_step p [] = (p, false)
  observe_step p (c ∷ before) =
      let (q, so_far) = observe_step p before in
      let (next, worth, times) = observe canonical digest_of q c.name c.arguments c.content in
      (next, so_far || is_learned worth || c.changed)

  -- The guard after these steps, each observed and then ended.
  abbrev pub guard : List (List Called) → Progress
  guard [] = new_progress
  guard (step ∷ earlier) =
      let (p, learned_anything) = observe_step (guard earlier) step in
      end_of_step learned_anything p

  -- The answer differs from the last one to the same call, or there was none.
  abbrev pub is_news : Called → List (Text × Text × Text) → Bool
  is_news c before =
      differs (digest_of c.content)
        (streak (fingerprint canonical digest_of c.name c.arguments) (answers before))

  -- A call of the step had a new answer, or changed the checkout, or ended the task.
  abbrev pub teaches : List Called → List (Text × Text × Text) → Bool
  teaches [] earlier = false
  teaches (c ∷ before) earlier =
      teaches before earlier || is_news c (map asked before ++ earlier) || c.changed

  -- How many of the latest steps in a row taught nothing.
  abbrev pub idle : List (List Called) → ℕ
  idle [] = 0
  idle (step ∷ earlier) = if teaches step (flat earlier) then 0 else suc (idle earlier)

  observe-news :
      (n : ℕ) (c : Called) (before : List (Text × Text × Text))
      → is_learned
          (observe canonical digest_of
            (record (observe_all before) { stale = n })
            c.name
            c.arguments
            c.content).1
        ≡ is_news c before
  unfolding observe
  observe-news n c before =
      ap (λ r. is_learned (count_answer (digest_of c.content) r).1)
        (seen_is_streak (fingerprint canonical digest_of c.name c.arguments) before)
      ∙ count_answer-differs (digest_of c.content) _

  observe_step-teaches :
      (n : ℕ) (step : List Called) (earlier : List (Text × Text × Text))
      → observe_step (record (observe_all earlier) { stale = n }) step
        ≡ (record (observe_all (map asked step ++ earlier)) { stale = n }, teaches step earlier)
  unfolding observe
  observe_step-teaches n [] earlier = refl
  observe_step-teaches n (c ∷ before) earlier =
      let all = map asked before ++ earlier in
      ap
        (λ (x : Progress × Bool).
          let (next, worth, times) = observe canonical digest_of x.0 c.name c.arguments c.content in
          (next, x.1 || is_learned worth || c.changed))
        (observe_step-teaches n before earlier)
      ∙ ap
          (λ news. (
            record (observe_all (asked c ∷ all)) { stale = n },
            teaches before earlier || news || c.changed,
          ))
          (observe-news n c all)

  guard-idle :
      (steps : List (List Called))
      → guard steps ≡ record (observe_all (flat steps)) { stale = idle steps }
  guard-idle [] = refl
  guard-idle (step ∷ earlier) =
      ap (λ (x : Progress × Bool). end_of_step x.1 x.0)
        (ap (λ p. observe_step p step) (guard-idle earlier)
          ∙ observe_step-teaches (idle earlier) step (flat earlier))
      ∙ ended (teaches step (flat earlier)) (observe_all (flat (step ∷ earlier))) (idle earlier)

  -- The loop guard lets an attempt go on exactly when fewer than three of its latest steps in a row
  -- taught it nothing, and no call has had the same answer three times in a row. A step teaches
  -- something when one of its calls had another answer than the last time or its first answer, changed
  -- the checkout or ended the task. Two calls are the same when their fingerprints are, two answers when
  -- their digests are.
  pub guard_exact :
      (steps : List (List Called))
      → (stuck (guard steps) ≡ going) ↔ (
          (idle steps < stale_limit)
          × ((fp : Text) (r : Record)
              → streak fp (answers (flat steps)) ≡ some r
              → r.count < repeat_limit))
  guard_exact steps = rw (guard-idle steps) (stuck-going (flat steps) (idle steps))

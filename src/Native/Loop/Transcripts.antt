-- ===== src/Native/Loop/Transcripts.antt =====
-- Every transcript that an attempt saves can be sent to a provider again, and stays in its budgets.
use local_engineer.Prelude.{
  ℕ, zero, suc, ◌+◌, ◌-◌, ◌≤◌, ◌≡◌, refl, sym, ap, ◌∙◌, false, List, [], ◌∷◌, Option, none, some,
  arith, is_empty, Option-cases, if_split, inl, inr,
}
use local_engineer.GoStrings.{Text, text_eq}
use local_engineer.Trust.{Fence, restore_fence}
use local_engineer.Native.{ToolCall}
use local_engineer.Native.Progress.{stuck, end_of_step}
use local_engineer.Native.Exec.{Request}
use local_engineer.Native.Loop.{
  Transcript, Budget, Engine, Reply, LoopHost, Limit, context_exhausted, tokens_exhausted, at_most,
  Flow, goes_on, returns, fails, Live,
}
use local_engineer.Native.Loop.Turn.{
  assistant_message, is_going, done_in_batch, end_turn, appended, read_reply, turn, hear, ask_model,
  step_limit, go_on, loop, attempt, seed, resume,
}
use local_engineer.Native.Loop.Batches.{
  unanswered, unanswered-append, IsBounded, Coherent, Fine, Leaves, persist-Fine, finish-Leaves,
  unless_failed-Leaves, run_calls-Leaves,
}

said :
    (content : Text) (calls : List ToolCall)
    → unanswered [] (assistant_message content calls ∷ []) ≡ some calls
unfolding unanswered text_eq
said content calls = refl

module _ {W : Type 0} (host : LoopHost W) (req : Request) (engine : Engine) (budget : Budget) where
  abbrev bound : ℕ
  bound = step_limit host req engine budget

  -- The fields that `Fine` reads are the same.
  again :
      (limit : ℕ) (calls : List ToolCall) (s s' : Live W)
      → Fine W limit calls s
      → s'.messages ≡ s.messages
      → s'.saved ≡ s.saved
      → IsBounded limit s'.tr
      → Fine W limit calls s'
  again limit calls s s' f m v b = record {
    open_calls = rw m f.open_calls;
    bounded = b;
    stored = λ t e. f.stored t (sym v ∙ e);
  }

  appended-Fine :
      (limit : ℕ) (content : Text) (calls : List ToolCall) (s : Live W)
      → Fine W limit [] s
      → Fine W limit calls (appended host req engine budget (assistant_message content calls) s)
  appended-Fine limit content calls s f = record {
    open_calls = unanswered-append [] [] s.messages _ f.open_calls ∙ said content calls;
    bounded = f.bounded;
    stored = f.stored;
  }

  end_turn-Leaves :
      (limit : ℕ) (fence : Fence) (r : Flow × Live W)
      → Leaves limit r
      → Leaves limit (end_turn host req engine budget fence r)
  unfolding end_turn
  end_turn-Leaves limit fence (goes_on, s) f =
      let p = end_of_step s.learned_this_step s.progress in
      if_split (Leaves limit) (is_going (stuck p))
        (λ g. again limit [] s (record s { progress = p }) f refl refl f.bounded)
        (λ g.
          finish-Leaves host req fence limit [] _ (again limit [] s _ f refl refl f.bounded)
            (λ q. refl))
  end_turn-Leaves limit fence (returns, s) f = f
  end_turn-Leaves limit fence (fails e, s) f = f

  read_reply-Leaves :
      (limit : ℕ) (fence : Fence) (n cap : ℕ) (r : Reply) (s : Live W)
      → Fine W limit [] s
      → Leaves limit (read_reply host req engine budget fence n cap r s)
  unfolding read_reply
  read_reply-Leaves limit fence n cap r s f =
      if_split (Leaves limit) (is_empty r.tool_calls)
        (λ e.
          finish-Leaves host req fence limit [] _
            (again limit [] (appended host req engine budget (assistant_message r.content []) s) _
              (appended-Fine limit r.content [] s f) refl refl f.bounded)
            (λ q. refl))
        λ e.
          if_split (Leaves limit) (done_in_batch r.tool_calls) (λ d. ([], f))
            λ d. end_turn-Leaves limit fence _ (
              run_calls-Leaves host req fence limit r.tool_calls _ (
                again limit r.tool_calls
                  (appended host req engine budget (assistant_message r.content r.tool_calls) s) _
                  (appended-Fine limit r.content r.tool_calls s f) refl refl f.bounded))

  hear-Leaves :
      (limit : ℕ) (fence : Fence) (n cap estimate : ℕ) (s : Live W) (r : Option Reply × W)
      → n ≤ limit
      → Fine W limit [] s
      → Leaves limit (hear host req engine budget fence n cap estimate s r)
  unfolding hear
  hear-Leaves limit fence n cap estimate s (none, w) small f =
      ([], again limit [] s _ f refl refl f.bounded)
  hear-Leaves limit fence n cap estimate s (some r, w) small f =
      read_reply-Leaves limit fence n cap r _
        (again limit [] s _ f refl refl (f.bounded.0, f.bounded.1, f.bounded.2, small))

  ask_model-Leaves :
      (limit : ℕ) (fence : Fence) (n estimate : ℕ) (s : Live W) (l : Limit)
      → n ≤ limit
      → Fine W limit [] s
      → Leaves limit (ask_model host req engine budget fence n estimate s l)
  unfolding ask_model
  ask_model-Leaves limit fence n estimate s context_exhausted small f =
      finish-Leaves host req fence limit [] _ (again limit [] s _ f refl refl f.bounded) (λ q. refl)
  ask_model-Leaves limit fence n estimate s tokens_exhausted small f =
      finish-Leaves host req fence limit [] _ (again limit [] s _ f refl refl f.bounded) (λ q. refl)
  ask_model-Leaves limit fence n estimate s (at_most cap) small f =
      hear-Leaves limit fence n cap estimate s _ small f

  turn-Leaves :
      (limit : ℕ) (fence : Fence) (n : ℕ) (s : Live W)
      → n ≤ limit
      → Fine W limit [] s
      → Leaves limit (turn host req engine budget fence n s)
  unfolding turn
  turn-Leaves limit fence n s small f = elim (Option-cases (host.cancelled s.world)) [
    | inr (why, c) ↦ rw (turn, c) ([], again limit [] s _ f refl refl f.bounded)
    | inl c ↦ rw (turn, c) (ask_model-Leaves limit fence n _ s _ small f)
  ]

  go_on-Leaves :
      (limit : ℕ) (r : Flow × Live W) (rest : Live W → Flow × Live W)
      → Leaves limit r
      → ((s : Live W) → Fine W limit [] s → Leaves limit (rest s))
      → Leaves limit (go_on host req engine budget r rest)
  unfolding go_on
  go_on-Leaves limit (goes_on, s) rest f h = h s f
  go_on-Leaves limit (returns, s) rest f h = f
  go_on-Leaves limit (fails e, s) rest f h = f

  loop-Leaves :
      (limit : ℕ) (fence : Fence) (rounds n : ℕ) (s : Live W)
      → rounds ≤ limit + 1 - n
      → Fine W limit [] s
      → Leaves limit (loop host req engine budget fence rounds n s)
  unfolding loop
  loop-Leaves limit fence zero n s room f =
      finish-Leaves host req fence limit [] _ (again limit [] s _ f refl refl f.bounded) (λ q. refl)
  loop-Leaves limit fence (suc rounds) n s room f =
      go_on-Leaves limit _ _ (turn-Leaves limit fence n s (omega arith) f)
        (λ s' f'. loop-Leaves limit fence rounds (n + 1) s' (omega arith) f')

  attempt-Leaves :
      (fence : Fence) (s : Live W)
      → Fine W bound [] s
      → Leaves bound (attempt host req engine budget fence s)
  unfolding attempt
  attempt-Leaves fence s f =
      let f' =
        persist-Fine host req fence bound [] _ (again bound [] s _ f refl refl f.bounded)
          (λ q. refl) in
      unless_failed-Leaves host req fence bound [] _ _ f'
        (loop-Leaves bound fence (bound - s.tr.steps) (s.tr.steps + 1) _ (omega arith) f')

  seeded :
      (system brief : Text) → unanswered [] (seed host req engine budget system brief) ≡ some []
  unfolding unanswered text_eq
  seeded system brief = refl

  Leaves-stored :
      (limit : ℕ) (r : Flow × Live W)
      → Leaves limit r
      → (t : Transcript) → r.1.saved ≡ some t
      → Coherent limit t
  Leaves-stored limit (goes_on, s) f = f.stored
  Leaves-stored limit (returns, s) (a, f) = f.stored
  Leaves-stored limit (fails e, s) (a, f) = f.stored

  -- However an attempt ends, whichever call or save fails, the transcript that it leaves
  -- in the database is coherent: each call that the model was told about has its answer after it, in
  -- order, except for the calls at the end of a batch that the transcript marks as pending; and the
  -- steps, the tool calls, the verification runs and the invalid calls are within their limits. The
  -- attempt starts from a transcript that is coherent and not pending, a new one for instance.
  pub resume-Coherent :
      (system brief : Text) (s : Live W)
      → Coherent bound s.tr
      → s.tr.pending ≡ false
      → ((t : Transcript) → s.saved ≡ some t → Coherent bound t)
      → (t : Transcript) → (resume host req engine budget system brief s).1.saved ≡ some t
      → Coherent bound t
  unfolding resume
  resume-Coherent system brief s c p stored =
      if_split (λ (r : Flow × Live W). (t : Transcript) → r.1.saved ≡ some t → Coherent bound t)
        s.tr.closed (λ e. stored)
        λ e.
          if_split (λ (r : Flow × Live W). (t : Transcript) → r.1.saved ≡ some t → Coherent bound t)
            (is_empty s.tr.messages)
            (λ n. Leaves-stored bound _ (
              attempt-Leaves engine.fence _ (record {
                open_calls = seeded system brief;
                bounded = c.bounded;
                stored = stored;
              })))
            λ n. elim (Option-cases (restore_fence s.tr.fence_token)) [
              | inl r ↦ rw r stored
              | inr (fence, r) ↦ rw r (
                  Leaves-stored bound _ (
                    attempt-Leaves fence _ (record {
                      open_calls = c.open_calls ∙ ap some (c.settled p);
                      bounded = c.bounded;
                      stored = stored;
                    })))
            ]

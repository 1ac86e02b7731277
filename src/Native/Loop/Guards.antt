-- ===== src/Native/Loop/Guards.antt =====
-- What holds before the model or a tool is called.
use local_engineer.Prelude.{
  ℕ, ◌+◌, ◌≤◌, ◌<◌, ◌≡◌, ◌≢◌, refl, false, List, [], ◌∷◌, Option, none, some, arith, if_split,
  Option-cases, inl, inr,
}
use local_engineer.Trust.{Fence}
use local_engineer.Native.{ToolCall}
use local_engineer.Native.Exec.{Request}
use local_engineer.Native.Loop.{
  Budget, Engine, at_most, tighter, output_limit, request_limit, LoopHost, StepError, Flow, Live,
  calls_exhausted,
}
use local_engineer.Native.Loop.Calls.{
  persist, finish, closing, run_calls, refuse_rest, mark_pending, unless_failed,
}

-- A request that is sent asks for at least one token, for no more than the profile and the budget
-- allow an answer, and fits: prompt and answer into the context window where there is one, and what
-- was used before with both into the token budget where there is one.
pub request_limit_fits :
    (e : Engine) (b : Budget) (used estimate n : ℕ)
    → request_limit e b used estimate ≡ at_most n
    → (0 < n)
      × (n ≤ output_limit e b)
      × (tighter e.context_tokens b.context_tokens ≢ 0
          → estimate + n ≤ tighter e.context_tokens b.context_tokens)
      × (b.max_tokens ≢ 0 → used + estimate + n ≤ b.max_tokens)
unfolding request_limit
request_limit_fits e b used estimate n h = ground arith

module _ {W : Type 0} (host : LoopHost W) (req : Request) (fence : Fence) where
  abbrev Idle : Live W → Flow × Live W → Type 0
  Idle s r = (r.1.world ≡ s.world) × (r.1.journal ≡ s.journal)

  persist-Idle :
      (s : Live W)
      → ((persist host req fence s).1.world ≡ s.world)
        × ((persist host req fence s).1.journal ≡ s.journal)
  unfolding persist
  persist-Idle s = elim (Option-cases (host.tools.manifest s.world)) [
    | inl m ↦ rw (persist, m) (refl, refl)
    | inr (c, m) ↦
        rw (persist, m)
          (if_split
            (λ (r : Option StepError × Live W). (r.1.world ≡ s.world) × (r.1.journal ≡ s.journal))
            (host.saves s.world) (λ t. (refl, refl)) (λ t. (refl, refl)))
  ]

  finish-Idle : (s : Live W) → Idle s (finish host req fence s)
  unfolding finish
  finish-Idle s = persist-Idle (closing host req fence s)

  persist-fails : (s : Live W) → host.saves s.world ≡ false → (persist host req fence s).0 ≢ none
  unfolding persist
  persist-fails s h = elim (Option-cases (host.tools.manifest s.world)) [
    | inl m ↦ λ e. ground arith
    | inr (c, m) ↦ λ e. ground arith
  ]

  unless_failed-Idle :
      (p : Option StepError × Live W) (rest : Live W → Flow × Live W) (s : Live W)
      → p.0 ≢ none
      → (p.1.world ≡ s.world) × (p.1.journal ≡ s.journal)
      → Idle s (unless_failed host req fence p rest)
  unfolding unless_failed
  unless_failed-Idle (none, s') rest s ne same = absurd (ne refl)
  unless_failed-Idle (some e, s') rest s ne same = same

  -- A batch that cannot be recorded as pending is not begun: no tool acts, and the journal is as it was.
  pub unsaved_batch_is_idle :
      (calls : List ToolCall) (s : Live W)
      → host.saves s.world ≡ false
      → ((run_calls host req fence calls s).1.world ≡ s.world)
        × ((run_calls host req fence calls s).1.journal ≡ s.journal)
  unfolding run_calls
  unsaved_batch_is_idle [] s h = (refl, refl)
  unsaved_batch_is_idle (c ∷ cs) s h =
      if_split (Idle s) (calls_exhausted s.tr c)
        (λ e. finish-Idle (refuse_rest host req fence (c ∷ cs) s))
        (λ e.
          unless_failed-Idle _ _ s (persist-fails (mark_pending host req fence s) h)
            (persist-Idle (mark_pending host req fence s)))

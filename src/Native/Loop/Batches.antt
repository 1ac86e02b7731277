-- ===== src/Native/Loop/Batches.antt =====
-- What every transcript that the loop saves keeps: each call that the model was told about has its
-- answer, unless the transcript says that its batch is pending, and no budget is overrun.
use local_engineer.Prelude.{
  ℕ, ◌≤◌, ◌≡◌, refl, sym, ◌∙◌, Bool, false, not, ◌&&◌, List, [], ◌∷◌, ◌++◌, Option, none, some,
  arith, if◌then◌else◌, is_empty, map, Option-cases, if_split, inl, inr,
}
use local_engineer.GoStrings.{Text, codes, text_eq}
use local_engineer.GoStrings.Laws.{text_eq_refl}
use local_engineer.Trust.{Fence}
use local_engineer.Native.{ToolCall}
use local_engineer.Native.Exec.{Request, Executed}
use local_engineer.Native.Loop.{
  Message, Transcript, LoopHost, StepError, Flow, goes_on, returns, fails, Live, tool_message,
  calls_exhausted, max_tools, max_verify_runs, max_invalid,
}
use local_engineer.Native.Loop.Calls.{
  persist, flow_of, closing, finish, refuse_rest, record_result, mark_pending, run_tool, claim_done,
  unless_failed, run_call, run_calls,
}

abbrev pub is_role : Text → Message → Bool
is_role role m = text_eq m.role role

-- Only a turn of the assistant asks for calls.
abbrev pub calls_of : Message → List ToolCall
calls_of m = if is_role (codes "assistant") m then m.tool_calls else []

abbrev pub answers_call : Message → ToolCall → Bool
answers_call m c = is_role (codes "tool") m && text_eq m.tool_call_id c.id

-- The calls that still have no answer at the end of a conversation, `none` for one that a provider
-- would refuse: an answer to no call, or a call that another message cuts off.
unfoldable pub unanswered : List ToolCall → List Message → Option (List ToolCall)
unanswered calls [] = some calls
unanswered [] (m ∷ ms) = if is_role (codes "tool") m then none else unanswered (calls_of m) ms
unanswered (c ∷ cs) (m ∷ ms) = if answers_call m c then unanswered cs ms else none

pub unanswered-append :
    (a b : List ToolCall) (xs ys : List Message)
    → unanswered a xs ≡ some b
    → unanswered a (xs ++ ys) ≡ unanswered b ys
unfolding unanswered
unanswered-append a b [] ys h = ground arith
unanswered-append [] b (m ∷ ms) ys h = ground (arith, unanswered-append (calls_of m) b ms ys)
unanswered-append (c ∷ cs) b (m ∷ ms) ys h = ground (arith, unanswered-append cs b ms ys)

-- Answers to the calls of a batch, in order, leave none open.
pub unanswered-answers :
    (f : ToolCall → Text) (calls : List ToolCall)
    → unanswered calls (map (λ c. tool_message c (f c)) calls) ≡ some []
unfolding unanswered
unanswered-answers f [] = refl
unanswered-answers f (c ∷ cs) =
    ground (arith, text_eq_refl c.id, text_eq_refl (codes "tool"), unanswered-answers f cs)

-- The counters of a transcript, with `limit` for its steps.
abbrev pub IsBounded : ℕ → Transcript → Type 0
IsBounded limit t =
    (t.tools ≤ max_tools)
    × (t.verify_runs ≤ max_verify_runs)
    × (t.invalid_calls ≤ max_invalid)
    × (t.steps ≤ limit)

pub record Coherent (limit : ℕ) (t : Transcript) : Type 0 where
  pub rest : List ToolCall
  pub open_calls : unanswered [] t.messages ≡ some rest
  pub settled : t.pending ≡ false → rest ≡ []
  pub bounded : IsBounded limit t

-- The state of the loop while `calls` wait for their answers.
pub record Fine (W : Type 0) (limit : ℕ) (calls : List ToolCall) (s : Live W) : Type 0 where
  pub open_calls : unanswered [] s.messages ≡ some calls
  pub bounded : IsBounded limit s.tr
  pub stored : (t : Transcript) → s.saved ≡ some t → Coherent limit t

abbrev pub Leaves : {W : Type 0} → ℕ → Flow × Live W → Type 0
Leaves {W} limit (goes_on, s) = Fine W limit [] s
Leaves {W} limit (returns, s) = (a : List ToolCall) × Fine W limit a s
Leaves {W} limit (fails e, s) = (a : List ToolCall) × Fine W limit a s

module _ {W : Type 0} (host : LoopHost W) (req : Request) (fence : Fence) (limit : ℕ) where
  stored-new :
      (calls : List ToolCall) (s : Live W) (c : Text)
      → Fine W limit calls s
      → (s.tr.pending ≡ false → calls ≡ [])
      → (t : Transcript) → some (record s.tr { messages = s.messages; candidate = c }) ≡ some t
      → Coherent limit t
  stored-new calls s c f p t e =
      let same : record s.tr { messages = s.messages; candidate = c } ≡ t = cc e in
      rw (← same)
        (record { rest = calls; open_calls = f.open_calls; settled = p; bounded = f.bounded })

  pub persist-Fine :
      (calls : List ToolCall) (s : Live W)
      → Fine W limit calls s
      → (s.tr.pending ≡ false → calls ≡ [])
      → Fine W limit calls (persist host req fence s).1
  unfolding persist
  persist-Fine calls s f p = elim (Option-cases (host.tools.manifest s.world)) [
    | inl m ↦
        rw (persist, m)
          (record { open_calls = f.open_calls; bounded = f.bounded; stored = f.stored })
    | inr (c, m) ↦
        rw (persist, m)
          (if_split (λ (r : Option StepError × Live W). Fine W limit calls r.1) (host.saves s.world)
            (λ t. record {
              open_calls = f.open_calls;
              bounded = f.bounded;
              stored = stored-new calls s c f p;
            })
            (λ t. record { open_calls = f.open_calls; bounded = f.bounded; stored = f.stored }))
  ]

  flow-Leaves :
      (calls : List ToolCall) (e : Option StepError) (s : Live W)
      → Fine W limit calls s
      → Leaves limit (flow_of host req fence e, s)
  flow-Leaves calls none s f = (calls, f)
  flow-Leaves calls (some e) s f = (calls, f)

  pub finish-Leaves :
      (calls : List ToolCall) (s : Live W)
      → Fine W limit calls s
      → (s.tr.pending ≡ false → calls ≡ [])
      → Leaves limit (finish host req fence s)
  unfolding finish
  finish-Leaves calls s f p = flow-Leaves calls _ _ (
      persist-Fine calls (closing host req fence s)
        (record { open_calls = f.open_calls; bounded = f.bounded; stored = f.stored }) p)

  pub unless_failed-Leaves :
      (calls : List ToolCall) (p : Option StepError × Live W) (rest : Live W → Flow × Live W)
      → Fine W limit calls p.1
      → Leaves limit (rest p.1)
      → Leaves limit (unless_failed host req fence p rest)
  unfolding unless_failed
  unless_failed-Leaves calls (none, s) rest f h = h
  unless_failed-Leaves calls (some e, s) rest f h = (calls, f)

  refuse_rest-Fine :
      (calls : List ToolCall) (s : Live W)
      → Fine W limit calls s
      → Fine W limit [] (refuse_rest host req fence calls s)
  refuse_rest-Fine calls s f = record {
    open_calls =
        unanswered-append [] calls s.messages _ f.open_calls
        ∙ unanswered-answers (λ c. codes "Not executed: EDIT phase budget exhausted.") calls;
    bounded = f.bounded;
    stored = f.stored;
  }

  answered :
      (c : ToolCall) (cs : List ToolCall) (content : Text)
      → unanswered (c ∷ cs) (tool_message c content ∷ []) ≡ some cs
  unfolding unanswered
  answered c cs content = ground (arith, text_eq_refl c.id, text_eq_refl (codes "tool"))

  record_result-Fine :
      (c : ToolCall) (cs : List ToolCall) (last : Bool) (x : Executed W) (s : Live W)
      → Fine W limit (c ∷ cs) s
      → calls_exhausted s.tr c ≡ false
      → Fine W limit cs (record_result host req fence c last x s)
  unfolding record_result
  record_result-Fine c cs last x s f room = record {
    open_calls = unanswered-append [] (c ∷ cs) s.messages _ f.open_calls ∙ answered c cs _;
    bounded = ground (arith, f.bounded);
    stored = f.stored;
  }

  record_result-pending :
      (c : ToolCall) (last : Bool) (x : Executed W) (s : Live W)
      → (record_result host req fence c last x s).tr.pending ≡ not last
  unfolding record_result
  record_result-pending c last x s = refl

  last_call : (cs : List ToolCall) → not (is_empty cs) ≡ false → cs ≡ []
  last_call [] h = refl
  last_call (c ∷ cs) h = cc

  persist-exhausted :
      (c : ToolCall) (s : Live W)
      → calls_exhausted (persist host req fence s).1.tr c ≡ calls_exhausted s.tr c
  unfolding persist
  persist-exhausted c s = elim (Option-cases (host.tools.manifest s.world)) [
    | inl m ↦ rw (persist, m) refl
    | inr (d, m) ↦
        rw (persist, m)
          (if_split
            (λ (r : Option StepError × Live W). calls_exhausted r.1.tr c ≡ calls_exhausted s.tr c)
            (host.saves s.world) (λ t. refl) (λ t. refl))
  ]

  run_call-Leaves :
      (c : ToolCall) (cs : List ToolCall) (rest : Live W → Flow × Live W) (s : Live W)
      → Fine W limit (c ∷ cs) s
      → calls_exhausted s.tr c ≡ false
      → ((s' : Live W) → Fine W limit cs s' → Leaves limit (rest s'))
      → Leaves limit (run_call host req fence c (is_empty cs) rest s)
  unfolding run_call
  run_call-Leaves c cs rest s f room h =
      let x = run_tool host req fence c s in
      let f' = record_result-Fine c cs (is_empty cs) x s f room in
      let pend : (record_result host req fence c (is_empty cs) x s).tr.pending ≡ false → cs ≡ [] =
        λ p. last_call cs (sym (record_result-pending c (is_empty cs) x s) ∙ p) in
      elim (Option-cases x.error) [
        | inr (e, b) ↦
            rw (run_call, b)
              (c ∷ cs, record { open_calls = f.open_calls; bounded = f.bounded; stored = f.stored })
        | inl b ↦
            rw (run_call, b)
              (if_split (Leaves limit) x.result.done
                (λ d.
                  finish-Leaves cs
                    (claim_done host req fence x.result.summary
                      (record_result host req fence c (is_empty cs) x s))
                    (record {
                      open_calls = f'.open_calls;
                      bounded = f'.bounded;
                      stored = f'.stored;
                    })
                    pend)
                (λ d.
                  let f'' =
                    persist-Fine cs (record_result host req fence c (is_empty cs) x s) f' pend in
                  unless_failed-Leaves cs _ rest f'' (h _ f'')))
      ]

  pub run_calls-Leaves :
      (calls : List ToolCall) (s : Live W)
      → Fine W limit calls s
      → Leaves limit (run_calls host req fence calls s)
  unfolding run_calls
  run_calls-Leaves [] s f = f
  run_calls-Leaves (c ∷ cs) s f =
      if_split (Leaves limit) (calls_exhausted s.tr c)
        (λ e. finish-Leaves [] _ (refuse_rest-Fine (c ∷ cs) s f) (λ p. refl))
        λ e.
          let f' =
            persist-Fine (c ∷ cs) (mark_pending host req fence s)
              (record { open_calls = f.open_calls; bounded = f.bounded; stored = f.stored })
              (λ p. cc) in
          unless_failed-Leaves (c ∷ cs) _ _ f' (
            run_call-Leaves c cs (λ s'. run_calls host req fence cs s') _ f'
              (persist-exhausted c (mark_pending host req fence s) ∙ e)
              (λ s' g. run_calls-Leaves cs s' g))

-- ===== src/Native/Loop/Turn.antt =====
-- `Step` of internal/engine/native/native.go: the rounds of the loop, from a new transcript or from a
-- saved one.
use local_engineer.Prelude.{
  ℕ, zero, suc, ◌+◌, ◌-◌, Bool, true, false, ◌&&◌, List, [], ◌∷◌, ◌++◌, Option, none, some, ltb,
  if◌then◌else◌, length, is_empty, any, min,
}
use local_engineer.GoStrings.{Text, codes, text_eq, trim_space}
use local_engineer.GoStrings.Decimal.{decimal}
use local_engineer.Trust.{Fence, restore_fence}
use local_engineer.Native.{ToolCall, tool_done}
use local_engineer.Native.Progress.{Stuck, going, new_progress, end_of_step, stuck}
use local_engineer.Native.Exec.{Request}
use local_engineer.Native.Loop.{
  Message, Transcript, Budget, Engine, Reply, Response, LoopHost, model_failed, done_not_alone,
  bad_fence, Flow, goes_on, returns, fails, Live, estimate_tokens, Limit, context_exhausted,
  tokens_exhausted, at_most, request_limit, no_response,
}
use local_engineer.Native.Loop.Calls.{unless_failed, finish, run_calls, persist}

-- `max(1, limit - 1)` bounds the thinking inside an answer.
abbrev pub reasoning_limit : Budget → ℕ → ℕ
reasoning_limit b limit = min b.reasoning_tokens (if ltb 1 (limit - 1) then limit - 1 else 1)

abbrev pub assistant_message : Text → List ToolCall → Message
assistant_message content calls = record {
  role = codes "assistant";
  content = content;
  name = [];
  tool_call_id = [];
  tool_calls = calls;
}

-- A count that the provider does not report is estimated.
abbrev or_estimate : ℕ → ℕ → ℕ
or_estimate reported estimate = if ltb 0 reported then reported else estimate

abbrev pub reply_tokens : ℕ → Reply → ℕ
reply_tokens estimate r =
    or_estimate r.prompt_tokens estimate
    + or_estimate r.output_tokens
        (estimate_tokens (assistant_message (r.content ++ r.reasoning) r.tool_calls ∷ []) [])

abbrev pub is_going : Stuck → Bool
is_going going = true
is_going _ = false

abbrev calls_done : ToolCall → Bool
calls_done c = text_eq c.name tool_done

abbrev pub done_in_batch : List ToolCall → Bool
done_in_batch calls = ltb 1 (length calls) && any calls_done calls

-- Cut off while it was thinking: nothing was answered.
abbrev pub is_truncated : Reply → Bool
is_truncated r = text_eq r.finish_reason (codes "length") && is_empty (trim_space r.content)

abbrev thinking_note : Reply → Text
thinking_note r =
    if ltb 0 (length (trim_space r.reasoning))
    then codes "; it was spent on "
      ++ decimal (length (trim_space r.reasoning))
      ++ codes " characters of reasoning, so the budget is too small for this model's thinking"
    else []

abbrev truncated_summary : ℕ → ℕ → Reply → Text
truncated_summary n limit r =
    codes "the output budget of "
    ++ decimal limit
    ++ codes " tokens ran out on step "
    ++ decimal n
    ++ codes " before the model produced an answer or a tool call"
    ++ thinking_note r

abbrev stop_summary : ℕ → Reply → Text
stop_summary n r =
    if is_empty (trim_space r.content)
    then codes "the model stopped after " ++ decimal n ++ codes " step(s) without calling a tool"
    else trim_space r.content

abbrev pub summarise : ℕ → ℕ → Reply → Response → Response
summarise n limit r resp =
    if is_truncated r
    then record resp { truncated = true; summary = truncated_summary n limit r }
    else record resp { summary = stop_summary n r }

module _ {W : Type 0} (host : LoopHost W) (req : Request) (engine : Engine) (budget : Budget) where
  abbrev pub say : Text → Live W → Live W
  say text s = record s { resp = record s.resp { summary = text } }

  abbrev exhaust : Text → Live W → Live W
  exhaust text s = record s { resp = record s.resp { budget_exhausted = true; summary = text } }

  -- After the calls of a batch: `endOfStep` and the loop guard.
  unfoldable pub end_turn : Fence → Flow × Live W → Flow × Live W
  end_turn fence (goes_on, s) =
      let progress = end_of_step s.learned_this_step s.progress in
      let s' = record s { progress = progress } in
      if is_going (stuck progress)
      then (goes_on, s')
      else finish host req fence (say (host.stuck_text (stuck progress)) s')
  end_turn fence (returns, s) = (returns, s)
  end_turn fence (fails e, s) = (fails e, s)

  -- A reply is counted before it is read.
  abbrev pub counted : ℕ → ℕ → Reply → W → Live W → Live W
  counted n estimate r w s = record s {
    world = w;
    resp = record s.resp { tokens_used = s.resp.tokens_used + reply_tokens estimate r };
    tr = record s.tr { tokens = s.tr.tokens + reply_tokens estimate r; steps = n };
  }

  abbrev pub appended : Message → Live W → Live W
  appended m s = record s { messages = s.messages ++ m ∷ [] }

  unfoldable pub read_reply : Fence → ℕ → ℕ → Reply → Live W → Flow × Live W
  read_reply fence n limit r s =
      if is_empty r.tool_calls
      then finish host req fence (record (appended (assistant_message r.content []) s) {
        resp = summarise n limit r s.resp;
      })
      else if done_in_batch r.tool_calls
      then (fails done_not_alone, s)
      else end_turn fence (
          run_calls host req fence r.tool_calls
            (record (appended (assistant_message r.content r.tool_calls) s) {
              learned_this_step = false;
            }))

  -- What the model's answer leads to, `none` when the provider failed.
  unfoldable pub hear : Fence → ℕ → ℕ → ℕ → Live W → Option Reply × W → Flow × Live W
  hear fence n limit estimate s (none, w) = (fails (model_failed n), record s { world = w })
  hear fence n limit estimate s (some r, w) = read_reply fence n limit r (counted n estimate r w s)

  -- The model is called only within the budgets.
  unfoldable pub ask_model : Fence → ℕ → ℕ → Live W → Limit → Flow × Live W
  ask_model fence n estimate s context_exhausted =
      finish host req fence
        (exhaust (codes "EDIT context budget exhausted; a supervisor phase boundary is required") s)
  ask_model fence n estimate s tokens_exhausted =
      finish host req fence (exhaust (codes "task token budget exhausted") s)
  ask_model fence n estimate s (at_most limit) =
      hear fence n limit estimate s
        (host.chat s.world s.messages limit (reasoning_limit budget limit))

  -- One round of the loop.
  unfoldable pub turn : Fence → ℕ → Live W → Flow × Live W
  turn fence n s = elim (host.cancelled s.world) [
    | some why ↦
        (returns, say (codes "stopped after " ++ decimal (n - 1) ++ codes " step(s): " ++ why) s)
    | none ↦
        let estimate = estimate_tokens s.messages req.tools in
        ask_model fence n estimate s (request_limit engine budget s.resp.tokens_used estimate)
  ]

  abbrev pub step_limit : ℕ
  step_limit =
      if ltb 0 budget.max_steps && ltb budget.max_steps engine.max_steps
      then budget.max_steps
      else engine.max_steps

  unfoldable pub go_on : Flow × Live W → (Live W → Flow × Live W) → Flow × Live W
  go_on (goes_on, s) rest = rest s
  go_on (returns, s) rest = (returns, s)
  go_on (fails e, s) rest = (fails e, s)

  -- `rounds` are the rounds that are left, and `n` is the number of the next one.
  unfoldable pub loop : Fence → ℕ → ℕ → Live W → Flow × Live W
  loop fence zero n s = finish host req fence (
      say
        (codes "reached the step limit of "
          ++ decimal step_limit
          ++ codes " without declaring completion")
        s)
  loop fence (suc rounds) n s = go_on (turn fence n s) (λ s'. loop fence rounds (n + 1) s')

  -- `Step` once the transcript is open and reconciled: the rounds that are left of the limit.
  unfoldable pub attempt : Fence → Live W → Flow × Live W
  attempt fence s =
      let s' = record s { resp = no_response; progress = new_progress } in
      unless_failed host req fence (persist host req fence s')
        (loop fence (step_limit - s.tr.steps) (s.tr.steps + 1))

  -- The opening conversation.
  abbrev pub seed : Text → Text → List Message
  seed system brief =
      (record {
        role = codes "system";
        content = system;
        name = [];
        tool_call_id = [];
        tool_calls = [];
      })
      ∷ (record {
        role = codes "user";
        content = brief;
        name = [];
        tool_call_id = [];
        tool_calls = [];
      })
      ∷ []

  abbrev answer_of : Transcript → Response
  answer_of tr = record no_response {
    summary = tr.summary;
    claims_done = tr.claims_done;
    budget_exhausted = tr.budget_exhausted;
    truncated = tr.truncated;
  }

  -- `Step` after the recovery of an interrupted batch: a closed transcript is answered as it is, a new
  -- one is seeded, and a saved one goes on under its own fence.
  unfoldable pub resume : Text → Text → Live W → Flow × Live W
  resume system brief s =
      if s.tr.closed
      then (returns, record s { resp = answer_of s.tr })
      else if is_empty s.tr.messages
      then attempt engine.fence (record s {
        messages = seed system brief;
        tr = record s.tr { fence_token = engine.fence.nonce };
      })
      else elim (restore_fence s.tr.fence_token) [
        | none ↦ (fails bad_fence, s)
        | some fence ↦ attempt fence (record s { messages = s.tr.messages })
      ]

-- ===== src/Native/Loop/Calls.antt =====
-- The calls of a batch in the loop of internal/engine/native/native.go, each recorded and saved.
use local_engineer.Prelude.{
  suc, Bool, true, false, not, ◌&&◌, ◌||◌, List, [], ◌∷◌, ◌++◌, Option, none, some, ltb,
  if◌then◌else◌, is_empty, map,
}
use local_engineer.GoStrings.{Text, codes, text_eq}
use local_engineer.Trust.{Fence, wrap}
use local_engineer.Native.{ToolCall, tool_run_recipe}
use local_engineer.Native.Progress.{observe}
use local_engineer.Native.Exec.{Request, Executed, exec}
use local_engineer.Native.Loop.{
  Flow, Live, LoopHost, StepError, calls_exhausted, count_if, fails, goes_on, is_learned,
  no_candidate, not_executed, not_saved, returns, tool_message,
}

module _ {W : Type 0} (host : LoopHost W) (req : Request) (fence : Fence) where
  -- `persist`, with the candidate that the callback writes into the transcript.
  unfoldable pub persist : Live W → Option StepError × Live W
  persist s = elim (host.tools.manifest s.world) [
    | none ↦ (some no_candidate, record s { tr = record s.tr { messages = s.messages } })
    | some c ↦
        let tr' = record s.tr { messages = s.messages; candidate = c } in
        if host.saves s.world
        then (none, record s { tr = tr'; saved = some tr' })
        else (some not_saved, record s { tr = tr' })
  ]

  abbrev pub flow_of : Option StepError → Flow
  flow_of none = returns
  flow_of (some e) = fails e

  abbrev pub closing : Live W → Live W
  closing s = record s {
    tr = record s.tr {
      closed = true;
      summary = s.resp.summary;
      claims_done = s.resp.claims_done;
      budget_exhausted = s.resp.budget_exhausted;
      truncated = s.resp.truncated;
    };
  }

  -- `finish`.
  unfoldable pub finish : Live W → Flow × Live W
  finish s = let (e, s') = persist (closing s) in (flow_of e, s')

  -- The rest of the batch is answered without being executed.
  abbrev pub refuse_rest : List ToolCall → Live W → Live W
  refuse_rest calls s = record s {
    resp = record s.resp {
      budget_exhausted = true;
      summary = codes "EDIT tool, verification or invalid-call budget exhausted";
    };
    messages =
        s.messages
        ++ map (λ c. tool_message c (codes "Not executed: EDIT phase budget exhausted.")) calls;
    tr = record s.tr { pending = false };
  }

  -- What a call that was executed leaves behind, `last` when it is the last of its batch.
  unfoldable pub record_result : ToolCall → Bool → Executed W → Live W → Live W
  record_result c last x s =
      let (progress, worth, times) =
        observe host.canonical host.digest_of s.progress c.name c.arguments x.result.content in
      let note =
        if not (is_learned worth) && ltb 1 times then host.repeat_note c.name times else [] in
      record s {
        progress = progress;
        learned_this_step =
            s.learned_this_step || is_learned worth || x.result.edited || x.result.done;
        messages =
            s.messages
            ++ tool_message c (note ++ wrap fence (codes "result of " ++ c.name) x.result.content)
              ∷ [];
        journal = x.journal;
        world = x.world;
        tr = record s.tr {
          pending = not last;
          tools = suc s.tr.tools;
          verify_runs = count_if (text_eq c.name tool_run_recipe) s.tr.verify_runs;
          invalid_calls = count_if x.result.invalid s.tr.invalid_calls;
        };
        resp = record s.resp { edited = s.resp.edited || x.result.edited };
      }

  abbrev pub mark_pending : Live W → Live W
  mark_pending s = record s { tr = record s.tr { pending = true } }

  abbrev pub run_tool : ToolCall → Live W → Executed W
  run_tool c s =
      exec host.tools req (host.commits s.world).0 (host.commits s.world).1 c s.journal s.world

  abbrev pub claim_done : Text → Live W → Live W
  claim_done summary s = record s { resp = record s.resp { summary = summary; claims_done = true } }

  -- `if err := persist(); err != nil { return resp, err }` before the rest.
  unfoldable pub unless_failed :
      Option StepError × Live W → (Live W → Flow × Live W) → Flow × Live W
  unless_failed (none, s) rest = rest s
  unless_failed (some e, s) rest = (fails e, s)

  -- A call after its batch was saved as pending: executed, recorded, and saved again.
  unfoldable pub run_call : ToolCall → Bool → (Live W → Flow × Live W) → Live W → Flow × Live W
  run_call c last rest s =
      let x = run_tool c s in
      elim x.error [
        | some e ↦
            (fails (not_executed c.name e), record s { journal = x.journal; world = x.world })
        | none ↦
            if x.result.done
            then finish (claim_done x.result.summary (record_result c last x s))
            else unless_failed (persist (record_result c last x s)) rest
      ]

  -- The loop over the calls of a batch.
  unfoldable pub run_calls : List ToolCall → Live W → Flow × Live W
  run_calls [] s = (goes_on, s)
  run_calls (c ∷ cs) s =
      if calls_exhausted s.tr c
      then finish (refuse_rest (c ∷ cs) s)
      else unless_failed (persist (mark_pending s))
          (run_call c (is_empty cs) (λ s'. run_calls cs s'))

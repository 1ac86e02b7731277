-- ===== src/Native/Loop.antt =====
-- The tool loop of internal/engine/native/native.go: the transcript of an attempt, its budgets, one
-- call of a batch, and the batch. The transcript is saved as internal/task/phases.go saves it, with
-- the candidate of the worktree at that moment.
pub mod Calls
pub mod Turn
pub mod Batches
pub mod Transcripts
pub mod Guards
mod Examples
use local_engineer.Prelude.{
  ℕ, suc, ◌+◌, ◌-◌, ◌*◌, ◌/◌, Bool, true, false, not, ◌&&◌, ◌||◌, List, [], ◌∷◌, ◌++◌, Option, none,
  some, leb, ltb, if◌then◌else◌, length, is_empty, map, min,
}
use local_engineer.GoStrings.{Text, codes, text_eq}
use local_engineer.Trust.{Fence, wrap}
use local_engineer.Ledger.Journal.{Journal}
use local_engineer.Native.{ToolCall, ToolDef, ToolResult, tool_run_recipe}
use local_engineer.Native.Progress.{Progress, Worth, Stuck, learned, repeated, observe}
use local_engineer.Native.Exec.{Request, Commit, Host, Executed, ExecError, exec}

-- `Message`, without the images, which a tool loop never sends.
pub record Message : Type 0 where
  pub role : Text
  pub content : Text
  pub name : Text
  pub tool_call_id : Text
  pub tool_calls : List ToolCall

pub record Transcript : Type 0 where
  pub closed : Bool
  pub summary : Text
  pub claims_done : Bool
  pub budget_exhausted : Bool
  pub truncated : Bool
  pub fence_token : Text
  pub messages : List Message
  pub tokens : ℕ
  pub steps : ℕ
  pub tools : ℕ
  pub verify_runs : ℕ
  pub invalid_calls : ℕ
  pub pending : Bool
  pub candidate : Text

-- A limit of 0 is no limit.
pub record Budget : Type 0 where
  pub context_tokens : ℕ
  pub output_tokens : ℕ
  pub reasoning_tokens : ℕ
  pub max_steps : ℕ
  pub max_tokens : ℕ

pub record Engine : Type 0 where
  pub max_steps : ℕ
  pub max_tokens : ℕ
  pub context_tokens : ℕ
  pub fence : Fence

pub record Reply : Type 0 where
  pub content : Text
  pub finish_reason : Text
  pub reasoning : Text
  pub prompt_tokens : ℕ
  pub output_tokens : ℕ
  pub tool_calls : List ToolCall

pub record Response : Type 0 where
  pub summary : Text
  pub claims_done : Bool
  pub tokens_used : ℕ
  pub edited : Bool
  pub truncated : Bool
  pub budget_exhausted : Bool

abbrev pub no_response : Response
no_response = record {
  summary = [];
  claims_done = false;
  tokens_used = 0;
  edited = false;
  truncated = false;
  budget_exhausted = false;
}

-- What the loop calls: the tools with the journal, the model, the context's cancellation, the
-- database, and the texts and digests of the loop guard.
pub record LoopHost (W : Type 0) : Type 0 where
  pub tools : Host W
  pub chat : W → List Message → ℕ → ℕ → Option Reply × W
  pub cancelled : W → Option Text
  pub commits : W → Commit × Commit
  pub saves : W → Bool
  pub canonical : Text → Text
  pub digest_of : Text → Text
  pub repeat_note : Text → ℕ → Text
  pub stuck_text : Stuck → Text

pub data StepError : Type 0 where
  only_in_edit no_candidate not_saved bad_fence done_not_alone : StepError
  model_failed : ℕ → StepError
  not_executed : Text → ExecError → StepError
  not_reconciled : Text → StepError

-- How a part of the loop leaves it: it goes on, returns its response, or returns an error.
pub data Flow : Type 0 where
  goes_on returns : Flow
  fails : StepError → Flow

-- The variables of `Step`, the transcript in the database, and what the tools change.
pub record Live (W : Type 0) : Type 0 where
  pub tr : Transcript
  pub messages : List Message
  pub saved : Option Transcript
  pub journal : Option Journal
  pub world : W
  pub resp : Response
  pub progress : Progress
  pub learned_this_step : Bool

abbrev pub overhead : ℕ
overhead = 16

call_chars : List ToolCall → ℕ
call_chars [] = 0
call_chars (c ∷ cs) = length c.id + length c.name + length c.arguments + call_chars cs

message_chars : List Message → ℕ
unfolding call_chars
message_chars [] = 0
message_chars (m ∷ ms) =
    overhead
    + length m.role
    + length m.content
    + length m.tool_call_id
    + call_chars m.tool_calls
    + message_chars ms

tool_chars : List ToolDef → ℕ
tool_chars [] = 0
tool_chars (t ∷ ts) =
    overhead + length t.name + length t.description + length t.schema + tool_chars ts

-- `estimateTokens`: at 3.5 characters a token the quotient, cut to an integer, is 2/7 of the count.
unfoldable pub estimate_tokens : List Message → List ToolDef → ℕ
unfolding message_chars tool_chars
estimate_tokens messages tools = (message_chars messages + tool_chars tools) * 2 / 7

-- `FallbackProfile().ReservedOutput`.
abbrev pub fallback_output : ℕ
fallback_output = 4096

-- The smaller of a limit and a budget, where 0 is no limit.
abbrev pub tighter : ℕ → ℕ → ℕ
tighter limit budget =
    if ltb 0 budget && (not (ltb 0 limit) || ltb budget limit) then budget else limit

abbrev pub output_limit : Engine → Budget → ℕ
output_limit e b =
    let limit = tighter e.max_tokens b.output_tokens in
    if ltb 0 limit then limit else fallback_output

pub data Limit : Type 0 where
  context_exhausted tokens_exhausted : Limit
  at_most : ℕ → Limit

abbrev within_tokens : ℕ → ℕ → ℕ → Limit
within_tokens budget spent limit =
    if not (ltb 0 budget)
    then at_most limit
    else if leb budget spent
    then tokens_exhausted
    else at_most (if ltb (budget - spent) limit then budget - spent else limit)

-- The checks before a call of the model: how many tokens it may answer with.
unfoldable pub request_limit : Engine → Budget → ℕ → ℕ → Limit
request_limit e b used estimate =
    let context = tighter e.context_tokens b.context_tokens in
    if ltb 0 context && ltb context (estimate + output_limit e b)
    then context_exhausted
    else within_tokens b.max_tokens (used + estimate) (output_limit e b)

abbrev pub tool_message : ToolCall → Text → Message
tool_message c content = record {
  role = codes "tool";
  content = content;
  name = c.name;
  tool_call_id = c.id;
  tool_calls = [];
}

abbrev pub max_tools : ℕ
max_tools = 40

abbrev pub max_verify_runs : ℕ
max_verify_runs = 3

abbrev pub max_invalid : ℕ
max_invalid = 3

abbrev pub calls_exhausted : Transcript → ToolCall → Bool
calls_exhausted tr c =
    leb max_tools tr.tools
    || (text_eq c.name tool_run_recipe && leb max_verify_runs tr.verify_runs)
    || leb max_invalid tr.invalid_calls

abbrev pub count_if : Bool → ℕ → ℕ
count_if b n = if b then suc n else n

abbrev pub is_learned : Worth → Bool
is_learned learned = true
is_learned repeated = false

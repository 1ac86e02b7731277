-- ===== src/Native/Loop/Examples.antt =====
-- An attempt of two rounds: the model calls a tool that it was not given, and then stops.
use local_engineer.Prelude.{
  ℕ, ◌+◌, ◌≤◌, ◌<◌, ◌≡◌, ◌≢◌, refl, true, false, [], ◌∷◌, none, some, arith, if◌then◌else◌, ◌==◌,
  ◌++◌, ok,
}
use local_engineer.GoStrings.{codes, text_eq, trim_space, contains, has_prefix}
use local_engineer.Trust.{wrap, neutralise}
use local_engineer.Recipe.{lookup}
use local_engineer.Worktree.{FileSystem, Links}
use local_engineer.Native.{ToolCall}
use local_engineer.Native.Authorize.{authorize, find_tool}
use local_engineer.Native.Progress.{
  new_progress, observe, count_answer, put, end_of_step, stuck, first_repeat,
}
use local_engineer.Native.Exec.{Request, Host, empty_result, exec}
use local_engineer.Native.Loop.{
  Transcript, Budget, Engine, Reply, LoopHost, Live, no_response, tool_message, at_most,
  estimate_tokens, request_limit, tighter, output_limit,
}
use local_engineer.Native.Loop.Calls.{
  persist, finish, record_result, unless_failed, run_call, run_calls,
}
use local_engineer.Native.Loop.Turn.{
  assistant_message, seed, resume, attempt, loop, turn, ask_model, hear, read_reply, end_turn,
  go_on,
}
use local_engineer.Native.Loop.Batches.{Coherent, unanswered}
use local_engineer.Native.Loop.Transcripts.{resume-Coherent}
use local_engineer.Native.Loop.Guards.{request_limit_fits, unsaved_batch_is_idle}

abbrev plain_fs : FileSystem
plain_fs = record {
  eval_symlinks = λ p. Links.resolved p;
  is_symlink = λ p. false;
  read_file = λ p. ok [];
  exists = λ p. true;
}

abbrev request : Request
request = record {
  task_id = codes "t";
  worktree = codes "/w";
  access = record { write_scope = []; protected = record { policies = [] } };
  tools = [];
  decode = record { schema = λ s. none; arguments = λ s. none };
}

abbrev shell_call : ToolCall
shell_call = record { id = codes "1"; name = codes "shell"; arguments = codes "ls" }

-- The world is the number of the round.
abbrev tools : Host ℕ
tools = record {
  files = λ w. plain_fs;
  execute = λ call w. (empty_result, w);
  manifest = λ w. some (codes "m");
  intent = λ d call. some (codes "i");
  body = λ r. some (codes "b");
  explain = λ r. codes "no";
}

abbrev reply : ℕ → Reply
reply w = record {
  content = codes "ok";
  finish_reason = codes "stop";
  reasoning = [];
  prompt_tokens = 10;
  output_tokens = 5;
  tool_calls = if w == 0 then shell_call ∷ [] else [];
}

abbrev host : LoopHost ℕ
host = record {
  tools = tools;
  chat = λ w messages limit thinking. (some (reply w), w + 1);
  cancelled = λ w. none;
  commits = λ w. (record { now = w; commits = true }, record { now = w; commits = true });
  saves = λ w. true;
  canonical = λ t. t;
  digest_of = λ t. t;
  repeat_note = λ name n. codes "again";
  stuck_text = λ s. codes "stuck";
}

abbrev engine : Engine
engine = record {
  max_steps = 20;
  max_tokens = 0;
  context_tokens = 32_000;
  fence = record { nonce = codes "00" };
}

abbrev budget : Budget
budget = record {
  context_tokens = 0;
  output_tokens = 2000;
  reasoning_tokens = 500;
  max_steps = 5;
  max_tokens = 3000;
}

abbrev new_transcript : Transcript
new_transcript = record {
  closed = false;
  summary = [];
  claims_done = false;
  budget_exhausted = false;
  truncated = false;
  fence_token = [];
  messages = [];
  tokens = 0;
  steps = 0;
  tools = 0;
  verify_runs = 0;
  invalid_calls = 0;
  pending = false;
  candidate = [];
}

abbrev begun : Live ℕ
begun = record {
  tr = new_transcript;
  messages = [];
  saved = none;
  journal = none;
  world = 0;
  resp = no_response;
  progress = new_progress;
  learned_this_step = false;
}

abbrev final : Transcript
final = record new_transcript {
  closed = true;
  summary = codes "ok";
  fence_token = codes "00";
  messages =
      seed host request engine budget (codes "s") (codes "b")
      ++ assistant_message (codes "ok") (shell_call ∷ [])
        ∷ tool_message shell_call
            (wrap (record { nonce = codes "00" }) (codes "result of shell") (codes "no"))
        ∷ assistant_message (codes "ok") []
        ∷ [];
  tokens = 30;
  steps = 2;
  tools = 1;
  invalid_calls = 1;
  candidate = codes "m";
}

new_transcript-Coherent : Coherent 5 new_transcript
unfolding unanswered
new_transcript-Coherent = record {
  rest = [];
  open_calls = refl;
  settled = λ p. refl;
  bounded = (omega arith, omega arith, omega arith, omega arith);
}

it_ends : (resume host request engine budget (codes "s") (codes "b") begun).1.saved ≡ some final
unfolding resume attempt loop turn ask_model hear read_reply end_turn go_on request_limit
    estimate_tokens persist finish record_result unless_failed run_call run_calls exec authorize
    find_tool observe count_answer put lookup end_of_step stuck first_repeat text_eq trim_space wrap
    neutralise contains has_prefix
it_ends = refl

resume-Coherent_example : Coherent 5 final
resume-Coherent_example =
    resume-Coherent host request engine budget (codes "s") (codes "b") begun new_transcript-Coherent
      refl (λ t e. cc) final it_ends

it_fits : request_limit engine budget 100 900 ≡ at_most 2000
unfolding request_limit
it_fits = refl

request_limit_fits_example :
    (0 < 2000)
    × (2000 ≤ output_limit engine budget)
    × (tighter engine.context_tokens budget.context_tokens ≢ 0
        → 900 + 2000 ≤ tighter engine.context_tokens budget.context_tokens)
    × (budget.max_tokens ≢ 0 → 100 + 900 + 2000 ≤ budget.max_tokens)
request_limit_fits_example = request_limit_fits engine budget 100 900 2000 it_fits

abbrev full_disk : LoopHost ℕ
full_disk = record host { saves = λ w. false }

unsaved_batch_is_idle_example :
    ((run_calls full_disk request engine.fence (shell_call ∷ []) begun).1.world ≡ 0)
    × ((run_calls full_disk request engine.fence (shell_call ∷ []) begun).1.journal ≡ none)
unsaved_batch_is_idle_example =
    unsaved_batch_is_idle full_disk request engine.fence (shell_call ∷ []) begun refl

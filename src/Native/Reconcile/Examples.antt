-- ===== src/Native/Reconcile/Examples.antt =====
-- A batch of three calls: the first was answered, the second was journalled, the third never began.
use local_engineer.Prelude.{◌≡◌, ◌≢◌, ◌++◌, refl, true, false, List, [], ◌∷◌, some, ok}
use local_engineer.GoStrings.{Text, codes, text_eq}
use local_engineer.Trust.{Fence}
use local_engineer.Ledger.Journal.{Operation, OpKind}
use local_engineer.Native.{ToolCall, ToolResult}
use local_engineer.Native.Loop.{Message, Transcript, tool_message}
use local_engineer.Native.Loop.Turn.{assistant_message}
use local_engineer.Native.Loop.Batches.{unanswered}
use local_engineer.Native.Reconcile.{
  Decoding, Rebuilt, last_batch, match_op, with_rest, rebuild, restored, unstarted, reconciled,
  reconcile_batch,
}
use local_engineer.Native.Reconcile.Whole.{reconcile_is_whole}
use local_engineer.Native.Reconcile.Rest.{Distinct}
use local_engineer.Native.Reconcile.Chain.{Explains, reconcile_is_explained}

abbrev call : Text → ToolCall
call id = record { id = id; name = codes "edit_file"; arguments = codes "a" }

abbrev edited : ToolResult
edited = record {
  invalid = false;
  content = codes "written";
  failed = false;
  edited = true;
  done = false;
  summary = [];
}

-- Each intent is the id of its call.
abbrev decoding : Decoding
decoding = record {
  intent_of = λ t. some (record { session = codes "00"; step = 4; id = t; arguments = codes "a" });
  result_of = λ t. some edited;
}

abbrev fence : Fence
fence = record { nonce = codes "00" }

abbrev calls : List ToolCall
calls = call (codes "1") ∷ call (codes "2") ∷ call (codes "3") ∷ []

abbrev answer : Message
answer = tool_message (call (codes "1")) (codes "done before")

abbrev interrupted : Transcript
interrupted = record {
  closed = false;
  summary = [];
  claims_done = false;
  budget_exhausted = false;
  truncated = false;
  fence_token = codes "00";
  messages = assistant_message [] calls ∷ answer ∷ [];
  tokens = 100;
  steps = 4;
  tools = 1;
  verify_runs = 0;
  invalid_calls = 0;
  pending = true;
  candidate = codes "m1";
}

abbrev operation : Operation
operation = record {
  id = 7;
  task_id = codes "t";
  seq = 7;
  kind = OpKind.decision;
  intent = codes "2";
  outcome = codes "{}";
  candidate_before = codes "m1";
  candidate_after = codes "m2";
  evidence_id = [];
  started_at = 5;
  finished_at = 6;
  cause = [];
}

abbrev rebuilt : Rebuilt
rebuilt = restored decoding interrupted fence (call (codes "2")) edited (
    unstarted decoding interrupted fence (call (codes "3"))
      (record { messages = []; recovered = []; boundary = false; candidate = codes "m2" }))

abbrev recovered : Transcript
recovered = reconciled rebuilt (codes "m2") interrupted

it_recovers :
    reconcile_batch decoding fence (some (operation ∷ [])) (codes "m2") interrupted ≡ ok recovered
unfolding reconcile_batch last_batch rebuild match_op with_rest text_eq
it_recovers = refl

last_calls : last_batch interrupted.messages ≡ some (calls, answer ∷ [])
unfolding last_batch text_eq
last_calls = refl

two_are_open : unanswered [] interrupted.messages ≡ some (call (codes "2") ∷ call (codes "3") ∷ [])
unfolding unanswered text_eq
two_are_open = refl

all_ids_differ : Distinct calls
unfolding text_eq
all_ids_differ = ((refl, (refl, tt)), ((refl, tt), (tt, tt)))

reconcile_is_whole_example :
    (recovered.pending ≡ false) × (unanswered [] recovered.messages ≡ some [])
reconcile_is_whole_example =
    reconcile_is_whole decoding fence (operation ∷ []) (codes "m2") interrupted recovered calls
      (call (codes "2") ∷ call (codes "3") ∷ []) (answer ∷ []) last_calls all_ids_differ
      two_are_open it_recovers

reconcile_is_explained_example :
    (batch : List ToolCall) × (after : List Message) × (r : Rebuilt) × (last_batch
        interrupted.messages
      ≡ some (batch, after))
    × (recovered ≡ reconciled r (codes "m2") interrupted)
    × (recovered.messages ≡ interrupted.messages ++ r.messages)
    × (codes "m2" ≢ [])
    × Explains decoding interrupted fence
        (operation ∷ [])
        after
        batch
        (codes "m1")
        r.messages
        r.recovered
        (codes "m2")
reconcile_is_explained_example =
    reconcile_is_explained decoding fence (operation ∷ []) (codes "m2") interrupted recovered
      it_recovers

-- ===== src/Task/Packs/Examples.antt =====
-- Two requests of one task.
use local_engineer.Prelude.{
  ℕ, ◌≡◌, refl, true, false, List, [], ◌∷◌, none, some, ok, get_elem?, All,
}
use local_engineer.GoStrings.{Text, codes, trim_space}
use local_engineer.Trust.{new_fence, restore_fence, accept_token, hex_decode, hex_encode, preamble}
use local_engineer.ContextPack.{
  Block, evidence, Prefix, Pack, Tail, messages, new_pack, prefix_tokens, estimate_tokens,
  frozen_user,
}
use local_engineer.ContextPack.Requests.{append_all}
use local_engineer.Task.Packs.{
  Built, no_map, Kept, task_fence, PhaseBudget, pack_for, pack_budget, ensure_prefix,
}
use local_engineer.Task.Packs.Frozen.{
  NoPlan, Event, requests, ensures, plans, event, events, request_prefix_is_stable,
}

abbrev token : Text
token = codes "000102030405060708090a0b0c0d0e0f"

abbrev bytes : List ℕ
bytes = 0 ∷ 1 ∷ 2 ∷ 3 ∷ 4 ∷ 5 ∷ 6 ∷ 7 ∷ 8 ∷ 9 ∷ 10 ∷ 11 ∷ 12 ∷ 13 ∷ 14 ∷ 15 ∷ []

abbrev start : Prefix
start = record { policy = codes "P"; repo_card = codes "R"; repo_map = []; task_card = codes "T" }

abbrev fresh : Kept
fresh = record { fence_token = []; prefix = start }

abbrev fenced : Kept
fenced = record fresh { fence_token = token }

abbrev budget : PhaseBudget
budget = record { context_tokens = 26000; output_tokens = 4096 }

abbrev first : Pack
first = record {
  prefix = start;
  fence = record { nonce = token };
  budget = pack_budget budget;
  log = [];
  log_tokens = 0;
}

abbrev other_prefix : Built
other_prefix = record {
  policy = codes "Q";
  repo_card = codes "S";
  task_card = codes "U";
  repo_map = some none;
}

abbrev between : List Event
between = requests none false budget ∷ ensures other_prefix false ∷ []

first_run : pack_for (some bytes) true budget fresh ≡ (ok first, fenced)
unfolding pack_for task_fence new_fence hex_encode new_pack prefix_tokens estimate_tokens
    frozen_user preamble trim_space
first_run = refl

second_run : pack_for none true budget (events between fenced) ≡ (ok first, fenced)
unfolding pack_for task_fence restore_fence accept_token hex_decode new_pack prefix_tokens
    estimate_tokens frozen_user preamble trim_space events event ensure_prefix
second_run = refl

-- A plan changes the card of the task alone.
plan_run :
    (events (plans (codes "V") ∷ ensures other_prefix true ∷ []) fenced).prefix
    ≡ record start { task_card = codes "V" }
unfolding events event ensure_prefix
plan_run = refl

-- The first prefix of a task, for which the retriever may fail.
ensure_runs :
    (ensure_prefix other_prefix true
      (record { fence_token = []; prefix = record start { policy = [] } })).0
    ≡ some no_map
unfolding ensure_prefix
ensure_runs = refl

abbrev tail : Tail
tail = record { instruction = codes "Go"; tokens_used = 0; tokens_remaining = 0; retry = 0 }

abbrev found : Block
found = record { kind = evidence; origin = codes "a.go"; body = codes "x" }

request_prefix_is_stable_example :
    (get_elem? (messages tail (append_all [] first)).0 0
      ≡ get_elem? (messages tail (append_all (found ∷ []) first)).0 0)
    × (All NoPlan between
        → get_elem? (messages tail (append_all [] first)).0 1
          ≡ get_elem? (messages tail (append_all (found ∷ []) first)).0 1)
request_prefix_is_stable_example =
    request_prefix_is_stable (some bytes) none true true budget budget between fresh fenced fenced
      first first (found ∷ []) [] tail tail refl first_run second_run

-- ===== src/Task/Packs.antt =====
-- internal/task/pack.go: the fence and the prefix that the driver keeps for a task, and the pack that
-- it makes of them for each request. The texts of the prefix are arguments.
pub mod Frozen
mod Examples
use local_engineer.Prelude.{
  ℕ, ◌-◌, Bool, true, false, not, List, Option, none, some, ltb, if◌then◌else◌, is_empty, Result,
  ok, err,
}
use local_engineer.GoStrings.{Text}
use local_engineer.Trust.{Fence, new_fence, restore_fence}
use local_engineer.ContextPack.{Prefix, Budget, Pack, PackError, new_pack}

-- What the state of the workflow keeps for the requests of a task.
pub record Kept : Type 0 where
  pub fence_token : Text
  pub prefix : Prefix

pub data PacksError : Type 0 where
  bad_token no_random not_saved no_map : PacksError
  no_pack : PackError → PacksError

-- The end of `taskFence`, with a fence that is new.
abbrev pub keep_fence : Option Fence → Bool → Kept → Result PacksError Fence × Kept
keep_fence none saves s = (err no_random, s)
keep_fence (some f) saves s =
    (if saves then ok f else err not_saved, record s { fence_token = f.nonce })

abbrev pub restored : Option Fence → Result PacksError Fence
restored none = err bad_token
restored (some f) = ok f

-- `taskFence`; `random` is what the source of randomness gives, and `saves` says whether the state is
-- saved.
unfoldable pub task_fence : Option (List ℕ) → Bool → Kept → Result PacksError Fence × Kept
task_fence random saves s =
    if not (is_empty s.fence_token)
    then (restored (restore_fence s.fence_token), s)
    else keep_fence (new_fence random) saves s

pub record PhaseBudget : Type 0 where
  pub context_tokens : ℕ
  pub output_tokens : ℕ

-- `packBudget`; a difference that Go makes negative is below 1000 as well.
abbrev pub pack_budget : PhaseBudget → Budget
pack_budget b =
    let left = b.context_tokens - 7000 - b.output_tokens in
    record { prefix = 7000; log = if ltb left 1000 then 1000 else left; output = b.output_tokens }

abbrev pub as_pack : Result PackError Pack → Result PacksError Pack
as_pack (ok p) = ok p
as_pack (err e) = err (no_pack e)

abbrev pub pack_with : PhaseBudget → Result PacksError Fence × Kept → Result PacksError Pack × Kept
pack_with b (err e, s) = (err e, s)
pack_with b (ok f, s) = (as_pack (new_pack s.prefix f (pack_budget b)), s)

-- `packFor`.
unfoldable pub pack_for :
    Option (List ℕ) → Bool → PhaseBudget → Kept → Result PacksError Pack × Kept
pack_for random saves b s = pack_with b (task_fence random saves s)

-- What `ensurePrefix` writes; the map is `none` without a retriever, and the retriever may fail.
pub record Built : Type 0 where
  pub policy : Text
  pub repo_card : Text
  pub task_card : Text
  pub repo_map : Option (Option Text)

abbrev pub first_cards : Built → Prefix → Prefix
first_cards b p = record p { policy = b.policy; repo_card = b.repo_card; task_card = b.task_card }

abbrev pub with_map : Option (Option Text) → Bool → Kept → Option PacksError × Kept
with_map (some none) saves s = (some no_map, s)
with_map none saves s = (if saves then none else some not_saved, s)
with_map (some (some text)) saves s = (
  if saves then none else some not_saved,
  record s { prefix = record s.prefix { repo_map = text } },
)

-- `ensurePrefix`.
unfoldable pub ensure_prefix : Built → Bool → Kept → Option PacksError × Kept
ensure_prefix b saves s =
    if not (is_empty s.prefix.policy)
    then (none, s)
    else with_map b.repo_map saves (record s { prefix = first_cards b s.prefix })

-- The one change of the prefix after that, in PLAN: the card of a task that has a plan.
abbrev pub plan_card : Text → Kept → Kept
plan_card card s = record s { prefix = record s.prefix { task_card = card } }

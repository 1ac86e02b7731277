-- ===== src/ContextPack.antt =====
-- internal/contextpack/pack.go: a request as a frozen prefix, a log that is only appended to, and a tail.
pub mod Lines
pub mod Log
pub mod Requests
mod Examples
use local_engineer.Prelude.{
  ℕ, suc, ◌+◌, ◌-◌, ◌/◌, Bool, true, false, not, ◌&&◌, ◌||◌, List, [], ◌∷◌, ◌++◌, Option, none,
  some, leb, ltb, ◌==◌, if◌then◌else◌, length, is_empty, map, take, drop, Result, ok, err,
}
use local_engineer.GoStrings.{Text, codes, split, join_by, trim_space}
use local_engineer.GoStrings.Decimal.{decimal}
use local_engineer.Trust.{Fence, valid, wrap, preamble}
use local_engineer.Native.Loop.{Message}

pub record Prefix : Type 0 where
  pub policy : Text
  pub repo_card : Text
  pub repo_map : Text
  pub task_card : Text

pub data BlockKind : Type 0 where
  evidence tool_result model_turn : BlockKind

pub record Block : Type 0 where
  pub kind : BlockKind
  pub origin : Text
  pub body : Text

pub record Budget : Type 0 where
  pub prefix : ℕ
  pub log : ℕ
  pub output : ℕ

pub record Pack : Type 0 where
  pub prefix : Prefix
  pub fence : Fence
  pub budget : Budget
  pub log : List Block
  pub log_tokens : ℕ

abbrev pub newline : ℕ
newline = 10

abbrev pub head_lines : ℕ
head_lines = 60

abbrev pub tail_lines : ℕ
tail_lines = 40

abbrev pub marker_lines : ℕ
marker_lines = 3

abbrev pub note : ℕ → Text
note omitted = codes "... " ++ decimal omitted ++ codes " lines omitted at fetch time ..."

abbrev pub notice : ℕ → Text
notice omitted = newline ∷ newline ∷ note omitted ++ newline ∷ newline ∷ []

-- The first lines, the notice and the last lines.
abbrev pub shorten : List Text → Text
shorten lines =
    join_by newline (take head_lines lines)
    ++ notice (length lines - head_lines - tail_lines)
    ++ join_by newline (drop (length lines - tail_lines) lines)

-- The rule for the output of a tool.
unfoldable pub truncate_output : Text → Text
truncate_output body =
    if leb (length (split body newline)) (head_lines + tail_lines + marker_lines)
    then body
    else shorten (split body newline)

-- `Truncate`.
abbrev pub truncate : BlockKind → Text → Text
truncate tool_result body = truncate_output body
truncate evidence body = body
truncate model_turn body = body

-- `EstimateTokens`.
unfoldable pub estimate_tokens : Text → ℕ
estimate_tokens s = if is_empty s then 0 else length s / 4 + 1

abbrev pub kind_name : BlockKind → Text
kind_name evidence = codes "evidence"
kind_name tool_result = codes "tool_result"
kind_name model_turn = codes "model_turn"

abbrev pub fenced : Fence → Block → Text
fenced f b = wrap f (if is_empty b.origin then kind_name b.kind else b.origin) b.body

abbrev pub render_as : BlockKind → Fence → Block → Text
render_as model_turn f b = b.body
render_as evidence f b = fenced f b
render_as tool_result f b = fenced f b

-- `render` of a block.
unfoldable pub render : Fence → Block → Text
render f b = render_as b.kind f b

-- One section of P1 to P3, after what was written before it.
abbrev pub with_section : Text → Text → Text → Text
with_section before heading body =
    if is_empty (trim_space body)
    then before
    else (if is_empty before then [] else before ++ newline ∷ newline ∷ [])
      ++ codes "## "
      ++ heading
      ++ newline ∷ body

-- `frozenUser`.
unfoldable pub frozen_user : Prefix → Text
frozen_user p =
    with_section
      (with_section (with_section [] (codes "REPOSITORY") p.repo_card) (codes "REPOSITORY MAP")
        p.repo_map)
      (codes "TASK") p.task_card

-- `PrefixTokens`.
unfoldable pub prefix_tokens : Prefix → Fence → ℕ
prefix_tokens p f =
    estimate_tokens p.policy + estimate_tokens (preamble f) + estimate_tokens (frozen_user p)

pub data PackError : Type 0 where
  unfenced no_room log_full : PackError
  prefix_over : ℕ → ℕ → PackError

-- `New`.
unfoldable pub new_pack : Prefix → Fence → Budget → Result PackError Pack
new_pack p f budget =
    if not (valid f)
    then err unfenced
    else if budget.prefix == 0 || budget.log == 0
    then err no_room
    else if ltb budget.prefix (prefix_tokens p f)
    then err (prefix_over (prefix_tokens p f) budget.prefix)
    else ok (record { prefix = p; fence = f; budget = budget; log = []; log_tokens = 0 })

abbrev pub truncated : Block → Block
truncated b = record b { body = truncate b.kind b.body }

abbrev pub cost : Pack → Block → ℕ
cost p b = estimate_tokens (render p.fence (truncated b))

-- `Append`.
unfoldable pub append : Block → Pack → Option PackError × Pack
append b p =
    if ltb p.budget.log (p.log_tokens + cost p b)
    then (some log_full, p)
    else (none, record p { log = p.log ++ truncated b ∷ []; log_tokens = p.log_tokens + cost p b })

-- `Fits`.
unfoldable pub fits : Block → Pack → Bool
fits b p = leb (p.log_tokens + cost p b) p.budget.log

-- The caller passes no negative number.
pub record Tail : Type 0 where
  pub instruction : Text
  pub tokens_used : ℕ
  pub tokens_remaining : ℕ
  pub retry : ℕ

unfoldable pub render_tail : Tail → Text
render_tail t =
    t.instruction
    ++ (if ltb 0 t.tokens_used || ltb 0 t.tokens_remaining || ltb 0 t.retry
        then newline ∷ newline ∷ codes "Budget: "
          ++ decimal t.tokens_used
          ++ codes " tokens used, "
          ++ decimal t.tokens_remaining
          ++ codes " remaining, attempt "
          ++ decimal (suc t.retry)
          ++ codes "."
        else [])

abbrev pub message : Text → Text → Message
message role content = record {
  role = role;
  content = content;
  name = [];
  tool_call_id = [];
  tool_calls = [];
}

abbrev pub role_of : BlockKind → Text
role_of model_turn = codes "assistant"
role_of evidence = codes "user"
role_of tool_result = codes "user"

unfoldable pub block_message : Fence → Block → Message
block_message f b = message (role_of b.kind) (render f b)

unfoldable pub tail_messages : Tail → List Message
tail_messages t =
    if is_empty (trim_space (render_tail t))
    then []
    else message (codes "user") (render_tail t) ∷ []

abbrev pub system_text : Text → Fence → Text
system_text policy f = policy ++ newline ∷ newline ∷ preamble f

-- The two messages of the prefix.
unfoldable pub frozen : Prefix → Fence → List Message
frozen p f =
    message (codes "system") (system_text p.policy f) ∷ message (codes "user") (frozen_user p) ∷ []

-- `Messages`, with the number of leading messages that are the frozen prefix.
unfoldable pub messages : Tail → Pack → List Message × ℕ
messages t p =
    let leading = frozen p.prefix p.fence in
    (leading ++ map (block_message p.fence) p.log ++ tail_messages t, length leading)

abbrev pub with_card : Text → Prefix → Prefix
with_card card p = if is_empty (trim_space card) then p else record p { task_card = card }

-- `Repack`.
unfoldable pub repack : Text → Budget → Pack → Result PackError Pack
repack card budget p = new_pack (with_card card p.prefix) p.fence budget

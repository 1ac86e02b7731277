-- ===== src/ContextPack/Examples.antt =====
-- A pack with a log of two entries, and the cut of the output of a tool.
use local_engineer.Prelude.{
  ℕ, suc, zero, ◌+◌, ◌≡◌, refl, true, false, List, [], ◌∷◌, ◌++◌, ◌↔◌, none, some, length, ok, ◌≤◌,
  ◌<◌,
}
use local_engineer.GoStrings.{Text, codes, has_prefix, split, contains, join_by, trim_space}
use local_engineer.GoStrings.Decimal.{decimal}
use local_engineer.Trust.{Fence, wrap, neutralise, preamble}
use local_engineer.Native.Loop.{Message}
use local_engineer.ContextPack.{
  Prefix, Block, Budget, Pack, evidence, model_turn, log_full, newline, truncate_output,
  estimate_tokens, render, new_pack, append, fits, Tail, truncated, messages, tail_messages,
  prefix_tokens, frozen_user, render_tail,
}
use local_engineer.ContextPack.Lines.{kept, truncate_cuts_once}
use local_engineer.ContextPack.Log.{Change, appends, repacks, IsSound, run, run-IsSound}
use local_engineer.ContextPack.Requests.{fits_iff_append, append_all, request_extends}

abbrev fence : Fence
fence = record { nonce = codes "00ff" }

abbrev prefix : Prefix
prefix = record {
  policy = codes "Be exact.";
  repo_card = codes "go";
  repo_map = [];
  task_card = codes "Fix the parser";
}

abbrev budget : Budget
budget = record { prefix = 400; log = 40; output = 10 }

abbrev pack : Pack
pack = record { prefix = prefix; fence = fence; budget = budget; log = []; log_tokens = 0 }

abbrev seen : Block
seen = record { kind = evidence; origin = codes "a.go"; body = codes "package a" }

abbrev said : Block
said = record { kind = model_turn; origin = []; body = codes "I see." }

abbrev tail : Tail
tail = record { instruction = codes "Plan."; tokens_used = 0; tokens_remaining = 0; retry = 0 }

frozen_user_runs :
    frozen_user prefix ≡ codes "## REPOSITORY\n" ++ codes "go\n\n## TASK\nFix the parser"
unfolding frozen_user trim_space
frozen_user_runs = refl

render_tail_runs :
    render_tail (record tail { tokens_used = 7 })
    ≡ codes "Plan.\n\nBudget: 7 tokens used, 0 remaining, attempt 1."
unfolding render_tail decimal
render_tail_runs = refl

new_pack_runs : new_pack prefix fence budget ≡ ok pack
unfolding new_pack prefix_tokens estimate_tokens preamble frozen_user trim_space
new_pack_runs = refl

-- The fenced block costs 16 tokens, so a third one does not fit.
append_runs : (append_all (seen ∷ seen ∷ []) pack).log_tokens ≡ 32
unfolding append append_all render wrap neutralise contains estimate_tokens has_prefix
append_runs = refl

fits_runs : fits seen (append_all (seen ∷ seen ∷ []) pack) ≡ false
unfolding append append_all render wrap neutralise contains estimate_tokens fits has_prefix
fits_runs = refl

-- So many empty lines and one more.
abbrev blank_lines : ℕ → Text
blank_lines zero = []
blank_lines (suc n) = newline ∷ blank_lines n

abbrev many : Text
many = blank_lines 104

truncate_runs : length (truncate_output many) ≡ 59 + 37 + 4 + 39
unfolding truncate_output split join_by decimal
truncate_runs = refl

truncate_cuts_once_example :
    (length (split (truncate_output many) newline) ≤ 103)
    × (truncate_output (truncate_output many) ≡ truncate_output many)
    × (length (split many newline) ≤ 103 → truncate_output many ≡ many)
    × (103 < length (split many newline)
        → split (truncate_output many) newline ≡ kept (split many newline))
truncate_cuts_once_example = truncate_cuts_once many

fits_iff_append_example :
    ((fits seen pack ≡ true) ↔ ((append seen pack).0 ≡ none))
    × (fits seen pack ≡ true → (append seen pack).1.log ≡ [] ++ truncated seen ∷ [])
    × (fits seen pack ≡ false → append seen pack ≡ (some log_full, pack))
fits_iff_append_example = fits_iff_append seen pack

request_extends_example :
    (old new : List Message) × ((messages tail pack).0 ≡ old ++ tail_messages tail)
    × ((messages tail (append_all (seen ∷ said ∷ []) pack)).0 ≡ (old ++ new) ++ tail_messages tail)
    × ((messages tail (append_all (seen ∷ said ∷ []) pack)).1 ≡ (messages tail pack).1)
request_extends_example = request_extends pack (seen ∷ said ∷ []) tail tail

abbrev changes : List Change
changes = appends seen ∷ repacks [] budget ∷ appends said ∷ []

run-IsSound_example : IsSound (run changes pack)
run-IsSound_example = run-IsSound prefix fence budget pack changes new_pack_runs

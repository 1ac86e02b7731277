-- ===== src/Native/Examples.antt =====
-- Tests of the tool loop, on one read, one write and a journal that starts empty.
use local_engineer.Prelude.{
  ℕ, ◌<◌, ◌≡◌, ◌≢◌, refl, ◌↔◌, inl, true, false, List, [], ◌∷◌, none, some, ok, arith, sort_by,
}
use local_engineer.GoStrings.{
  Text, codes, text_eq, has_prefix, has_suffix, contains, split, to_lower, trim_prefix,
}
use local_engineer.GoPath.{clean, join, dir, base, is_abs, join_parts, rel_inside}
use local_engineer.GoPath.Match.{match}
use local_engineer.Worktree.{FileSystem, Links, inside, climb, rejoin, resolve}
use local_engineer.Policy.{
  all_violations, policy_violations, rule_violations, check, covers, covered_by, valid_scope,
  matches, sensitive,
}
use local_engineer.Firewall.{Access, generated, check_name, check_access}
use local_engineer.Firewall.Authority.{Resolves, Writable}
use local_engineer.Ledger.Journal.{Operation, Journal, find_row, uncertain, begin, complete, finish}
use local_engineer.Native.{ToolCall, ToolDef, tool_write_file}
use local_engineer.Native.Authorize.{
  text, Args, Schema, Decoder, Refusal, find_tool, check_required, check_text, check_argument,
  check_arguments, text_argument, check_path, authorize,
}
use local_engineer.Native.Authorize.Exact.{WellFormed, authorize_exact, authorized_edit}
use local_engineer.Native.Exec.{Request, Commit, Host, empty_result, decision, settle, exec}
use local_engineer.Native.Exec.Audit.{effect_is_admitted, outcome_is_recorded}
use local_engineer.Native.Progress.{Record, going, stuck, repeat_limit, stale_limit}
use local_engineer.Native.Progress.Streaks.{Called, streak, answers, guard, idle, flat, guard_exact}
use local_engineer.Recipe.{lookup}

abbrev plain_fs : FileSystem
plain_fs = record {
  eval_symlinks = λ p. Links.resolved p;
  is_symlink = λ p. false;
  read_file = λ p. ok [];
  exists = λ p. true;
}

abbrev worktree : Text
worktree = codes "/w"

abbrev access : Access
access = record { write_scope = codes "." ∷ []; protected = record { policies = [] } }

-- Arguments are the path itself, and there is one schema.
abbrev decode : Decoder
decode = record {
  schema = λ s. some (record {
    required = codes "path" ∷ [];
    properties = (codes "path", record { type_name = codes "string"; choices = [] }) ∷ [];
  });
  arguments = λ s. some ((codes "path", text s) ∷ []);
}

abbrev tools : List ToolDef
tools = record { name = tool_write_file; description = []; schema = [] } ∷ []

abbrev write_call : ToolCall
write_call = record { id = codes "1"; name = tool_write_file; arguments = codes "a.go" }

abbrev hidden_call : ToolCall
hidden_call = record { id = codes "2"; name = codes "shell"; arguments = [] }

abbrev request : Request
request = record {
  task_id = codes "t";
  worktree = worktree;
  access = access;
  tools = tools;
  decode = decode;
}

-- The world is the number of edits.
abbrev host : Host ℕ
host = record {
  files = λ w. plain_fs;
  execute = λ call w. (empty_result, 1);
  manifest = λ w. some (codes "m");
  intent = λ d call. some (codes "i");
  body = λ r. some (codes "b");
  explain = λ r. codes "no";
}

abbrev commit : Commit
commit = record { now = 5; commits = true }

abbrev lost : Commit
lost = record { now = 6; commits = false }

abbrev journal : Journal
journal = record { rows = []; next_id = 1 }

authorize_exact_example : (authorize decode plain_fs access worktree tools write_call ≡ none) ↔ (
    (s : Schema) × (args : Args) × WellFormed decode tools write_call s args
    × (check_path plain_fs access worktree write_call.name args ≡ none))
authorize_exact_example = authorize_exact decode plain_fs access worktree tools write_call

write_call_is_allowed : authorize decode plain_fs access worktree tools write_call ≡ none
unfolding authorize find_tool text_eq check_required lookup check_arguments check_argument
    check_text check_path text_argument check_access check_name resolve climb inside rejoin join
    clean dir base is_abs join_parts rel_inside match contains has_prefix has_suffix split to_lower
    trim_prefix generated sensitive covers covered_by valid_scope matches check all_violations
    policy_violations rule_violations sort_by
write_call_is_allowed = refl

hidden_call_is_refused :
    authorize decode plain_fs access worktree tools hidden_call
    ≡ some (Refusal.not_advertised (codes "shell"))
unfolding authorize find_tool text_eq
hidden_call_is_refused = refl

authorized_edit_example :
    (args : Args) × (decode.arguments write_call.arguments ≡ some args)
    × ((target : Text) × Resolves plain_fs worktree (text_argument args (codes "path")) target
        × Writable access (clean (text_argument args (codes "path")))
        × Writable access target)
authorized_edit_example =
    authorized_edit decode plain_fs access worktree tools write_call (inl refl)
      write_call_is_allowed

-- The write happens and its outcome is lost.
the_write_happens : (exec host request commit lost write_call (some journal) 0).world ≡ 1
unfolding exec settle begin complete finish
the_write_happens = rw write_call_is_allowed refl

it_changed_the_world : (exec host request commit lost write_call (some journal) 0).world ≢ 0
it_changed_the_world e = ground (arith, the_write_happens)

effect_is_admitted_example :
    (decision host request write_call 0 ≡ none)
    × ((j : Journal) × (o : Operation) × ((exec host request commit lost write_call
            (some journal)
            0).journal
          ≡ some j)
        × (find_row journal.next_id j.rows ≡ some o)
        × (host.intent none write_call ≡ some o.intent)
        × (host.manifest 0 ≡ some o.candidate_before)
        × ((exec host request commit lost write_call (some journal) 0).error ≢ none
            → uncertain o ≡ true))
effect_is_admitted_example =
    effect_is_admitted host request commit lost write_call journal 0 it_changed_the_world

it_ends_well : (exec host request commit commit write_call (some journal) 0).error ≡ none
unfolding exec settle begin complete finish
it_ends_well = ground (arith, write_call_is_allowed)

outcome_is_recorded_example :
    (j : Journal) × (o : Operation) × ((exec host request commit commit write_call
        (some journal)
        0).journal
      ≡ some j)
    × (find_row journal.next_id j.rows ≡ some o)
    × (host.intent (decision host request write_call 0) write_call ≡ some o.intent)
    × (host.manifest 0 ≡ some o.candidate_before)
    × (host.body (exec host request commit commit write_call (some journal) 0).result
        ≡ some o.outcome)
    × (host.manifest (exec host request commit commit write_call (some journal) 0).world
        ≡ some o.candidate_after)
outcome_is_recorded_example =
    outcome_is_recorded host request commit commit write_call journal 0 it_ends_well

-- Two steps: the second asks what the first has asked, and gets the same answer.
abbrev steps : List (List Called)
steps =
    (record { name = codes "read"; arguments = codes "a"; content = codes "x"; changed = false }
      ∷ [])
    ∷ (record { name = codes "read"; arguments = codes "a"; content = codes "x"; changed = false }
        ∷ [])
    ∷ []

idle_runs : idle (λ t. t) (λ t. t) steps ≡ 1
unfolding streak text_eq
idle_runs = refl

guard_exact_example : (stuck (guard (λ t. t) (λ t. t) steps) ≡ going) ↔ (
    (idle (λ t. t) (λ t. t) steps < stale_limit)
    × ((fp : Text) (r : Record)
        → streak fp (answers (λ t. t) (λ t. t) (flat (λ t. t) (λ t. t) steps)) ≡ some r
        → r.count < repeat_limit))
guard_exact_example = guard_exact (λ t. t) (λ t. t) steps

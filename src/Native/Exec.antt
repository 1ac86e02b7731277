-- ===== src/Native/Exec.antt =====
-- `exec` of internal/engine/native/authorize.go: one call, decided, journalled, executed, and its
-- outcome journalled. What the tools do to the world (internal/engine/native/exec.go), the manifest of
-- the worktree (internal/ledger/snapshot.go) and the JSON encodings are parameters.
pub mod Audit
use local_engineer.Prelude.{
  ℕ, Bool, true, false, List, [], ◌∷◌, Option, none, some, Result, ok, err,
}
use local_engineer.GoStrings.{Text}
use local_engineer.Worktree.{FileSystem}
use local_engineer.Firewall.{Access}
use local_engineer.Ledger.Journal.{OpKind, Journal, JournalError, Handle, begin, complete}
use local_engineer.Native.{ToolCall, ToolDef, ToolResult}
use local_engineer.Native.Authorize.{Decoder, Refusal, authorize}

pub record Request : Type 0 where
  pub task_id : Text
  pub worktree : Text
  pub access : Access
  pub tools : List ToolDef
  pub decode : Decoder

-- What the journal's database does at one call: the time, and whether the transaction goes through.
pub record Commit : Type 0 where
  pub now : ℕ
  pub commits : Bool

pub record Host (W : Type 0) : Type 0 where
  pub files : W → FileSystem
  pub execute : ToolCall → W → ToolResult × W
  pub manifest : W → Option Text
  pub intent : Option Refusal → ToolCall → Option Text
  pub body : ToolResult → Option Text
  pub explain : Refusal → Text

pub data ExecError : Type 0 where
  no_manifest : ExecError
  not_journalled : JournalError → ExecError

pub record Executed (W : Type 0) : Type 0 where
  pub result : ToolResult
  pub error : Option ExecError
  pub journal : Option Journal
  pub world : W

-- `Result{}`.
abbrev pub empty_result : ToolResult
empty_result = record {
  invalid = false;
  content = [];
  failed = false;
  edited = false;
  done = false;
  summary = [];
}

module _ {W : Type 0} (host : Host W) where
  -- `failed` with `Invalid` set.
  abbrev pub refused : Refusal → ToolResult
  refused r = record empty_result { invalid = true; content = host.explain r; failed = true }

  abbrev pub act : Option Refusal → ToolCall → W → ToolResult × W
  act none call w = host.execute call w
  act (some r) call w = (refused r, w)

  abbrev pub decision : Request → ToolCall → W → Option Refusal
  decision req call w = authorize req.decode (host.files w) req.access req.worktree req.tools call

  -- The part after `Begin`.
  unfoldable pub settle : Commit → Option Refusal → ToolCall → Handle → Journal → W → Executed W
  settle c denial call h j w =
      let (result, w') = act denial call w in
      elim (host.manifest w') [
        | none ↦ record { result = result; error = some no_manifest; journal = some j; world = w' }
        | some after ↦ elim (complete c.now c.commits (host.body result) after [] h j) [
          | err e ↦ record {
            result = result;
            error = some (not_journalled e);
            journal = some j;
            world = w';
          }
          | ok (h', j') ↦ record { result = result; error = none; journal = some j'; world = w' }
        ]
      ]

  -- `exec`, with the commits of its two calls of the journal.
  unfoldable pub exec : Request → Commit → Commit → ToolCall → Option Journal → W → Executed W
  exec req c c' call none w =
      let (result, w') = act (decision req call w) call w in
      record { result = result; error = none; journal = none; world = w' }
  exec req c c' call (some j) w = elim (host.manifest w) [
    | none ↦ record { result = empty_result; error = some no_manifest; journal = some j; world = w }
    | some before ↦
        elim (begin c.now c.commits req.task_id OpKind.decision
          (host.intent (decision req call w) call) before j) [
            | err e ↦ record {
              result = empty_result;
              error = some (not_journalled e);
              journal = some j;
              world = w;
            }
            | ok (h, j') ↦ settle c' (decision req call w) call h j' w
          ]
  ]

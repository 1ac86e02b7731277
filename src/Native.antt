-- ===== src/Native.antt =====
-- internal/engine/native and the messages of internal/llm/provider.go: the tool loop that turns a
-- plan into edits. The children model the loop guard, the authority of one call, and the journalled
-- execution of a call.
pub mod Progress
pub mod Authorize
pub mod Exec
pub mod Loop
pub mod Reconcile
mod Examples
use local_engineer.Prelude.{ℕ, Bool, List, Option}
use local_engineer.GoStrings.{Text, codes}

pub record ToolCall : Type 0 where
  pub id : Text
  pub name : Text
  pub arguments : Text

pub record ToolDef : Type 0 where
  pub name : Text
  pub description : Text
  pub schema : Text

-- `Result` of a tool.
pub record ToolResult : Type 0 where
  pub invalid : Bool
  pub content : Text
  pub failed : Bool
  pub edited : Bool
  pub done : Bool
  pub summary : Text

abbrev pub tool_read_file : Text
tool_read_file = codes "read_file"

abbrev pub tool_write_file : Text
tool_write_file = codes "write_file"

abbrev pub tool_edit_file : Text
tool_edit_file = codes "edit_file"

abbrev pub tool_list_files : Text
tool_list_files = codes "list_files"

abbrev pub tool_run_recipe : Text
tool_run_recipe = codes "run_verification"

abbrev pub tool_done : Text
tool_done = codes "done"

-- ===== src/Native/Authorize.antt =====
-- `authorize` of internal/engine/native/authorize.go: one proposed call against the schema that was
-- advertised and against the authority of the attempt. The JSON decoder is a parameter; a decoded
-- object is a list of its entries, in the order in which Go's map gives them.
pub mod Exact
use local_engineer.Prelude.{
  ℕ, Bool, true, false, not, ◌&&◌, ◌||◌, List, [], ◌∷◌, Option, none, some, leb, if◌then◌else◌, any,
  is_empty, ◌then_check◌,
}
use local_engineer.GoStrings.{Text, codes, text_eq}
use local_engineer.Recipe.{lookup}
use local_engineer.Worktree.{FileSystem}
use local_engineer.Firewall.{Access, Denied, check_access}
use local_engineer.Native.{
  ToolCall, ToolDef, tool_read_file, tool_write_file, tool_edit_file, tool_list_files,
}

-- A decoded value: a string, a whole number that is not negative, or anything else.
pub data Json : Type 0 where
  text : Text → Json
  natural : ℕ → Json
  other : Json

abbrev pub Args : Type 0
Args = List (Text × Json)

pub record Property : Type 0 where
  pub type_name : Text
  pub choices : List Text

pub record Schema : Type 0 where
  pub required : List Text
  pub properties : List (Text × Property)

-- `json.Unmarshal` of a schema, and of the arguments (`none` also for a JSON null).
pub record Decoder : Type 0 where
  pub schema : Text → Option Schema
  pub arguments : Text → Option Args

pub data Refusal : Type 0 where
  not_advertised : Text → Refusal
  bad_schema not_an_object : Refusal
  missing unknown not_a_string not_allowed not_an_integer unsupported_type : Text → Refusal
  denied : Denied → Refusal

abbrev pub max_int32 : ℕ
max_int32 = 2147483647

unfoldable pub find_tool : Text → List ToolDef → Option ToolDef
find_tool name [] = none
find_tool name (d ∷ ds) = if text_eq d.name name then some d else find_tool name ds

unfoldable pub check_required : List Text → Args → Option Refusal
check_required [] args = none
check_required (key ∷ keys) args = elim (lookup key args) [
  | none ↦ some (missing key)
  | some v ↦ check_required keys args
]

-- `case "string"` of the switch.
unfoldable pub check_text : Text → Property → Json → Option Refusal
check_text key p (text t) =
    if not (is_empty p.choices) && not (any (λ choice. text_eq choice t) p.choices)
    then some (not_allowed key)
    else none
check_text key p _ = some (not_a_string key)

-- `case "integer"` of the switch.
unfoldable pub check_integer : Text → Json → Option Refusal
check_integer key (natural n) = if leb n max_int32 then none else some (not_an_integer key)
check_integer key _ = some (not_an_integer key)

unfoldable pub check_argument : Schema → Text → Json → Option Refusal
check_argument s key value = elim (lookup key s.properties) [
  | none ↦ some (unknown key)
  | some p ↦
      if text_eq p.type_name (codes "string")
      then check_text key p value
      else if text_eq p.type_name (codes "integer")
      then check_integer key value
      else some (unsupported_type p.type_name)
]

unfoldable pub check_arguments : Schema → Args → Option Refusal
check_arguments s [] = none
check_arguments s ((key, value) ∷ args) =
    check_argument s key value then_check check_arguments s args

-- `str`.
unfoldable pub text_argument : Args → Text → Text
text_argument args key = elim (lookup key args) [ some (text t) ↦ t | _ ↦ [] ]

abbrev pub denial : Option Denied → Option Refusal
denial none = none
denial (some d) = some (denied d)

abbrev pub or_here : Text → Text
or_here [] = codes "."
or_here (c ∷ t) = c ∷ t

-- The last switch: the tools that name a path.
unfoldable pub check_path : FileSystem → Access → Text → Text → Args → Option Refusal
check_path fs access worktree name args =
    if text_eq name tool_read_file || text_eq name tool_write_file || text_eq name tool_edit_file
    then denial (
        check_access fs access worktree (text_argument args (codes "path"))
          (not (text_eq name tool_read_file)))
    else if text_eq name tool_list_files
    then denial (check_access fs access worktree (or_here (text_argument args (codes "dir"))) false)
    else none

-- `authorize`.
unfoldable pub authorize :
    Decoder → FileSystem → Access → Text → List ToolDef → ToolCall → Option Refusal
authorize decode fs access worktree tools call = elim (find_tool call.name tools) [
  | none ↦ some (not_advertised call.name)
  | some def ↦ elim (decode.schema def.schema) [
    | none ↦ some bad_schema
    | some s ↦ elim (decode.arguments call.arguments) [
      | none ↦ some not_an_object
      | some args ↦
          check_required s.required args
          then_check check_arguments s args
          then_check check_path fs access worktree call.name args
    ]
  ]
]

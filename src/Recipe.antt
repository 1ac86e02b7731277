-- ===== src/Recipe.antt =====
-- internal/recipe/recipe.go and internal/recipe/presets.go: the data of verification runs that the
-- workflow judges. Durations are left out: nothing that is modelled reads them.
pub mod Acceptance
mod Examples
use local_engineer.Prelude.{ℕ, Bool, true, false, List, [], ◌∷◌, Option, none, some, if◌then◌else◌}
use local_engineer.GoStrings.{Text, text_eq}

pub data Status : Type 0 where
  pass fail error skipped : Status

pub data Kind : Type 0 where
  build vet test race lint analyzer format generate integration custom : Kind

pub record Finding : Type 0 where
  pub file : Text
  pub line : ℕ
  pub column : ℕ
  pub message : Text
  pub test : Text
  pub rule : Text

pub record Summary : Type 0 where
  pub tests : List (Text × Status)
  pub headline : Text
  pub findings : List Finding
  pub counts : List (Text × ℕ)
  pub truncated : Bool

-- `Result`: one run of one recipe against one candidate.
pub record RunResult : Type 0 where
  pub recipe : Text
  pub kind : Kind
  pub status : Status
  pub summary : Summary
  pub exit_code : ℕ
  pub candidate : Text
  pub artifact_hash : Text
  pub error_text : Text

pub record Preset : Type 0 where
  pub name : Text
  pub kind : Kind
  pub argv : List Text
  pub dir : Text
  pub timeout_seconds : ℕ
  pub parser : Text

abbrev pub is_pass : Status → Bool
is_pass pass = true
is_pass _ = false

abbrev pub is_fail : Status → Bool
is_fail fail = true
is_fail _ = false

abbrev pub is_error : Status → Bool
is_error error = true
is_error _ = false

abbrev pub is_generate : Kind → Bool
is_generate generate = true
is_generate _ = false

-- A map read by key; Go's maps hold each key once, and the first entry is the one that is read.
module _ {ℓ} {V : Type ℓ} where
  unfoldable pub lookup : Text → List (Text × V) → Option V
  lookup k [] = none
  lookup k ((j, v) ∷ m) = if text_eq j k then some v else lookup k m

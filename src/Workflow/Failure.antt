-- ===== src/Workflow/Failure.antt =====
-- internal/workflow/failure.go: environmental failures, regressions against the baseline and the
-- class of a failure. The fingerprint of a result, which `FingerprintWithSymbols` computes by
-- SHA-256 and the parser of declarations, is the parameter of `classify`.
pub mod Classes
use local_engineer.Prelude.{
  ℕ, suc, Bool, true, false, not, ◌&&◌, ◌||◌, List, [], ◌∷◌, ◌++◌, Option, none, some, any,
  if◌then◌else◌, ltb,
}
use local_engineer.GoStrings.{Text, codes, text_eq, contains, to_lower}
use local_engineer.Recipe.{Status, pass, Finding, RunResult, is_pass, is_fail, is_error, lookup}

add_messages : Text → List Finding → Text
add_messages text [] = text
add_messages text (f ∷ fs) = add_messages (text ++ codes " " ++ to_lower f.message) fs

abbrev pub environment_patterns : List Text
environment_patterns =
    codes "no space left"
    ∷ codes "network unreachable"
    ∷ codes "network is unreachable"
    ∷ codes "address already in use"
    ∷ codes "module lookup disabled"
    ∷ codes "module not found in cache"
    ∷ codes "executable file not found"
    ∷ codes "permission denied"
    ∷ []

-- The text that is searched: the error, the headline and the messages, in lower case.
unfoldable pub failure_text : RunResult → Text
unfolding add_messages
failure_text r =
    add_messages (to_lower (r.error_text ++ codes " " ++ r.summary.headline)) r.summary.findings

-- `Environmental`.
unfoldable pub environmental : RunResult → Bool
environmental r =
    any (λ pattern. contains (failure_text r) pattern) environment_patterns || is_error r.status

abbrev pub passed_before : Option Status → Bool
passed_before none = false
passed_before (some s) = is_pass s

-- Whether a test that passed before fails now; the order of the map does not matter.
unfoldable pub broken_test : List (Text × Status) → List (Text × Status) → Bool
broken_test old tests = any (λ t. is_fail t.1 && passed_before (lookup t.0 old)) tests

abbrev pub regressed_from : RunResult → RunResult → Bool
regressed_from r old =
    text_eq old.recipe r.recipe
    && (broken_test old.summary.tests r.summary.tests || is_pass old.status)

-- `Regression`.
unfoldable pub regression : RunResult → List RunResult → Bool
regression r baseline = is_fail r.status && any (regressed_from r) baseline

pub data FailureClass : Type 0 where
  new same regressed environment flaky : FailureClass

pub record FailureRecord : Type 0 where
  pub fingerprint : Text
  pub class : FailureClass
  pub recipe : Text
  pub candidate : Text
  pub symbols : List Text

abbrev pub times_seen : Option ℕ → ℕ
times_seen none = 0
times_seen (some n) = n

-- The class, by the assignments in their order: the last that applies decides.
unfoldable pub failure_class : RunResult → List RunResult → List (Text × ℕ) → Text → FailureClass
failure_class r baseline seen fp =
    let first = if regression r baseline then regressed else new in
    let second = if ltb 0 (times_seen (lookup fp seen)) then same else first in
    if environmental r then environment else second

-- `Classify`.
module _ (fingerprint_of : RunResult → Text × List Text) where
  unfoldable pub classify : RunResult → List RunResult → List (Text × ℕ) → FailureRecord
  classify r baseline seen =
      let (fp, symbols) = fingerprint_of r in
      record {
        fingerprint = fp;
        class = failure_class r baseline seen fp;
        recipe = r.recipe;
        candidate = r.candidate;
        symbols = symbols;
      }

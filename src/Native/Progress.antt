-- ===== src/Native/Progress.antt =====
-- internal/engine/native/progress.go: the guard that ends a tool loop which has stopped learning.
-- The canonical form of a call's arguments (JSON with sorted keys) and the digest of an answer
-- (SHA-256) are parameters.
pub mod Streaks
use local_engineer.Prelude.{
  ℕ, suc, Bool, true, false, not, ◌&&◌, ◌||◌, List, [], ◌∷◌, ◌++◌, Option, none, some, leb,
  if◌then◌else◌, any,
}
use local_engineer.GoStrings.{Text, text_eq}
use local_engineer.Recipe.{lookup}

abbrev pub repeat_limit : ℕ
repeat_limit = 3

abbrev pub stale_limit : ℕ
stale_limit = 3

pub record Record : Type 0 where
  pub digest : Text
  pub count : ℕ

pub record Progress : Type 0 where
  pub seen : List (Text × Record)
  pub stale : ℕ

abbrev pub new_progress : Progress
new_progress = record { seen = []; stale = 0 }

pub data Worth : Type 0 where
  learned repeated : Worth

pub data Stuck : Type 0 where
  going : Stuck
  stale_steps : ℕ → Stuck
  same_answer : Text → ℕ → Stuck

-- A map entry written.
unfoldable pub put : Text → Record → List (Text × Record) → List (Text × Record)
put k r [] = (k, r) ∷ []
put k r ((j, q) ∷ m) = if text_eq j k then (j, r) ∷ m else (j, q) ∷ put k r m

-- What the record of a call becomes with one more answer.
unfoldable pub count_answer : Text → Option Record → Record × Worth
count_answer d none = (record { digest = d; count = 1 }, learned)
count_answer d (some r) =
    if not (text_eq r.digest d)
    then (record { digest = d; count = 1 }, learned)
    else (record r { count = suc r.count }, repeated)

module _ (canonical : Text → Text) (digest_of : Text → Text) where
  -- `fingerprint`: name and arguments, a zero byte between them.
  abbrev pub fingerprint : Text → Text → Text
  fingerprint name arguments = name ++ 0 ∷ canonical arguments

  -- `observe`.
  unfoldable pub observe : Progress → Text → Text → Text → Progress × Worth × ℕ
  observe p name arguments content =
      let fp = fingerprint name arguments in
      let (r, worth) = count_answer (digest_of content) (lookup fp p.seen) in
      (record p { seen = put fp r p.seen }, worth, r.count)

-- `endOfStep`.
unfoldable pub end_of_step : Bool → Progress → Progress
end_of_step learned_anything p =
    if learned_anything then record p { stale = 0 } else record p { stale = suc p.stale }

unfoldable pub first_repeat : List (Text × Record) → Stuck
first_repeat [] = going
first_repeat ((fp, r) ∷ m) =
    let rest = first_repeat m in if leb repeat_limit r.count then same_answer fp r.count else rest

-- `stuck`. The loop over the map stops at some entry at the limit; which one is left to the map.
unfoldable pub stuck : Progress → Stuck
stuck p = if leb stale_limit p.stale then stale_steps p.stale else first_repeat p.seen

-- ===== src/GitStatus.antt =====
-- The reading of `git status --porcelain=v1` in internal/supervisor/lifecycle.go.
use local_engineer.Prelude.{
  List, [], ◌∷◌, Option, none, some, ltb, ◌==◌, if◌then◌else◌, is_empty, length, drop, sort_by,
  reverse,
}
use local_engineer.GoStrings.{Text, codes, text_lt, split, has_prefix, trim_space}

-- `strings.TrimRight` of carriage returns.
strip_returns : Text → Text
strip_returns [] = []
strip_returns (c ∷ s) = if c == 13 then strip_returns s else c ∷ s

unfoldable pub trim_returns : Text → Text
unfolding strip_returns
trim_returns s = reverse (strip_returns (reverse s))

-- What `strings.Cut` finds after the first separator.
unfoldable pub cut_after : Text → Text → Option Text
cut_after [] sep = none
cut_after (c ∷ s) sep =
    let rest = cut_after s sep in
    if has_prefix (c ∷ s) sep then some (drop (length sep) (c ∷ s)) else rest

abbrev pub new_name : Option Text → Text → Text
new_name none path = path
new_name (some name) path = name

-- The path of one line of `git status`, empty where it names none.
unfoldable pub line_path : Text → Text
line_path line =
    if ltb (length (trim_returns line)) 4
    then []
    else let path = drop 3 (trim_returns line) in
      trim_space (new_name (cut_after path (codes " -> ")) path)

unfoldable pub paths_of : List Text → List Text
paths_of [] = []
paths_of (line ∷ lines) =
    let rest = paths_of lines in if is_empty (line_path line) then rest else line_path line ∷ rest

-- `parsePorcelain`.
unfoldable pub parse_porcelain : Text → List Text
parse_porcelain out = sort_by text_lt (paths_of (split out 10))

-- ===== src/GoPath.antt =====
-- The functions of Go's `path` package (and of `path/filepath` on Unix) that the program calls, over
-- bytes. The child Match follows the search of the library, chunk by
-- chunk and leftmost first; `none` stands for `ErrBadPattern`.
pub mod Match
pub mod Lengths
pub mod Parents
use local_engineer.Prelude.{
  ℕ, suc, zero, Bool, true, false, not, ◌&&◌, ◌||◌, List, [], ◌∷◌, ◌++◌, reverse, Option, none,
  some, leb, ◌==◌, if◌then◌else◌, length, is_empty, any,
}
use local_engineer.GoStrings.{Text, codes, text_eq, has_prefix, split, trim_prefix}

abbrev pub slash : ℕ
slash = b'/'

-- `strings.Join(parts, "/")`.
unfoldable pub join_parts : List Text → Text
join_parts [] = []
join_parts (part ∷ []) = part
join_parts (part ∷ next ∷ parts) = part ++ slash ∷ join_parts (next ∷ parts)

-- One element of a path against the elements kept so far, the last one first.
pop_part : Bool → List Text → List Text
unfolding text_eq
pop_part rooted [] = if rooted then [] else codes ".." ∷ []
pop_part rooted (part ∷ kept) = if text_eq part (codes "..") then codes ".." ∷ part ∷ kept else kept

clean_part : Bool → Text → List Text → List Text
unfolding text_eq pop_part
clean_part rooted part kept =
    if is_empty part || text_eq part (codes ".")
    then kept
    else if text_eq part (codes "..")
    then pop_part rooted kept
    else part ∷ kept

clean_parts : Bool → List Text → List Text → List Text
unfolding clean_part
clean_parts rooted [] kept = kept
clean_parts rooted (part ∷ parts) kept = clean_parts rooted parts (clean_part rooted part kept)

unfoldable pub is_abs : Text → Bool
unfolding has_prefix
is_abs p = has_prefix p (codes "/")

or_dot : Text → Text
or_dot [] = codes "."
or_dot (c ∷ s) = c ∷ s

unfoldable pub clean : Text → Text
unfolding is_abs split clean_parts join_parts or_dot
clean p =
    let kept = join_parts (reverse (clean_parts (is_abs p) (split p slash) [])) in
    if is_abs p then slash ∷ kept else or_dot kept

drop_slashes : Text → Text
drop_slashes [] = []
drop_slashes (c ∷ s) = if c == slash then drop_slashes s else c ∷ s

-- The bytes before the first slash.
before_slash : Text → Text
before_slash [] = []
before_slash (c ∷ s) = if c == slash then [] else c ∷ before_slash s

base_of : Text → Text → Text
unfolding before_slash
base_of [] [] = codes "."
base_of (c ∷ p) [] = codes "/"
base_of p (c ∷ s) = reverse (before_slash (c ∷ s))

unfoldable pub base : Text → Text
unfolding base_of drop_slashes
base p = base_of p (drop_slashes (reverse p))

-- The search backwards for the last dot, with what has been passed; a slash ends it.
ext_from : Text → Text → Text
ext_from seen [] = []
ext_from seen (c ∷ s) =
    let further = ext_from (c ∷ seen) s in
    if c == slash then [] else if c == b'.' then c ∷ seen else further

-- `filepath.Ext`: from the last dot of the last element.
unfoldable pub ext : Text → Text
unfolding ext_from
ext p = ext_from [] (reverse p)

-- `filepath.Join(a, b)`: empty elements are left out.
unfoldable pub join : Text → Text → Text
join [] b = if is_empty b then [] else clean b
join (c ∷ a) b = if is_empty b then clean (c ∷ a) else clean ((c ∷ a) ++ slash ∷ b)

upto_slash : Text → Text
upto_slash [] = []
upto_slash (c ∷ s) = if c == slash then c ∷ s else upto_slash s

-- `filepath.Dir`.
unfoldable pub dir : Text → Text
unfolding upto_slash
dir p = clean (reverse (upto_slash (reverse p)))

-- `filepath.Rel` for a target that lies inside the base, which is all that the program asks of it.
unfoldable pub rel_inside : Text → Text → Option Text
rel_inside root target =
    if text_eq target root
    then some (codes ".")
    else if has_prefix target (root ++ codes "/")
    then some (trim_prefix target (root ++ codes "/"))
    else none

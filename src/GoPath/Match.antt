-- ===== src/GoPath/Match.antt =====
-- Go's path.Match: a pattern is read as chunks between stars, and a chunk as items. It reads bytes, where
-- Go reads code points: for `?` and for classes the two agree on ASCII.
use local_engineer.Prelude.{
  ℕ, suc, zero, Bool, true, false, not, ◌&&◌, ◌||◌, List, [], ◌∷◌, Option, none, some, leb, ◌==◌,
  if◌then◌else◌, length, is_empty, any,
}
use local_engineer.GoStrings.{Text}
use local_engineer.GoPath.{slash}

-- What one position of a pattern matches.
pub data Item : Type 0 where
  lit : ℕ → Item
  any_byte : Item
  class : Bool → List (ℕ × ℕ) → Item

-- `scanChunk`: the pattern up to the next `*` outside brackets, and what follows.
scan_chunk : Bool → Text → Text × Text
scan_chunk in_range [] = ([], [])
scan_chunk in_range (c ∷ []) = if (c == b'*') && not in_range then ([], c ∷ []) else (c ∷ [], [])
scan_chunk in_range (c ∷ d ∷ p) =
    let escaped = scan_chunk in_range p in
    let plain =
      scan_chunk (if c == b'[' then true else if c == b']' then false else in_range) (d ∷ p) in
    if c == 92
    then (c ∷ d ∷ escaped.0, escaped.1)
    else if (c == b'*') && not in_range
    then ([], c ∷ d ∷ p)
    else (c ∷ plain.0, plain.1)

-- `getEsc`: one end of a range of a class, and the pattern behind it.
get_esc : Text → Option (ℕ × Text)
get_esc [] = none
get_esc (c ∷ []) = none
get_esc (c ∷ d ∷ p) =
    if (c == b'-') || (c == b']')
    then none
    else if c == 92
    then (if is_empty p then none else some (d, p))
    else some (c, d ∷ p)

-- The upper end of a range whose lower end has been read.
range_end : ℕ → Text → Option (ℕ × Text)
unfolding get_esc
range_end lo [] = some (lo, [])
range_end lo (c ∷ p) = if c == b'-' then get_esc p else some (lo, c ∷ p)

one_range : Text → Option ((ℕ × ℕ) × Text)
unfolding get_esc range_end
one_range p = elim (get_esc p) [
  | none ↦ none
  | some (lo, q) ↦ elim (range_end lo q) [ none ↦ none | some (hi, rest) ↦ some ((lo, hi), rest) ]
]

abbrev add_range : ℕ × ℕ → Option (List (ℕ × ℕ) × Text) → Option (List (ℕ × ℕ) × Text)
add_range range none = none
add_range range (some (ranges, rest)) = some (range ∷ ranges, rest)

abbrev class_end : Bool → Text → Option Text
class_end more [] = none
class_end more (c ∷ p) = if more && (c == b']') then some p else none

-- The ranges of a class up to its `]`; `more` says that a range has been read. The fuel is the
-- pattern's length, and each range takes a byte at least.
class_ranges : ℕ → Bool → Text → Option (List (ℕ × ℕ) × Text)
unfolding one_range
class_ranges zero more p = none
class_ranges (suc fuel) more p = elim (class_end more p) [
  | some rest ↦ some ([], rest)
  | none ↦ elim (one_range p) [
    | none ↦ none
    | some (range, rest) ↦ add_range range (class_ranges fuel true rest)
  ]
]

abbrev add_item : Item → Option (List Item) → Option (List Item)
add_item item none = none
add_item item (some items) = some (item ∷ items)

abbrev negated : Text → Bool × Text
negated [] = (false, [])
negated (c ∷ p) = if c == b'^' then (true, p) else (false, c ∷ p)

-- A chunk without stars as the positions that it matches.
chunk_items : ℕ → Text → Option (List Item)
unfolding class_ranges
chunk_items zero p = none
chunk_items (suc fuel) [] = some []
chunk_items (suc fuel) (c ∷ p) =
    let (neg, ranges) = negated p in
    let bracket : Option (List Item) = elim (class_ranges (length p) false ranges) [
      | none ↦ none
      | some (found, rest) ↦ add_item (class neg found) (chunk_items fuel rest)
    ] in
    let escape : Option (List Item) = elim p [
      | [] ↦ none
      | d ∷ rest ↦ add_item (lit d) (chunk_items fuel rest)
    ] in
    let single = add_item any_byte (chunk_items fuel p) in
    let plain = add_item (lit c) (chunk_items fuel p) in
    if c == b'[' then bracket else if c == b'?' then single else if c == 92 then escape else plain

abbrev drop_stars : Text → Bool × Text
drop_stars [] = (false, [])
drop_stars (c ∷ p) = if c == b'*' then (true, (drop_stars p).1) else (false, c ∷ p)

-- The chunks of a pattern, each with the flag of a star before it.
pattern_chunks : ℕ → Text → Option (List (Bool × List Item))
unfolding scan_chunk chunk_items
pattern_chunks zero p = some []
pattern_chunks (suc fuel) [] = some []
pattern_chunks (suc fuel) (c ∷ p) =
    let (star, q) = drop_stars (c ∷ p) in
    let (chunk, rest) = scan_chunk false q in
    elim (chunk_items (suc (length chunk)) chunk) [
      | none ↦ none
      | some items ↦ elim (pattern_chunks fuel rest) [
        | none ↦ none
        | some chunks ↦ some ((star, items) ∷ chunks)
      ]
    ]

in_ranges : ℕ → List (ℕ × ℕ) → Bool
in_ranges c [] = false
in_ranges c ((lo, hi) ∷ ranges) = (leb lo c && leb c hi) || in_ranges c ranges

matches_item : Item → ℕ → Bool
unfolding in_ranges
matches_item (lit d) c = c == d
matches_item any_byte c = not (c == slash)
matches_item (class neg ranges) c = if neg then not (in_ranges c ranges) else in_ranges c ranges

-- `matchChunk`: what is left of the name behind the chunk.
match_chunk : List Item → Text → Option Text
unfolding matches_item
match_chunk [] name = some name
match_chunk (item ∷ items) [] = none
match_chunk (item ∷ items) (c ∷ name) =
    let rest = match_chunk items name in if matches_item item c then rest else none

-- The match counts if the name is used up or chunks are left.
abbrev accepts : Bool → Option Text → Option Text
accepts last none = none
accepts last (some rest) = if not last || is_empty rest then some rest else none

-- The leftmost place behind a star at which the chunk matches; a star crosses no slash.
seek : Bool → List Item → Text → Option Text
unfolding match_chunk
seek last items [] = none
seek last items (c ∷ name) =
    let later = seek last items name in
    if c == slash
    then none
    else elim (accepts last (match_chunk items name)) [ some rest ↦ some rest | none ↦ later ]

match_chunks : List (Bool × List Item) → Text → Bool
unfolding match_chunk seek
match_chunks [] name = is_empty name
match_chunks ((true, []) ∷ []) name = not (any (λ c. c == slash) name)
match_chunks ((star, items) ∷ chunks) name =
    elim (accepts (is_empty chunks) (match_chunk items name)) [
      | some rest ↦ match_chunks chunks rest
      | none ↦
          if star
          then elim (seek (is_empty chunks) items name) [
            | some rest ↦ match_chunks chunks rest
            | none ↦ false
          ]
          else false
    ]

-- `path.Match`.
unfoldable pub match : Text → Text → Option Bool
unfolding pattern_chunks match_chunks
match p name = elim (pattern_chunks (length p) p) [
  | none ↦ none
  | some chunks ↦ some (match_chunks chunks name)
]

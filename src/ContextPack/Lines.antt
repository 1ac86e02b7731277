-- ===== src/ContextPack/Lines.antt =====
-- The output of a tool is cut once, to its first and last lines.
use mathlib.Core.List.{append_assoc}
use local_engineer.Prelude.{
  ℕ, zero, suc, ◌-◌, ◌≤◌, ◌<◌, ◌≡◌, ap, ◌∙◌, inl, inr, true, not, ◌&&◌, List, [], ◌∷◌, ◌++◌, arith,
  leb, ◌==◌, all, take, drop, length, length-append, length-take, Bool-cases,
}
use local_engineer.GoStrings.{Text, codes, split, join_by}
use local_engineer.GoStrings.Decimal.{decimal, decimal-plain}
use local_engineer.GoStrings.Lines.{
  plain, all-append, all-take, all-drop, split-plain, split-next, split-join_by,
  split-join_by-append,
}
use local_engineer.ContextPack.{
  newline, head_lines, tail_lines, note, notice, shorten, truncate_output,
}

note-plain : (n : ℕ) → plain newline (note n) ≡ true
note-plain n =
    all-append (λ c. not (c == newline)) (decimal n) (codes " lines omitted at fetch time ...")
    ∙ ap (λ b. b && true) (decimal-plain n)

after_head :
    (t : Text) (tail : List Text) (n : ℕ)
    → all (plain newline) (t ∷ tail) ≡ true
    → split ((note n ++ newline ∷ newline ∷ []) ++ join_by newline (t ∷ tail)) newline
      ≡ note n ∷ [] ∷ t ∷ tail
unfolding split
after_head t tail n tp =
    ap (λ s. split s newline)
      (append_assoc (note n) (newline ∷ newline ∷ []) (join_by newline (t ∷ tail)))
    ∙ split-next (note n) (newline ∷ join_by newline (t ∷ tail)) newline (note-plain n)
    ∙ ap (λ ls. note n ∷ [] ∷ ls) (split-join_by newline t tail tp)

-- The lines of a cut text: the head, a blank line, the notice, a blank line, the tail.
noticed :
    (h : Text) (head : List Text) (t : Text) (tail : List Text) (n : ℕ)
    → all (plain newline) (h ∷ head) ≡ true
    → all (plain newline) (t ∷ tail) ≡ true
    → split ((join_by newline (h ∷ head) ++ notice n) ++ join_by newline (t ∷ tail)) newline
      ≡ (h ∷ head) ++ ([] ∷ note n ∷ [] ∷ t ∷ tail)
unfolding split
noticed h head t tail n hp tp =
    ap (λ s. split s newline)
      (append_assoc (join_by newline (h ∷ head)) (notice n) (join_by newline (t ∷ tail)))
    ∙ split-join_by-append newline h head
        (newline ∷ ((note n ++ newline ∷ newline ∷ []) ++ join_by newline (t ∷ tail))) hp
    ∙ ap (λ ls. (h ∷ head) ++ ([] ∷ ls)) (after_head t tail n tp)

noticed_lists :
    (head tail : List Text) (n : ℕ)
    → 0 < length head
    → 0 < length tail
    → all (plain newline) head ≡ true
    → all (plain newline) tail ≡ true
    → split ((join_by newline head ++ notice n) ++ join_by newline tail) newline
      ≡ head ++ ([] ∷ note n ∷ [] ∷ tail)
noticed_lists [] tail n h t hp tp = absurd (omega (arith, h))
noticed_lists (x ∷ head) [] n h t hp tp = absurd (omega (arith, t))
noticed_lists (x ∷ head) (y ∷ tail) n h t hp tp = noticed x head y tail n hp tp

abbrev lines_of : Text → List Text
lines_of body = split body newline

length-drop : (n : ℕ) (xs : List Text) → length (drop n xs) ≡ length xs - n
length-drop zero xs = omega arith
length-drop (suc n) [] = omega arith
length-drop (suc n) (x ∷ xs) = omega (arith, length-drop n xs)

-- The lines that are left of so many.
abbrev pub kept : List Text → List Text
kept ls =
    take head_lines ls
    ++ ([] ∷ note (length ls - head_lines - tail_lines) ∷ [] ∷ drop (length ls - tail_lines) ls)

pub shorten-lines :
    (body : Text)
    → 103 < length (split body newline)
    → split (shorten (split body newline)) newline ≡ kept (split body newline)
shorten-lines body h =
    let ls = split body newline in
    noticed_lists (take head_lines ls) (drop (length ls - tail_lines) ls)
      (length ls - head_lines - tail_lines) (omega (arith, h, length-take head_lines ls))
      (omega (arith, h, length-drop (length ls - tail_lines) ls))
      (all-take (plain newline) head_lines ls (split-plain body newline))
      (all-drop (plain newline) (length ls - tail_lines) ls (split-plain body newline))

pub length-kept : (ls : List Text) → 103 < length ls → length (kept ls) ≡ 103
length-kept ls h =
    length-append (take head_lines ls)
      ([] ∷ note (length ls - head_lines - tail_lines) ∷ [] ∷ drop (length ls - tail_lines) ls)
    ∙ omega (arith, h, length-take head_lines ls, length-drop (length ls - tail_lines) ls)

pub short_stays : (body : Text) → length (split body newline) ≤ 103 → truncate_output body ≡ body
unfolding truncate_output
short_stays body h = ground (arith, h)

pub long_is_cut :
    (body : Text)
    → 103 < length (split body newline)
    → truncate_output body ≡ shorten (split body newline)
unfolding truncate_output
long_is_cut body h = ground (arith, h)

-- The output of a tool is never more than 103 lines after the cut, and cutting it again changes
-- nothing. Output of up to 103 lines is kept as it is, and of longer output the first 60 and the last
-- 40 lines are kept, with a notice between two blank lines that says how many lines are left out.
pub truncate_cuts_once :
    (body : Text)
    → (length (split (truncate_output body) newline) ≤ 103)
      × (truncate_output (truncate_output body) ≡ truncate_output body)
      × (length (split body newline) ≤ 103 → truncate_output body ≡ body)
      × (103 < length (split body newline)
          → split (truncate_output body) newline ≡ kept (split body newline))
truncate_cuts_once body =
    (bounded, short_stays (truncate_output body) bounded, short_stays body, cut)
  where
    cut :
        103 < length (split body newline)
        → split (truncate_output body) newline ≡ kept (split body newline)
    cut h = ap (λ s. split s newline) (long_is_cut body h) ∙ shorten-lines body h

    bounded : length (split (truncate_output body) newline) ≤ 103
    bounded = elim (Bool-cases (leb (length (split body newline)) 103)) [
      | inl e ↦ rw (short_stays body (ground (arith, e))) (ground (arith, e))
      | inr e ↦ omega (
        arith,
        ap length (cut (ground (arith, e))),
        length-kept (split body newline) (ground (arith, e)),
      )
    ]

-- ===== src/Firewall/Secrets.antt =====
-- Which diffs pass the credential gate.
use local_engineer.Prelude.{
  ◌≡◌, refl, ◌↔◌, Bool, true, false, not, ◌&&◌, List, [], ◌∷◌, none, arith, In, drop, all, all-In,
  In-all,
}
use local_engineer.GoStrings.{Text, codes, has_prefix, split, trim_prefix}
use local_engineer.Firewall.{credential_pattern, check_lines, check_diff_secrets, newline}

-- A line that the diff adds: it starts with `+` and is no file header.
abbrev pub added : Text → Bool
added line = has_prefix line (codes "+") && not (has_prefix line (codes "+++ "))

abbrev pub leaks : Text → Bool
leaks line = added line && credential_pattern (drop 1 line)

check_lines-none :
    (file : Text) (lines : List Text)
    → (check_lines file lines ≡ none) ↔ (all (λ l. not (leaks l)) lines ≡ true)
unfolding check_lines
check_lines-none file [] = ((λ _. refl), (λ _. refl))
check_lines-none file (line ∷ lines) =
    ground
      (arith, check_lines-none file lines, check_lines-none (trim_prefix line (codes "+++ ")) lines)

-- A diff passes exactly when no line that it adds holds a credential; headers, removed lines and
-- context never stop it.
pub check_diff_secrets-none :
    (diff : Text)
    → (check_diff_secrets diff ≡ none) ↔ (
        (line : Text)
        → In line (split diff newline)
        → added line ≡ true
        → credential_pattern (drop 1 line) ≡ false)
unfolding check_diff_secrets
check_diff_secrets-none diff = (there, back)
  where
    there :
        check_lines (codes "unknown file") (split diff newline) ≡ none
        → (line : Text) → In line (split diff newline)
        → added line ≡ true
        → credential_pattern (drop 1 line) ≡ false
    there h line m a =
        let clear : not (leaks line) ≡ true =
          all-In (λ l. not (leaks l)) line (split diff newline)
            ((check_lines-none (codes "unknown file") (split diff newline)).0 h) m in
        ground arith

    back :
        ((line : Text)
          → In line (split diff newline)
          → added line ≡ true
          → credential_pattern (drop 1 line) ≡ false)
        → check_lines (codes "unknown file") (split diff newline) ≡ none
    back h =
        (check_lines-none (codes "unknown file") (split diff newline)).1
          (In-all (λ l. not (leaks l)) (split diff newline) (λ line m. quiet line (h line m)))
      where
        quiet :
            (line : Text)
            → (added line ≡ true → credential_pattern (drop 1 line) ≡ false)
            → not (leaks line) ≡ true
        quiet line k = ground arith

-- ===== src/QueryServer/Statements.antt =====
-- `_statement_count`: the parts between the semicolons outside string literals.
use browser_visit_logger.Base.{
  Text, ℕ, List, [], ◌∷◌, Bool, true, false, if◌then◌else◌, ◌==◌, nat_eq, Option, none, some, not,
  is_empty, length, keep, suc, zero,
}
use browser_visit_logger.Base.Strings.{split}
use browser_visit_logger.ReadingList.Strip.{strip}

abbrev quote : ℕ
quote = b'\''

-- `_STRING_LITERAL` behind its opening quote: how many characters it takes there, where it matches.
-- The flag is on behind a quote, which ends the literal where no second one follows. Two quotes are
-- one in the literal if it is closed later, and its end is the first of them if not.
unfoldable pub literal : Bool → Text → Option ℕ
literal true [] = some 0
literal false [] = none
literal false (c ∷ s) = one_more (literal (c == quote) s)
  where
    one_more : Option ℕ → Option ℕ
    one_more none = none
    one_more (some n) = some (suc n)
literal true (c ∷ s) = elim (c == quote) [ true ↦ doubled (literal false s) | false ↦ some 0 ]
  where
    doubled : Option ℕ → Option ℕ
    doubled none = some 0
    doubled (some n) = some (suc n)

-- `_STRING_LITERAL.sub` by spaces: `left` characters of a literal are still to come.
unfoldable pub masked : ℕ → Text → Text
masked left [] = []
masked (suc left) (c ∷ s) = b' ' ∷ masked left s
masked zero (c ∷ s) =
    if c == quote then start (literal false s) (λ n. masked n s) else c ∷ masked 0 s
  where
    start : Option ℕ → (ℕ → Text) → Text
    start none rest = quote ∷ rest 0
    start (some n) rest = b' ' ∷ rest n

abbrev pub is_blank : Text → Bool
is_blank s = is_empty (strip s)

-- `parts[:-1]` where the last part is blank
abbrev drop_last_blank : List Text → List Text
drop_last_blank [] = []
drop_last_blank (p ∷ []) = if is_blank p then [] else p ∷ []
drop_last_blank (p ∷ q ∷ parts) = p ∷ drop_last_blank (q ∷ parts)

-- `_statement_count`
unfoldable pub statement_count : Text → ℕ
statement_count sql =
    length (keep (λ p. not (is_blank p)) (drop_last_blank (split b';' (masked 0 sql))))

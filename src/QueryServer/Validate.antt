-- ===== src/QueryServer/Validate.antt =====
-- `_validate_readonly_sql`.
use browser_visit_logger.Base.{
  Text, ℕ, List, [], ◌∷◌, Bool, if◌then◌else◌, ◌==◌, nat_eq, text_eq, Option, none, some, not,
  contains, ◌++◌, leb, ltb, ◌&&◌, ◌||◌, ◌+◌, ◌-◌, is_empty,
}
use browser_visit_logger.Base.Strings.{codes}
use browser_visit_logger.ReadingList.Strip.{left_strip, is_space}
use browser_visit_logger.QueryServer.Comments.{strip_comments}
use browser_visit_logger.QueryServer.Statements.{statement_count, is_blank}

-- The messages of `ValueError`.
pub data Refusal : Type 0 where
  sql_is_empty : Refusal
  no_statements : Refusal
  multiple_statements : Refusal
  no_keyword : Refusal
  other_keyword : (keyword : Text) → Refusal
  no_target : Refusal
  unsafe_pragma : (pragma : Text) → Refusal

-- `_LEADING_KEYWORDS` and `_PRAGMA_SAFELIST`
abbrev pub leading_keywords : List Text
leading_keywords = codes "SELECT" ∷ codes "WITH" ∷ codes "EXPLAIN" ∷ codes "PRAGMA" ∷ []

abbrev pub pragma_safelist : List Text
pragma_safelist =
    codes "table_info"
    ∷ codes "index_list"
    ∷ codes "index_info"
    ∷ codes "foreign_key_list"
    ∷ codes "database_list"
    ∷ codes "table_xinfo"
    ∷ []

-- `[A-Za-z_]`
abbrev is_upper : ℕ → Bool
is_upper c = leb b'A' c && leb c b'Z'

abbrev is_lower : ℕ → Bool
is_lower c = leb b'a' c && leb c b'z'

abbrev is_word : ℕ → Bool
is_word c = is_upper c || is_lower c || c == b'_'

-- `[A-Za-z_]` with `re.IGNORECASE`, which lets in four other letters as well
abbrev more_letters : List ℕ
more_letters = 0x130 ∷ 0x131 ∷ 0x17f ∷ 0x212a ∷ []

abbrev is_word_any_case : ℕ → Bool
is_word_any_case c = is_word c || contains more_letters c

-- What a pattern's `+` takes, and what it leaves.
abbrev taken : (ℕ → Bool) → Text → Text
taken p [] = []
taken p (c ∷ s) = let rest = taken p s in if p c then c ∷ rest else []

abbrev left_over : (ℕ → Bool) → Text → Text
left_over p [] = []
left_over p (c ∷ s) = let rest = left_over p s in if p c then rest else c ∷ s

-- `str.upper` and `str.lower` of the characters that the patterns take
unfoldable pub upper : Text → Text
upper [] = []
upper (c ∷ s) = (if is_lower c then c - 32 else c) ∷ upper s

abbrev lower_code : ℕ → Text
lower_code c =
    if is_upper c
    then (c + 32) ∷ []
    else if c == 0x130
    then 0x69 ∷ 0x307 ∷ []
    else if c == 0x212a
    then b'k' ∷ []
    else c ∷ []

unfoldable pub lower : Text → Text
lower [] = []
lower (c ∷ s) = lower_code c ++ lower s

-- `_FIRST_TOKEN`
unfoldable pub first_token : Text → Text
first_token sql = taken is_word (left_strip sql)

-- The name behind `PRAGMA\s+`, given what follows the keyword; none where the space is missing.
unfoldable pub pragma_target : Text → Text
pragma_target [] = []
pragma_target (c ∷ s) = if is_space c then taken is_word_any_case (left_strip s) else []

unfoldable pub validate_pragma : Text → Option Refusal
unfolding text_eq
validate_pragma target =
    if is_empty target
    then some no_target
    else if contains pragma_safelist (lower target)
    then none
    else some (unsafe_pragma (lower target))

-- What follows the first token
abbrev pub after_token : Text → Text
after_token sql = left_over is_word (left_strip sql)

unfoldable pub validate_keyword : Text → Option Refusal
unfolding text_eq
validate_keyword stripped =
    let keyword = upper (first_token stripped) in
    if is_empty keyword
    then some no_keyword
    else if not (contains leading_keywords keyword)
    then some (other_keyword keyword)
    else if keyword == codes "PRAGMA"
    then validate_pragma (pragma_target (after_token stripped))
    else none

-- `_validate_readonly_sql`: the refusal, if any.
unfoldable pub validate_readonly_sql : Text → Option Refusal
validate_readonly_sql sql =
    let n = statement_count (strip_comments sql) in
    if is_blank sql
    then some sql_is_empty
    else if n == 0
    then some no_statements
    else if ltb 1 n
    then some multiple_statements
    else validate_keyword (strip_comments sql)

-- ===== src/QueryServer/Hidden.antt =====
-- What the order of the two steps of the validation lets through: comments are taken out before
-- string literals are masked.
use browser_visit_logger.Base.{
  Text, [], ◌∷◌, ◌++◌, true, false, nat_eq, text_eq, none, ◌≡◌, arith, refl,
}
use browser_visit_logger.Base.Strings.{codes, newline, split, after_prefix}
use browser_visit_logger.Base.Strings.Laws.{Lacks}
use browser_visit_logger.ReadingList.Strip.{left_strip, right_strip, strip}
use browser_visit_logger.QueryServer.Comments.{line_comments, block_comments, strip_comments}
use browser_visit_logger.QueryServer.Statements.{statement_count, masked, literal, is_blank}
use browser_visit_logger.QueryServer.Validate.{
  validate_readonly_sql, validate_keyword, first_token, upper,
}

commented : (rest : Text) → Lacks newline rest → line_comments true rest ≡ []
unfolding line_comments
commented [] h = refl
commented (c ∷ rest) h = ground (arith, commented rest)

abbrev opened_literal : Text
opened_literal = codes "SELECT '"

stripped :
    (rest : Text)
    → Lacks newline rest
    → strip_comments (codes "SELECT '--';" ++ rest) ≡ opened_literal
unfolding strip_comments line_comments block_comments after_prefix nat_eq
stripped rest h = rw (commented rest h)

nonblank : (rest : Text) → is_blank (codes "SELECT '--';" ++ rest) ≡ false
unfolding strip left_strip right_strip nat_eq
nonblank rest = ground arith

-- What is left is one statement, a SELECT.
opened_literal_count : statement_count opened_literal ≡ 1
unfolding statement_count masked literal split strip nat_eq
opened_literal_count = refl

opened_literal_keyword : validate_keyword opened_literal ≡ none
unfolding validate_keyword first_token upper left_strip nat_eq text_eq
opened_literal_keyword = refl

-- Whatever follows on the same line, a text is let through in which a literal that holds `--` stands
-- before a second statement.
pub hidden_statement_passes :
    (rest : Text) → Lacks newline rest → validate_readonly_sql (codes "SELECT '--';" ++ rest) ≡ none
unfolding validate_readonly_sql
hidden_statement_passes rest h =
    ground (arith, stripped rest h, nonblank rest, opened_literal_count, opened_literal_keyword)

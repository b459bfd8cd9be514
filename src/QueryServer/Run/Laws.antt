-- ===== src/QueryServer/Run/Laws.antt =====
-- What is run, and how much is returned.
use browser_visit_logger.QueryServer.Run.Timer.{rows_of, capped, reply_of_lem}
use Prim.Native.Nat.{min}
use browser_visit_logger.Base.{
  Text, ℕ, List, [], ◌∷◌, Bool, true, false, nat_eq, Option, none, some, length, take, arith, ◌≡◌,
  ◌≤◌, ◌<◌, contains, text_eq, suc, zero, ap, refl, ltb, ◌∙◌, sym, if◌then◌else◌,
}
use browser_visit_logger.Base.Strings.{codes}
use browser_visit_logger.QueryServer.Comments.{strip_comments}
use browser_visit_logger.QueryServer.Statements.{statement_count}
use browser_visit_logger.QueryServer.Validate.{
  validate_readonly_sql, validate_keyword, validate_pragma, leading_keywords, pragma_safelist,
  upper, lower, first_token, pragma_target, after_token, Refusal,
}
use browser_visit_logger.QueryServer.Run.{
  Reply, raised, answered, do_query, Statement, Answer, hard_max_rows, reply_of, answer_of,
  run_query, interrupted, default_timeout_s,
}
use Prim.Native.Nat.{min}
use mathlib.Core.Path.{subst}

-- What the rules of the validator ask of a text, without its comments: one statement, one of the four
-- keywords in front, and behind `PRAGMA` one of the names of the list.
pub record FollowsRules (sql : Text) : Type 0 where
  one_statement : statement_count (strip_comments sql) ≡ 1
  keyword : contains leading_keywords (upper (first_token (strip_comments sql))) ≡ true
  pragma :
      upper (first_token (strip_comments sql)) ≡ codes "PRAGMA"
      → contains pragma_safelist (lower (pragma_target (after_token (strip_comments sql)))) ≡ true

validate_keyword-keyword :
    (s : Text)
    → validate_keyword s ≡ none
    → contains leading_keywords (upper (first_token s)) ≡ true
unfolding validate_keyword
validate_keyword-keyword s h = ground arith

validate_pragma-safe :
    (t : Text) → validate_pragma t ≡ none → contains pragma_safelist (lower t) ≡ true
unfolding validate_pragma
validate_pragma-safe t h = ground arith

validate_keyword-pragma :
    (s : Text)
    → validate_keyword s ≡ none
    → upper (first_token s) ≡ codes "PRAGMA"
    → contains pragma_safelist (lower (pragma_target (after_token s))) ≡ true
unfolding validate_keyword
validate_keyword-pragma s h k = ground (arith, validate_pragma-safe (pragma_target (after_token s)))

validate_readonly_sql-parts :
    (sql : Text)
    → validate_readonly_sql sql ≡ none
    → (statement_count (strip_comments sql) ≡ 1) × (validate_keyword (strip_comments sql) ≡ none)
unfolding validate_readonly_sql
validate_readonly_sql-parts sql h = ground arith

validate_readonly_sql-FollowsRules :
    (sql : Text) → validate_readonly_sql sql ≡ none → FollowsRules sql
validate_readonly_sql-FollowsRules sql h =
    let parts = validate_readonly_sql-parts sql h in
    record {
      one_statement = parts.0;
      keyword = validate_keyword-keyword (strip_comments sql) parts.1;
      pragma = validate_keyword-pragma (strip_comments sql) parts.1;
    }

length-take {ℓ} : {A : Type ℓ} (n : ℕ) (xs : List A) → length (take n xs) ≤ n
length-take zero xs = ground arith
length-take (suc n) [] = ground arith
length-take (suc n) (x ∷ xs) = omega (arith, length-take n xs)

take_some {ℓ} :
    {A : Type ℓ} (n : ℕ) (xs : List A)
    → n < length (take (suc n) xs)
    → (length (take n xs) ≡ n) × (n < length xs)
take_some zero [] h = ground arith
take_some zero (x ∷ xs) h = ground arith
take_some (suc n) [] h = ground arith
take_some (suc n) (x ∷ xs) h = ground (arith, take_some n xs)

take_all {ℓ} :
    {A : Type ℓ} (n : ℕ) (xs : List A) → length (take (suc n) xs) ≤ n → take (suc n) xs ≡ xs
take_all zero [] h = refl
take_all zero (x ∷ xs) h = ground arith
take_all (suc n) [] h = refl
take_all (suc n) (x ∷ xs) h = ap (λ r. x ∷ r) (take_all n xs (ground arith))

-- An answer of at most `limit` rows: the first rows, all of them unless it says so.
pub record IsPage {Value : Type 0} (limit : ℕ) (all_rows : List (List Value)) (a : Answer Value)
    : Type 0 where
  first_rows : a.rows ≡ take a.row_count all_rows
  within : a.row_count ≤ limit
  complete : a.truncated ≡ false → a.rows ≡ all_rows
  more : a.truncated ≡ true → (a.row_count ≡ limit) × (a.row_count < length all_rows)

take_shorter {ℓ} : {A : Type ℓ} (n : ℕ) (xs : List A) → take n (take (suc n) xs) ≡ take n xs
take_shorter zero xs = refl
take_shorter (suc n) [] = refl
take_shorter (suc n) (x ∷ xs) = ap (λ r. x ∷ r) (take_shorter n xs)

take-length {ℓ} : {A : Type ℓ} (n : ℕ) (xs : List A) → take n xs ≡ take (length (take n xs)) xs
take-length zero xs = refl
take-length (suc n) [] = refl
take-length (suc n) (x ∷ xs) = ap (λ r. x ∷ r) (take-length n xs)

IsPage-first_rows :
    {Value : Type 0} (limit : ℕ) (columns : List Text) (all_rows : List (List Value)) (b : Bool)
    → ltb limit (length (take (suc limit) all_rows)) ≡ b
    → let rows = if b then take limit (take (suc limit) all_rows) else take (suc limit) all_rows in
      IsPage limit all_rows
        (record { columns = columns; rows = rows; row_count = length rows; truncated = b })
IsPage-first_rows limit columns all_rows true h =
    let some_rows = take_some limit all_rows (ground arith) in
    rw (take_shorter limit all_rows) (record {
      first_rows = take-length limit all_rows;
      within = length-take limit all_rows;
      complete = λ k. ground arith;
      more = λ k. ground arith;
    })
IsPage-first_rows limit columns all_rows false h = record {
  first_rows = take-length (suc limit) all_rows;
  within = ground arith;
  complete = λ k. take_all limit all_rows (ground arith);
  more = λ k. ground arith;
}

abbrev answer_in : {R : Type 0} → R → Reply R → R
answer_in a (raised f) = a
answer_in a (answered b) = b

module _ {Value : Type 0} where
  reply_of-IsPage :
      (limit : ℕ) (r : Reply (Statement Value)) (a : Answer Value)
      → reply_of limit r ≡ answered a
      → (st : Statement Value) × (r ≡ answered st) × IsPage limit (rows_of st) a
  reply_of-IsPage limit (raised f) a h = ground arith
  reply_of-IsPage limit (answered st) a h =
      one (ltb default_timeout_s st.first_after) (sym (reply_of_lem limit st) ∙ h)
    where
      one :
          (b : Bool)
          → (if b
              then raised interrupted
              else answered (answer_of limit st.columns (take (suc limit) (rows_of st))))
            ≡ answered a
          → (u : Statement Value) × (answered st ≡ answered u) × IsPage limit (rows_of u) a
      one true k = absurd (ground arith)
      one false k = (
        st,
        refl,
        subst (IsPage limit (rows_of st)) (ap (answer_in a) k) (
            IsPage-first_rows limit st.columns (rows_of st)
              (ltb limit (length (take (suc limit) (rows_of st)))) refl),
      )

module _ {Value : Type 0} (exists : Bool) (prepare : Text → Reply (Statement Value)) where
  run_query-IsPage :
      (sql : Text) (max_rows : ℕ) (verdict : Option Refusal) (a : Answer Value)
      → run_query exists prepare sql max_rows verdict ≡ answered a
      → (verdict ≡ none)
        × (st : Statement Value) × (prepare sql ≡ answered st)
        × IsPage (min max_rows hard_max_rows) (rows_of st) a
  run_query-IsPage sql max_rows (some refusal) a h = ground arith
  run_query-IsPage sql max_rows none a h =
      let asked : reply_of (min max_rows hard_max_rows) (prepare sql) ≡ answered a =
        ground (arith, capped max_rows) in
      let page = reply_of-IsPage (min max_rows hard_max_rows) (prepare sql) a asked in
      (refl, page.0, page.1, page.2)

  -- An answer is given only of a text that, with its comments taken out, counts as one statement,
  -- begins with one of the four keywords, and behind `PRAGMA` has a name of the list. The answer holds
  -- the first rows that SQLite gives, no more than are asked for and no more than 10000, and all of
  -- them unless it is marked as truncated, and then there are more.
  pub do_query_bounds :
      (sql : Text) (max_rows : ℕ) (a : Answer Value)
      → do_query exists prepare sql max_rows ≡ answered a
      → FollowsRules sql
        × (st : Statement Value) × (prepare sql ≡ answered st)
        × IsPage (min max_rows hard_max_rows) (rows_of st) a
  unfolding do_query
  do_query_bounds sql max_rows a h =
      let page = run_query-IsPage sql max_rows (validate_readonly_sql sql) a h in
      (validate_readonly_sql-FollowsRules sql page.0, page.1, page.2, page.3)

-- ===== src/QueryServer/Run.antt =====
-- `_do_query` and `_do_schema`.
pub mod Laws
pub mod Timer
use browser_visit_logger.Base.{
  Text, ℕ, List, [], ◌∷◌, Bool, true, false, if◌then◌else◌, ◌==◌, nat_eq, text_eq, Option, none,
  some, ltb, ◌+◌, length, take, map, keep, is_empty, not, suc, zero,
}
use browser_visit_logger.Base.Strings.{codes, join, newline}
use browser_visit_logger.QueryServer.Validate.{Refusal, validate_readonly_sql}

-- A statement that SQLite is asked to execute: its columns, the time until it has its first row or
-- finds that there is none, and its rows, each with the time until the one behind it.
pub record Statement (Value : Type 0) : Type 0 where
  pub columns : List Text
  pub first_after : ℕ
  pub timed_rows : List (List Value × ℕ)

-- What a call raises.
pub data Failure : Type 0 where
  invalid_sql : (refusal : Refusal) → Failure
  max_rows_below_1 : Failure
  database_not_found : Failure
  sqlite_error : (message : Text) → Failure

pub data Reply (R : Type 0) : Type 0 where
  raised : (failure : Failure) → Reply R
  answered : (answer : R) → Reply R

-- The dictionary that `_do_query` returns.
pub record Answer (Value : Type 0) : Type 0 where
  pub columns : List Text
  pub rows : List (List Value)
  pub row_count : ℕ
  pub truncated : Bool

abbrev pub hard_max_rows : ℕ
hard_max_rows = 10000

-- `DEFAULT_TIMEOUT_S`
abbrev pub default_timeout_s : ℕ
default_timeout_s = 30

abbrev pub continue : {A B : Type 0} → (A → Reply B) → Reply A → Reply B
continue f (raised failure) = raised failure
continue f (answered a) = f a

abbrev pub interrupted : Failure
interrupted = sqlite_error (codes "interrupted")

-- Work of the connection from a time on: a timer that is running interrupts it when it is due.
abbrev pub advance : Option ℕ → ℕ → ℕ → Reply ℕ
advance none now cost = answered (now + cost)
advance (some due) now cost =
    if ltb due (now + cost) then raised interrupted else answered (now + cost)

module _ {Value : Type 0} where
  -- `_run_with_timeout`: the timer runs while the statement is executed, which is until it has its
  -- first row.
  unfoldable pub run_with_timeout : ℕ → Statement Value → ℕ → Reply ℕ
  run_with_timeout now st timeout = advance (some (now + timeout)) now st.first_after

  -- `cur.fetchmany(n)`, with the timer and the time: a row is given, and the next one is looked for.
  unfoldable pub fetchmany : Option ℕ → ℕ → List (List Value × ℕ) → ℕ → Reply (List (List Value))
  fetchmany timer zero rows now = answered []
  fetchmany timer (suc n) [] now = answered []
  fetchmany timer (suc n) ((row, cost) ∷ rows) now =
      continue (λ later. continue (λ rest. answered (row ∷ rest)) (fetchmany timer n rows later))
        (advance timer now cost)

  abbrev pub answer_of : ℕ → List Text → List (List Value) → Answer Value
  answer_of max_rows columns rows =
      let truncated = ltb max_rows (length rows) in
      let shown = if truncated then take max_rows rows else rows in
      record { columns = columns; rows = shown; row_count = length shown; truncated = truncated }

  -- The body of the `try`; the timer is cancelled when the rows are fetched.
  abbrev pub reply_of : ℕ → Reply (Statement Value) → Reply (Answer Value)
  reply_of max_rows (raised failure) = raised failure
  reply_of max_rows (answered st) =
      continue
        (λ now.
          continue (λ rows. answered (answer_of max_rows st.columns rows))
            (fetchmany none (suc max_rows) st.timed_rows now))
        (run_with_timeout 0 st default_timeout_s)

-- SQLite, with the database that the server was started on: whether its file is there, and what a
-- statement is on a read-only connection, or the message of the exception for it.
module _ {Value : Type 0} (exists : Bool) (prepare : Text → Reply (Statement Value)) where
  abbrev pub run_query : Text → ℕ → Option Refusal → Reply (Answer Value)
  run_query sql max_rows (some refusal) = raised (invalid_sql refusal)
  run_query sql max_rows none =
      if ltb max_rows 1
      then raised max_rows_below_1
      else if not exists
      then raised database_not_found
      else reply_of (if ltb hard_max_rows max_rows then hard_max_rows else max_rows) (prepare sql)

  -- `_do_query`
  unfoldable pub do_query : Text → ℕ → Reply (Answer Value)
  do_query sql max_rows = run_query sql max_rows (validate_readonly_sql sql)

-- A row of `sqlite_master`.
pub record Master : Type 0 where
  pub type : Text
  pub name : Text
  pub sql : Option Text

pub record Schema : Type 0 where
  pub tables : List Text
  pub ddl : Text

abbrev pub ddl_of : List Master → List Text
ddl_of [] = []
ddl_of (m ∷ rows) = let rest = ddl_of rows in add m.sql rest
  where
    add : Option Text → List Text → List Text
    add none rest = rest
    add (some []) rest = rest
    add (some (c ∷ s)) rest = (c ∷ s) ∷ rest

abbrev pub schema_of : Reply (List Master) → Reply Schema
unfolding text_eq
schema_of (raised failure) = raised failure
schema_of (answered rows) = answered (record {
  tables = map (λ m. m.name) (keep (λ m. m.type == codes "table") rows);
  ddl = join (newline ∷ newline ∷ []) (ddl_of rows);
})

-- `_do_schema`; the argument is what its query gives.
unfoldable pub do_schema : Bool → Reply (List Master) → Reply Schema
do_schema exists rows = if not exists then raised database_not_found else schema_of rows

-- ===== src/DbDiff.antt =====
-- browser-visit-tools/db_diff.py: the comparison of two databases table by table, and its report. SQLite
-- leaves the order of the rows of a query open; here it is the order of the tables.
pub mod Agreement
pub mod Rows
pub mod Printed
use browser_visit_logger.Base.{
  Text, ℕ, Bool, List, [], ◌∷◌, true, false, some, nat_eq, text_eq, map, ltb, length, not, ◌==◌,
  Option, contains, ◌&&◌, if◌then◌else◌, is_empty, ◌||◌, keep, take, ◌++◌, none,
}
use browser_visit_logger.Base.Dict.{Dict, get, put}
use browser_visit_logger.Base.Table.{exists}
use mathlib.Core.List.{flat_map}
use browser_visit_logger.Base.Strings.{codes, split, join, newline, decimal}
use browser_visit_logger.ReadingList.Strip.{strip}

pub data Value : Type 0 where
  null : Value
  integer : ℕ → Value
  string : Text → Value

-- A table: its columns, those of them that the primary key has, and its rows, each with a value for
-- every column.
pub record Table : Type 0 where
  pub columns : List Text
  pub key_columns : List Text
  pub rows : List (List Value)

-- `IS`, by which EXCEPT compares
unfoldable pub is_same : Value → Value → Bool
unfolding nat_eq text_eq
is_same null null = true
is_same (integer m) (integer n) = m == n
is_same (string s) (string t) = s == t
is_same _ _ = false

-- `=` of the join, where NULL equals nothing
unfoldable pub joins : Value → Value → Bool
joins null v = false
joins (integer n) v = is_same (integer n) v
joins (string s) v = is_same (string s) v

-- `COALESCE(v, '')`
abbrev pub coalesce : Value → Value
coalesce null = string []
coalesce (integer n) = integer n
coalesce (string s) = string s

unfoldable pub all_pairs : (Value → Value → Bool) → List Value → List Value → Bool
all_pairs p [] [] = true
all_pairs p (v ∷ vs) (u ∷ us) = p v u && all_pairs p vs us
all_pairs p _ _ = false

-- The values of a row in the columns that are asked for.
unfoldable pub select : (Text → Bool) → List Text → List Value → List Value
select p (c ∷ columns) (v ∷ row) = let rest = select p columns row in if p c then v ∷ rest else rest
select p _ _ = []

abbrev pub has_row : List (List Value) → List Value → Bool
has_row rows row = exists (all_pairs is_same row) rows

-- `SELECT … EXCEPT SELECT …`: without repetitions
unfoldable pub except : List (List Value) → List (List Value) → List (List Value)
except [] other = []
except (row ∷ rows) other =
    let rest = except rows other in
    if has_row other row || has_row rows row then rest else row ∷ rest

-- The columns that a row is identified by: the primary key, or all of them.
unfoldable pub key_of : Table → List Text
key_of t = if is_empty t.key_columns then t.columns else t.key_columns

-- The keys of `_presence_diff` that only the first table has.
unfoldable pub only_keys : List Text → Table → Table → List (List Value)
only_keys key a b =
    except (map (select (contains key) a.columns) a.rows)
      (map (select (contains key) b.columns) b.rows)

abbrev pub is_compared : List Text → List Text → Text → Bool
is_compared key ignored c = not (contains key c) && not (contains ignored c)

abbrev pub agrees : Value → Value → Bool
agrees v u = is_same (coalesce v) (coalesce u)

-- The condition on a pair of rows of the join.
unfoldable pub rows_differ : List Text → List Text → List Text → List Value → List Value → Bool
rows_differ columns key ignored r s =
    all_pairs joins (select (contains key) columns r) (select (contains key) columns s)
    && not (
        all_pairs agrees (select (is_compared key ignored) columns r)
          (select (is_compared key ignored) columns s))

-- The pairs that `_value_diff` finds.
unfoldable pub value_pairs : List Text → List Text → Table → Table → List (List Value × List Value)
value_pairs key ignored a b =
    flat_map (λ r. map (λ s. (r, s)) (keep (rows_differ a.columns key ignored r) b.rows)) a.rows

-- `f"{prefix}{c}"` for each of the columns that are asked for
abbrev labels : Text → (Text → Bool) → List Text → List Text
labels prefix p columns = map (λ c. prefix ++ c) (keep p columns)

abbrev zipped : List Text → List Value → List (Text × Value)
zipped (name ∷ names) (v ∷ values) = (name, v) ∷ zipped names values
zipped _ _ = []

-- A pair of rows as a sample shows it.
unfoldable pub sample_row :
    List Text → List Text → List Text → List Value × List Value → List (Text × Value)
sample_row columns key ignored (r, s) =
    let is_key = contains key in
    let is_other = is_compared key ignored in
    zipped (labels (codes "pk_") is_key columns) (select is_key columns r)
    ++ (zipped (labels (codes "a_") is_other columns) (select is_other columns r)
        ++ zipped (labels (codes "b_") is_other columns) (select is_other columns s))

-- The samples are the first rows, as many as are asked for.
pub record Comparison : Type 0 where
  pub a_only_count : ℕ
  pub b_only_count : ℕ
  pub value_diff_count : ℕ
  pub a_only_sample : List (List Value)
  pub b_only_sample : List (List Value)
  pub value_diff_sample : List (List (Text × Value))
  pub ignored : List Text

pub data TableReport : Type 0 where
  missing : TableReport
  columns_differ : TableReport
  compared : Comparison → TableReport

-- `COUNTER_COLUMNS`, if they are ignored
abbrev pub ignored_columns : Bool → Text → List Text
ignored_columns false t = []
ignored_columns true t = if t == codes "visits" then codes "read" ∷ codes "skimmed" ∷ [] else []

abbrev pub same_columns : List Text → List Text → Bool
same_columns [] [] = true
same_columns (c ∷ cs) (d ∷ ds) = c == d && same_columns cs ds
same_columns _ _ = false

-- `_presence_diff` and `_value_diff` of one table
unfoldable pub compare_tables : ℕ → List Text → Table → Table → Comparison
compare_tables sample ignored a b =
    let key = key_of a in
    let pairs = value_pairs key ignored a b in
    record {
      a_only_count = length (only_keys key a b);
      b_only_count = length (only_keys key b a);
      value_diff_count = length pairs;
      a_only_sample = take sample (only_keys key a b);
      b_only_sample = take sample (only_keys key b a);
      value_diff_sample = map (sample_row a.columns key ignored) (take sample pairs);
      ignored = ignored;
    }

-- One turn of the loop of `diff`.
unfoldable pub diff_table : Bool → ℕ → Text → Option Table → Option Table → TableReport
diff_table ignore_counters sample t (some a) (some b) =
    if same_columns a.columns b.columns
    then compared (compare_tables sample (ignored_columns ignore_counters t) a b)
    else columns_differ
diff_table ignore_counters sample t _ _ = missing

abbrev pub is_difference : TableReport → Bool
is_difference missing = true
is_difference columns_differ = true
is_difference (compared c) =
    ltb 0 c.a_only_count || ltb 0 c.b_only_count || ltb 0 c.value_diff_count

pub record Report : Type 0 where
  pub tables : Dict TableReport
  pub any_difference : Bool

-- `diff`, with the report so far; a table that is asked for twice is reported once.
unfoldable pub diff : Bool → ℕ → Dict Table → Dict Table → List Text → Report → Report
diff ignore_counters sample a b [] report = report
diff ignore_counters sample a b (t ∷ ts) report =
    let found = diff_table ignore_counters sample t (get t a) (get t b) in
    diff ignore_counters sample a b ts (record {
      tables = put t found report.tables;
      any_difference = report.any_difference || is_difference found;
    })

abbrev pub no_report : Report
no_report = record { tables = []; any_difference = false }

-- `[t.strip() for t in tables.split(',') if t.strip()]`
unfoldable pub table_names : Text → List Text
table_names tables = keep (λ t. not (is_empty t)) (map strip (split b',' tables))

-- `main`: the exit code, and the report; `none` for a database file that is not found.
unfoldable pub main :
    Bool → ℕ → Text → Option (Dict Table) → Option (Dict Table) → ℕ × Option Report
main ignore_counters sample tables (some a) (some b) =
    let report = diff ignore_counters sample a b (table_names tables) no_report in
    (if report.any_difference then 1 else 0, some report)
main ignore_counters sample tables _ _ = (2, none)

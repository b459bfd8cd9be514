-- ===== src/Tests/Tools.antt =====
-- Runs of the tools that read the database, and of the table of enrolled machines.
use Prim.Native.Nat.{min}
use browser_visit_logger.Base.{
  Text, ℕ, List, [], ◌∷◌, true, false, nat_eq, text_eq, none, some, ◌≡◌, ◌↔◌, refl, Option, ◌<◌,
  arith,
}
use browser_visit_logger.Base.Strings.{codes, has_part, join, newline, replace, split, after_prefix}
use browser_visit_logger.Base.Strings.Laws.{Lacks}
use browser_visit_logger.Tests.{example_db}
use browser_visit_logger.DbDiff
use browser_visit_logger.DbDiff.{
  Table, string, integer, diff, diff_table, compare_tables, only_keys, value_pairs, except, select,
  key_of, rows_differ, all_pairs, joins, is_same, sample_row, table_names,
}
use browser_visit_logger.DbDiff.Agreement.{AllAgree, main-AllAgree}
use browser_visit_logger.DbDiff.Printed.{format_text, format_table}
use browser_visit_logger.Base.Dict.{Dict}
use browser_visit_logger.Base.Strings.{decimal}
use mathlib.Core.Option.{map}
use mathlib.Core.List.{flat_map}
use browser_visit_logger.Base.Table.{exists}
use browser_visit_logger.ReadingList.Query.{fetch_rows}
use browser_visit_logger.ReadingList.Query.Laws.{Shown, IsOpen, fetch_rows-Shown}
use browser_visit_logger.ReadingList.Run
use browser_visit_logger.ReadingList.Run.{
  markdown, render, makedirs, make_each, directories, output_path,
}
use browser_visit_logger.ReadingList.Run.Output.{Ran, main_lem}
use browser_visit_logger.Base.Dict.{get, put}
use browser_visit_logger.Files.{dir, is_dir, path_exists}
use browser_visit_logger.Paths.{basename}
use browser_visit_logger.ReadingList.Html.{format_link_html}
use browser_visit_logger.ReadingList.Html.Tags.{occurrences, format_link_html_tags}
use browser_visit_logger.ReadingList.Markdown.{escape_cell}
use browser_visit_logger.ReadingList.Markdown.Cells.{
  IsDelimiter, IsBreak, guarded, escape_cell-guarded,
}
use browser_visit_logger.ReadingList.Strip.{left_strip, strip}
use browser_visit_logger.QueryServer.Comments.{strip_comments, line_comments, block_comments}
use browser_visit_logger.QueryServer.Statements.{statement_count, masked, literal}
use browser_visit_logger.QueryServer.Validate.{
  validate_readonly_sql, validate_keyword, validate_pragma, first_token, upper, lower,
  pragma_target,
}
use browser_visit_logger.QueryServer.Run.Timer.{rows_of, do_query_interrupts}
use browser_visit_logger.QueryServer.Run.{
  Statement, run_with_timeout, fetchmany, raised, interrupted, default_timeout_s, Reply, answered,
  Answer, do_query, hard_max_rows,
}
use browser_visit_logger.QueryServer.Run.Laws.{FollowsRules, IsPage, do_query_bounds}
use browser_visit_logger.Enrolment.{Machine, Args, enroll_main, cert_fingerprint}
use browser_visit_logger.Enrolment.Laws.{allowed, changed, meant, code_meant, enroll_main-allowed}

abbrev visits_table : ℕ → Table
visits_table n = record {
  columns = codes "url" ∷ codes "read" ∷ [];
  key_columns = codes "url" ∷ [];
  rows = (string (codes "u") ∷ integer n ∷ []) ∷ [];
}

abbrev visits_db : ℕ → Dict Table
visits_db n = (codes "visits", visits_table n) ∷ []

-- The two databases differ in a counter.
format_text_test :
    map
      (format_text (λ row. codes "row") (λ pairs. codes "pairs") (codes "a.db") (codes "b.db"))
      (DbDiff.main false 5 (codes "visits") (some (visits_db 0)) (some (visits_db 3))).1
    ≡ some (
        codes
          "diff: a.db  vs  b.db\n  visits: 0 in A only, 0 in B only, 1 value differences\n      diff:   pairs\nany_difference: True")
unfolding format_text format_table DbDiff.main diff diff_table compare_tables only_keys value_pairs
    except select key_of rows_differ all_pairs joins is_same sample_row table_names split join strip
    decimal left_strip get put nat_eq text_eq flat_map exists
format_text_test = refl

main-AllAgree_example :
    ((DbDiff.main true 5 (codes "visits, ") (some (visits_db 0)) (some (visits_db 3))).0 ≡ 0)
    ↔ AllAgree true 5 (table_names (codes "visits, ")) (some (visits_db 0)) (some (visits_db 3))
main-AllAgree_example =
    main-AllAgree true 5 (codes "visits, ") (some (visits_db 0)) (some (visits_db 3))

fetch_rows-Shown_example :
    Shown example_db (λ v. IsOpen v × (0 < v.skimmed)) (fetch_rows example_db).0
    × Shown example_db (λ v. IsOpen v × (v.skimmed ≡ 0)) (fetch_rows example_db).1
fetch_rows-Shown_example = fetch_rows-Shown example_db

abbrev list_args : Run.Args
list_args = record { format = markdown; output = some (codes "/out/new/list.md") }

-- The directories that are missing are made.
makedirs_test :
    makedirs (codes "/out/new") ((codes "/out", dir) ∷ [])
    ≡ some ((codes "/out", dir) ∷ (codes "/out/new", dir) ∷ [])
unfolding makedirs make_each directories split join basename is_dir path_exists get put text_eq
    nat_eq
makedirs_test = refl

main_lem_example :
    Ran
      (codes "/out/new/list.md")
      (λ d. render (λ t. none) (codes "") markdown (fetch_rows d))
      (some example_db)
      []
      (Run.main (λ t. none) (codes "") (codes "/d") list_args (some example_db) [])
unfolding output_path
main_lem_example = main_lem (λ t. none) (codes "") (codes "/d") list_args (some example_db) []

abbrev a_script : Text
a_script = codes "</a><script src=\"x\">"

format_link_html_tags_example :
    (occurrences b'<' (format_link_html a_script (codes "u")) ≡ 2)
    × (occurrences b'>' (format_link_html a_script (codes "u")) ≡ 2)
    × (occurrences b'"' (format_link_html a_script (codes "u")) ≡ 2)
format_link_html_tags_example = format_link_html_tags a_script (codes "u")

escape_cell-guarded_example :
    ((m : ℕ) → IsDelimiter m → guarded m 0 (escape_cell (codes "a|b")) ≡ true)
    × ((c : ℕ) → IsBreak c → Lacks c (escape_cell (codes "a|b")))
escape_cell-guarded_example = escape_cell-guarded (codes "a|b")

escape_cell_test : escape_cell (codes " a|b]\n") ≡ codes "a\\|b\\]"
unfolding escape_cell strip replace nat_eq
escape_cell_test = refl

-- A backslash of the title stands before the one that is added.
backslash_test : escape_cell (codes "a\\]") ≡ codes "a\\\\]"
unfolding escape_cell strip replace nat_eq
backslash_test = refl

-- Two rows; the second one is there an hour after the first.
abbrev two_rows : Statement ℕ
two_rows = record {
  columns = codes "n" ∷ [];
  first_after = 1;
  timed_rows = ((1 ∷ []), 3600) ∷ ((2 ∷ []), 0) ∷ [];
}

abbrev one_row : Text → Reply (Statement ℕ)
one_row sql = answered two_rows

abbrev example_answer : Answer ℕ
example_answer = record {
  columns = codes "n" ∷ [];
  rows = (1 ∷ []) ∷ [];
  row_count = 1;
  truncated = true;
}

query_test : do_query true one_row (codes "PRAGMA table_info(visits);") 1 ≡ answered example_answer
unfolding do_query validate_readonly_sql strip_comments line_comments block_comments has_part
    statement_count masked literal split strip validate_keyword validate_pragma first_token upper
    lower pragma_target left_strip after_prefix nat_eq text_eq run_with_timeout fetchmany
query_test = refl

a_pragma-valid : validate_readonly_sql (codes "PRAGMA table_info(visits);") ≡ none
unfolding validate_readonly_sql strip_comments line_comments block_comments has_part statement_count
    masked literal split strip validate_keyword validate_pragma first_token upper lower
    pragma_target left_strip after_prefix nat_eq text_eq
a_pragma-valid = refl

do_query_interrupts_example :
    (do_query true one_row (codes "PRAGMA table_info(visits);") 1 ≡ raised interrupted)
    ↔ (default_timeout_s < 1)
do_query_interrupts_example =
    do_query_interrupts true one_row (codes "PRAGMA table_info(visits);") 1 two_rows refl
      (omega arith) a_pragma-valid refl

do_query_bounds_example :
    FollowsRules (codes "PRAGMA table_info(visits);")
    × (st : Statement ℕ) × (one_row (codes "PRAGMA table_info(visits);") ≡ answered st)
    × IsPage (min 1 hard_max_rows) (rows_of st) example_answer
do_query_bounds_example =
    do_query_bounds true one_row (codes "PRAGMA table_info(visits);") 1 example_answer query_test

no_newline : Lacks newline (codes " DROP TABLE visits")
unfolding nat_eq
no_newline = refl

abbrev some_bytes : Text → Option Text
some_bytes path = some (codes "der")

abbrev no_pem : Text → Option Text
no_pem bytes = none

abbrev same_text : Text → Text
same_text t = t

abbrev revoke_args : Args
revoke_args = record { machine_id = codes "m"; cert = []; revoke = true; list = false }

abbrev two_machines : List Machine
two_machines =
    record { machine_id = codes "m"; cert_sha256 = codes "1"; enrolled_at = codes "t" }
    ∷ record { machine_id = codes "n"; cert_sha256 = codes "2"; enrolled_at = codes "t" }
    ∷ []

enroll_main-allowed_example :
    (allowed
        (enroll_main some_bytes true no_pem same_text
          (codes "now")
          revoke_args
          two_machines).machines
        (codes "n")
      ≡ changed
          (meant revoke_args (cert_fingerprint some_bytes true no_pem same_text (codes "now") []))
          (allowed two_machines)
          (codes "n"))
    × ((enroll_main some_bytes true no_pem same_text (codes "now") revoke_args two_machines).code
        ≡ code_meant revoke_args
            (cert_fingerprint some_bytes true no_pem same_text (codes "now") []))
enroll_main-allowed_example =
    enroll_main-allowed some_bytes true no_pem same_text (codes "now") revoke_args two_machines
      (codes "n")

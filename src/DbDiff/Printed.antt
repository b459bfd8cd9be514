-- ===== src/DbDiff/Printed.antt =====
-- `_format_text`.
use browser_visit_logger.Base.{Text, Bool, List, [], ◌∷◌, true, false, nat_eq, map, ◌++◌}
use browser_visit_logger.Base.Strings.{codes, join, newline, decimal}
use browser_visit_logger.DbDiff.{Value, TableReport, missing, columns_differ, compared, Report}
use mathlib.Core.List.{flat_map}

-- What `str` and `repr` make of the values of a sample.
module _ (show_row : List Value → Text) (show_dict : List (Text × Value) → Text) where
  abbrev ignoring : List Text → Text
  ignoring [] = []
  ignoring (c ∷ cs) = codes " (ignoring " ++ (join (codes ",") (c ∷ cs) ++ codes ")")

  -- The lines of a table.
  unfoldable pub format_table : Text × TableReport → List Text
  format_table (t, missing) =
      (codes "  " ++ (t ++ codes ": ERROR — missing in one or both DBs")) ∷ []
  format_table (t, columns_differ) =
      (codes "  " ++ (t ++ codes ": ERROR — column lists differ")) ∷ []
  format_table (t, compared c) =
      (codes "  "
        ++ (t
            ++ (codes ": "
                ++ (decimal c.a_only_count
                    ++ (codes " in A only, "
                        ++ (decimal c.b_only_count
                            ++ (codes " in B only, "
                                ++ (decimal c.value_diff_count
                                    ++ (codes " value differences" ++ ignoring c.ignored)))))))))
      ∷ (map (λ r. codes "      A-only: " ++ show_row r) c.a_only_sample
          ++ (map (λ r. codes "      B-only: " ++ show_row r) c.b_only_sample
              ++ map (λ r. codes "      diff:   " ++ show_dict r) c.value_diff_sample))

  abbrev python_bool : Bool → Text
  python_bool true = codes "True"
  python_bool false = codes "False"

  -- `_format_text`
  unfoldable pub format_text : Text → Text → Report → Text
  format_text db_a db_b report = join (newline ∷ []) (
      (codes "diff: " ++ (db_a ++ (codes "  vs  " ++ db_b)))
      ∷ (flat_map format_table report.tables
          ++ (codes "any_difference: " ++ python_bool report.any_difference) ∷ []))

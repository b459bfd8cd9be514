-- ===== src/DbDiff/Agreement.antt =====
-- When the comparison of two tables finds no difference.
use browser_visit_logger.DbDiff.{
  Table, diff_table, only_keys, select, value_pairs, compare_tables, diff, main, no_report, Report,
  table_names, rows_differ, key_of, is_difference, ignored_columns,
}
use browser_visit_logger.Base.{
  Text, Bool, List, [], ◌∷◌, true, false, some, nat_eq, text_eq, ◌≡◌, length, All, Bool-cases,
  arith, refl, inl, inr, sym, keep, length-append, map, contains, ◌↔◌,
}
use browser_visit_logger.DbDiff.{is_same, all_pairs, Value, except, has_row}
use browser_visit_logger.Base.{ℕ, Option, none}
use browser_visit_logger.DbDiff.Rows.{
  same_row_lem, Included, Included-lem, RowsAgree, rows_agree, same_columns-lem,
}
use browser_visit_logger.Base.Dict.{Dict, get}
use browser_visit_logger.Base.Table.{exists}
use mathlib.Core.Path.{subst}
use mathlib.Core.List.{flat_map}

-- Every row of the first list is found in the second.
abbrev pub Within : List (List Value) → List (List Value) → Type 0
Within rows other = All (λ r. has_row other r ≡ true) rows

Within-has :
    (rows other : List (List Value)) (row : List Value)
    → Within rows other
    → has_row rows row ≡ true
    → has_row other row ≡ true
unfolding exists
Within-has [] other row w h = cc
Within-has (r ∷ rows) other row (here, w) h = elim (Bool-cases (all_pairs is_same row r)) [
  | inl same ↦ subst (λ x. has_row other x ≡ true) (sym (same_row_lem row r same)) here
  | inr differ ↦ Within-has rows other row w (ground arith)
]

-- EXCEPT leaves nothing exactly where every row is in the other list.
except-Within :
    (rows other : List (List Value)) → length (except rows other) ≡ 0 → Within rows other
unfolding except
except-Within [] other h = tt
except-Within (row ∷ rows) other h = elim (Bool-cases (has_row other row)) [
  | inl there ↦ (there, except-Within rows other (ground arith))
  | inr gone ↦
      let again : has_row rows row ≡ true = ground arith in
      let w : Within rows other = except-Within rows other (ground arith) in
      absurd (ground (arith, Within-has rows other row w again))
]

Within-except :
    (rows other : List (List Value)) → Within rows other → length (except rows other) ≡ 0
unfolding except
Within-except [] other w = refl
Within-except (row ∷ rows) other (here, w) = ground (arith, Within-except rows other w)

module _ (p : List Value → List Value → Bool) (ys : List (List Value)) where
  -- No pair meets the condition.
  abbrev pub NoPair : List (List Value) → Type 0
  NoPair xs = All (λ r. All (λ s. p r s ≡ false) ys) xs

none_kept :
    (q : List Value → Bool) (ys : List (List Value))
    → length (keep q ys) ≡ 0
    → All (λ s. q s ≡ false) ys
none_kept q [] h = tt
none_kept q (y ∷ ys) h = elim (Bool-cases (q y)) [
  | inl hit ↦ absurd (ground arith)
  | inr miss ↦ (miss, none_kept q ys (ground arith))
]

kept_none :
    (q : List Value → Bool) (ys : List (List Value))
    → All (λ s. q s ≡ false) ys
    → length (keep q ys) ≡ 0
kept_none q [] h = refl
kept_none q (y ∷ ys) (miss, h) = ground (arith, kept_none q ys h)

length-map : {A B : Type 0} (f : A → B) (xs : List A) → length (map f xs) ≡ length xs
length-map f [] = refl
length-map f (x ∷ xs) = ground (arith, length-map f xs)

-- The pairs of the join that meet the condition.
abbrev paired :
    (List Value → List Value → Bool)
    → List (List Value)
    → List Value
    → List (List Value × List Value)
paired p ys r = map (λ s. (r, s)) (keep (p r) ys)

module _ (p : List Value → List Value → Bool) (ys : List (List Value)) where
  pairs_none : (xs : List (List Value)) → length (flat_map (paired p ys) xs) ≡ 0 → NoPair p ys xs
  unfolding flat_map
  pairs_none [] h = tt
  pairs_none (x ∷ xs) h =
      let both = length-append (paired p ys x) (flat_map (paired p ys) xs) in
      let one = length-map {B = List Value × List Value} (λ s. (x, s)) (keep (p x) ys) in
      (none_kept (p x) ys (omega (arith, both, one)), pairs_none xs (omega (arith, both)))

  none_pairs : (xs : List (List Value)) → NoPair p ys xs → length (flat_map (paired p ys) xs) ≡ 0
  unfolding flat_map
  none_pairs [] h = refl
  none_pairs (x ∷ xs) (here, h) = omega (
    arith,
    length-append (paired p ys x) (flat_map (paired p ys) xs),
    length-map {B = List Value × List Value} (λ s. (x, s)) (keep (p x) ys),
    kept_none (p x) ys here,
    none_pairs xs h,
  )

-- The keys of a table, by the key columns of the first table.
abbrev pub keys_of : Table → Table → List (List Value)
keys_of a t = map (select (contains (key_of a)) t.columns) t.rows

-- Two tables agree: the same columns, the same keys, and rows with the same key have the same values
-- in the other columns that are compared.
pub record Agree (ignored : List Text) (a b : Table) : Type 0 where
  pub columns : a.columns ≡ b.columns
  pub in_second : Included (keys_of a a) (keys_of a b)
  pub in_first : Included (keys_of a b) (keys_of a a)
  pub values : All (λ r. All (RowsAgree a.columns (key_of a) ignored r) b.rows) a.rows

module _ (ignore_counters : Bool) (sample : ℕ) where
  diff_table-Agree :
      (t : Text) (a b : Table)
      → (is_difference (diff_table ignore_counters sample t (some a) (some b)) ≡ false)
        ↔ Agree (ignored_columns ignore_counters t) a b
  unfolding diff_table compare_tables only_keys value_pairs
  diff_table-Agree t a b = (forth, back)
    where
      ignored : List Text
      ignored = ignored_columns ignore_counters t

      differs : List Value → List Value → Bool
      differs = rows_differ a.columns (key_of a) ignored

      forth :
          is_difference (diff_table ignore_counters sample t (some a) (some b)) ≡ false
          → Agree ignored a b
      forth h = record {
        columns = (same_columns-lem a.columns b.columns).0 (ground arith);
        in_second =
            (Included-lem (keys_of a a) (keys_of a b)).0
              (except-Within (keys_of a a) (keys_of a b) (ground arith));
        in_first =
            (Included-lem (keys_of a b) (keys_of a a)).0
              (except-Within (keys_of a b) (keys_of a a) (ground arith));
        values =
            (rows_agree a.columns (key_of a) ignored a.rows b.rows).0
              (pairs_none differs b.rows a.rows (ground arith));
      }

      back :
          Agree ignored a b
          → is_difference (diff_table ignore_counters sample t (some a) (some b)) ≡ false
      back g = ground (
        arith,
        (same_columns-lem a.columns b.columns).1 g.columns,
        Within-except (keys_of a a) (keys_of a b)
            ((Included-lem (keys_of a a) (keys_of a b)).1 g.in_second),
        Within-except (keys_of a b) (keys_of a a)
            ((Included-lem (keys_of a b) (keys_of a a)).1 g.in_first),
        none_pairs differs b.rows a.rows
            ((rows_agree a.columns (key_of a) ignored a.rows b.rows).1 g.values),
      )

  -- Both databases have the table, and the two agree.
  abbrev pub AgreeIn : Text → Option Table → Option Table → Type 0
  AgreeIn t (some a) (some b) = Agree (ignored_columns ignore_counters t) a b
  AgreeIn t none b = ⊥
  AgreeIn t (some a) none = ⊥

  turn-AgreeIn :
      (t : Text) (a b : Option Table)
      → (is_difference (diff_table ignore_counters sample t a b) ≡ false) ↔ AgreeIn t a b
  unfolding diff_table
  turn-AgreeIn t (some a) (some b) = diff_table-Agree t a b
  turn-AgreeIn t none b = ((λ h. absurd (ground arith)), λ h. absurd h)
  turn-AgreeIn t (some a) none = ((λ h. absurd (ground arith)), λ h. absurd h)

  -- Both files are there, and every table that is asked for agrees.
  abbrev pub AllAgree : List Text → Option (Dict Table) → Option (Dict Table) → Type 0
  AllAgree names (some a) (some b) = All (λ t. AgreeIn t (get t a) (get t b)) names
  AllAgree names none b = ⊥
  AllAgree names (some a) none = ⊥

  diff-AllAgree :
      (a b : Dict Table) (names : List Text) (report : Report)
      → ((diff ignore_counters sample a b names report).any_difference ≡ false)
        ↔ ((report.any_difference ≡ false) × AllAgree names (some a) (some b))
  unfolding diff
  diff-AllAgree a b [] report = ((λ h. (h, tt)), λ h. h.0)
  diff-AllAgree a b (t ∷ names) report =
      let turn = turn-AgreeIn t (get t a) (get t b) in
      let rest = diff-AllAgree a b names _ in
      (
        (λ h. let (clean, others) = rest.0 h in (ground arith, (turn.0 (ground arith), others))),
        λ (clean, (here, others)). rest.1 ((ground (arith, clean, turn.1 here)), others),
      )

  -- The exit code is 0 exactly where both database files are there, and each table that is asked for
  -- is in both databases with the same columns and the same keys, and rows with the same key, none of
  -- its values NULL, have equal values in every column outside the key that is not ignored, where NULL
  -- and the empty text count as one value. The key is the primary key of the first table, or all its
  -- columns.
  pub main-AllAgree :
      (tables : Text) (a b : Option (Dict Table))
      → ((main ignore_counters sample tables a b).0 ≡ 0) ↔ AllAgree (table_names tables) a b
  unfolding main
  main-AllAgree tables none b = ((λ h. absurd (omega arith)), λ h. absurd h)
  main-AllAgree tables (some a) none = ((λ h. absurd (omega arith)), λ h. absurd h)
  main-AllAgree tables (some a) (some b) =
      let whole = diff-AllAgree a b (table_names tables) no_report in
      ((λ h. (whole.0 (ground arith)).1), λ h. ground (arith, whole.1 (refl, h)))

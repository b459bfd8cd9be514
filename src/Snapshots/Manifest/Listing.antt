-- ===== src/Snapshots/Manifest/Listing.antt =====
-- Which rows `_build_manifest_rows` gives, by the files and the events at its start.
use browser_visit_logger.Base.{
  Text, Bool, true, false, ◌&&◌, ◌==◌, Option, none, some, List, [], ◌∷◌, ◌≡◌, ◌⊎◌, inl, inr, refl,
  sym, ap, ◌∙◌, arith, text_eq, nat_eq, contains, if◌then◌else◌,
}
use mathlib.Core.Bool.{false≢true}
use mathlib.Core.List.{filter_map}
use mathlib.Core.Option.{Option-elim}
use mathlib.Core.Path.{subst}
use browser_visit_logger.Base.Distinct.{contains-keep}
use browser_visit_logger.Base.Sorting.{contains-sorted}
use browser_visit_logger.Base.Strings.{codes, split, join, tab, newline, text_le}
use browser_visit_logger.Base.Strings.Laws.{Lacks}
use browser_visit_logger.Database.{Db, read, skimmed}
use browser_visit_logger.Files.{Files, is_file, list_dir}
use browser_visit_logger.Names.{is_snapshot_name, log_filename_for, consume, some_then_end}
use browser_visit_logger.Paths.{path_join, basename, normpath}
use browser_visit_logger.Snapshots.Errors.{tsv_sanitise}
use browser_visit_logger.Snapshots.Manifest.{
  Info, lookup_in, manifest_row, manifest_filename, is_candidate, expected_log, snapshot_files,
}
use browser_visit_logger.Snapshots.Manifest.Format.{manifest_line_reads_back}

-- The row is one of the rows.
abbrev pub HasRow : List Text → List (List Text) → Type 0
HasRow r [] = ⊥
HasRow r (x ∷ rows) = (x ≡ r) ⊎ HasRow r rows

-- A regular file of the directory whose name has the format of a snapshot's.
unfoldable pub is_snapshot : Text → Files → Text → Bool
is_snapshot date_subdir fs f =
    contains (list_dir date_subdir fs) f
    && (is_snapshot_name f && is_file (path_join date_subdir f) fs)

abbrev pub or_other : Option Info → Option Info → Option Info
or_other none other = other
or_other (some info) other = some info

-- The event of a file: of `read_events`, or else of `skimmed_events`.
unfoldable pub event_of : Bool → Text → Db → Text → Option Info
event_of by_name date_subdir db f =
    or_other (lookup_in by_name f date_subdir read db) (lookup_in by_name f date_subdir skimmed db)

-- The fields of a file's row.
abbrev pub fields : Text → Info → List Text
fields f info =
    tsv_sanitise f
    ∷ info.tag
    ∷ tsv_sanitise info.timestamp
    ∷ tsv_sanitise info.url
    ∷ tsv_sanitise info.title
    ∷ []

-- The rows of a directory's manifest: every snapshot whose event is found has its row, every row is
-- that of such a snapshot, and a row's line has no newline and gives the fields back at its tabs.
pub record Lists (by_name : Bool) (date_subdir : Text) (fs : Files) (db : Db)
    (rows : List (List Text)) : Type 0 where
  pub each :
      (f : Text) (info : Info)
      → is_snapshot date_subdir fs f ≡ true
      → event_of by_name date_subdir db f ≡ some info
      → HasRow (fields f info) rows
  pub only :
      (r : List Text)
      → HasRow r rows
      → (f : Text) × (info : Info) × (is_snapshot date_subdir fs f ≡ true)
        × (event_of by_name date_subdir db f ≡ some info)
        × (r ≡ fields f info)
  pub one_line :
      (r : List Text)
      → HasRow r rows
      → (split tab (join (tab ∷ []) r) ≡ r) × Lacks newline (join (tab ∷ []) r)

abbrev pub row_if : Text → Option Info → Option (List Text)
row_if f none = none
row_if f (some info) = some (manifest_row f info)

-- The row of a file that `_build_manifest_rows` looks at, if it gets one.
abbrev pub expected_row : Bool → Text → Db → Text → Option (List Text)
expected_row by_name date_subdir db f =
    if is_snapshot_name f then row_if f (event_of by_name date_subdir db f) else none

module _ (g : Text → Option (List Text)) where
  HasRow-filter_map :
      (files : List Text) (f : Text) (r : List Text)
      → contains files f ≡ true
      → g f ≡ some r
      → HasRow r (filter_map g files)
  unfolding filter_map Option-elim
  HasRow-filter_map [] f r h e = absurd (false≢true h)
  HasRow-filter_map (x ∷ files) f r h e = elim (text_eq.dec f x) [
    | yes same ↦ here (g x) (sym (ap g same) ∙ e)
    | no other ↦ there (g x) (HasRow-filter_map files f r (ground arith) e)
  ]
    where
      here :
          (o : Option (List Text))
          → o ≡ some r
          → HasRow r (Option-elim o (filter_map g files) (λ b. b ∷ filter_map g files))
      here none e = absurd (cc)
      here (some b) e = inl (cc)

      there :
          (o : Option (List Text))
          → HasRow r (filter_map g files)
          → HasRow r (Option-elim o (filter_map g files) (λ b. b ∷ filter_map g files))
      there none h = h
      there (some b) h = inr h

  filter_map-HasRow :
      (files : List Text) (r : List Text)
      → HasRow r (filter_map g files)
      → (f : Text) × (contains files f ≡ true) × (g f ≡ some r)
  unfolding filter_map Option-elim
  filter_map-HasRow [] r h = absurd h
  filter_map-HasRow (x ∷ files) r h = one (filter_map-HasRow files r) (g x) refl h
    where
      late :
          (f : Text) × (contains files f ≡ true) × (g f ≡ some r)
          → (f : Text) × (contains (x ∷ files) f ≡ true) × (g f ≡ some r)
      late (f, c, e) = (f, ground arith, e)

      one :
          (HasRow r (filter_map g files) → (f : Text) × (contains files f ≡ true) × (g f ≡ some r))
          → (o : Option (List Text)) → g x ≡ o
          → HasRow r (Option-elim o (filter_map g files) (λ b. b ∷ filter_map g files))
          → (f : Text) × (contains (x ∷ files) f ≡ true) × (g f ≡ some r)
      one rest none e h = late (rest h)
      one rest (some b) e (inl same) = (x, ground arith, e ∙ ap some same)
      one rest (some b) e (inr h) = late (rest h)

-- Neither a manifest nor a log has the name of a snapshot.
other_names :
    (is_snapshot_name manifest_filename ≡ false) × (is_snapshot_name (codes ".DS_Store") ≡ false)
unfolding is_snapshot_name consume some_then_end
other_names = (refl, refl)

log_no_snapshot : (date : Text) → is_snapshot_name (log_filename_for date) ≡ false
unfolding is_snapshot_name consume some_then_end
log_no_snapshot date = refl

differs :
    (f other : Text)
    → is_snapshot_name f ≡ true
    → is_snapshot_name other ≡ false
    → (f == other) ≡ false
differs f other h g = elim (text_eq.dec f other) [
  | yes same ↦ absurd (false≢true (sym g ∙ ap is_snapshot_name (sym same) ∙ h))
  | no apart ↦ ground arith
]

is_candidate-snapshot :
    (fs : Files) (date_subdir f : Text)
    → is_snapshot_name f ≡ true
    → is_candidate fs date_subdir (expected_log date_subdir) f
      ≡ is_file (path_join date_subdir f) fs
unfolding is_candidate expected_log
is_candidate-snapshot fs date_subdir f h = ground (
  arith,
  differs f manifest_filename h other_names.0,
  differs f (codes ".DS_Store") h other_names.1,
  differs f (log_filename_for (basename (normpath date_subdir))) h (log_no_snapshot _),
)

module _ (by_name : Bool) (date_subdir : Text) (fs : Files) (db : Db) where
  snapshot_files-contains :
      (f : Text)
      → is_snapshot_name f ≡ true
      → contains (snapshot_files date_subdir fs) f ≡ is_snapshot date_subdir fs f
  unfolding snapshot_files is_snapshot
  snapshot_files-contains f h =
      contains-sorted text_le f _
      ∙ contains-keep _ (list_dir date_subdir fs) f
      ∙ ap (λ b. contains (list_dir date_subdir fs) f && b)
          (is_candidate-snapshot fs date_subdir f h
            ∙ sym (ap (λ b. b && is_file (path_join date_subdir f) fs) h))

  reads_back :
      (f : Text) (info : Info)
      → event_of by_name date_subdir db f ≡ some info
      → (split tab (join (tab ∷ []) (fields f info)) ≡ fields f info)
        × Lacks newline (join (tab ∷ []) (fields f info))
  unfolding event_of
  reads_back f info h = one (lookup_in by_name f date_subdir read db) refl h
    where
      one :
          (o : Option Info)
          → lookup_in by_name f date_subdir read db ≡ o
          → or_other o (lookup_in by_name f date_subdir skimmed db) ≡ some info
          → (split tab (join (tab ∷ []) (fields f info)) ≡ fields f info)
            × Lacks newline (join (tab ∷ []) (fields f info))
      one none e k = manifest_line_reads_back by_name f date_subdir skimmed db info k
      one (some found) e k = manifest_line_reads_back by_name f date_subdir read db info (e ∙ k)

  -- A row is that of a snapshot whose event is found.
  abbrev Comes : List Text → Type 0
  Comes r =
      (f : Text) × (info : Info) × (is_snapshot date_subdir fs f ≡ true)
      × (event_of by_name date_subdir db f ≡ some info)
      × (r ≡ fields f info)

  comes :
      (r : List Text) (f : Text)
      → contains (snapshot_files date_subdir fs) f ≡ true
      → expected_row by_name date_subdir db f ≡ some r
      → Comes r
  comes r f c e = one (is_snapshot_name f) (event_of by_name date_subdir db f) refl refl e
    where
      one :
          (b : Bool) (o : Option Info)
          → is_snapshot_name f ≡ b
          → event_of by_name date_subdir db f ≡ o
          → (if b then row_if f o else none) ≡ some r
          → Comes r
      one true (some info) h found e = (f, info, sym (snapshot_files-contains f h) ∙ c, found, cc)
      one true none h found e = absurd (cc)
      one false o h found e = absurd (cc)

  pub expected-Lists :
      Lists by_name date_subdir fs db
        (filter_map (expected_row by_name date_subdir db) (snapshot_files date_subdir fs))
  unfolding is_snapshot
  expected-Lists = record {
    each = λ f info s e.
        let h : is_snapshot_name f ≡ true = ground arith in
        HasRow-filter_map (expected_row by_name date_subdir db) (snapshot_files date_subdir fs) f
          (fields f info) (snapshot_files-contains f h ∙ s) (ground (arith, h, e));
    only = λ r h. source r h;
    one_line = λ r h.
        let (f, info, s, e, same) = source r h in
        subst (λ x. (split tab (join (tab ∷ []) x) ≡ x) × Lacks newline (join (tab ∷ []) x))
          (sym same) (reads_back f info e);
  }
    where
      source :
          (r : List Text)
          → HasRow r
              (filter_map (expected_row by_name date_subdir db) (snapshot_files date_subdir fs))
          → Comes r
      source r h =
          let (f, c, e) =
            filter_map-HasRow (expected_row by_name date_subdir db) (snapshot_files date_subdir fs)
              r h in
          comes r f c e

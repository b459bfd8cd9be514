-- ===== src/Snapshots/Manifest/Built.antt =====
-- `_build_manifest_rows` gives the rows of the files and the events at its start.
use browser_visit_logger.Base.{
  Text, Bool, true, false, Option, none, some, List, [], ◌∷◌, ◌++◌, ◌≡◌, sym, ap, ◌∙◌, arith,
  append-nil, append_assoc, ℕ, if◌then◌else◌,
}
use mathlib.Core.List.{filter_map}
use mathlib.Core.Option.{Option-elim}
use mathlib.Core.Path.{subst}
use browser_visit_logger.Base.Strings.{codes}
use browser_visit_logger.Database.{Db, Visit, Events, read, skimmed}
use browser_visit_logger.Files.{Files}
use browser_visit_logger.Names.{is_snapshot_name}
use browser_visit_logger.Paths.{path_join}
use browser_visit_logger.Snapshots.Effects.{
  Env, World, Io, Result, ok, err, Exn, value_error, SqlError, sql_read, sql_write, os_read, commit,
  pure, ◌>>=◌, ◌>>◌, os_outcome, sql_outcome,
}
use browser_visit_logger.Snapshots.Effects.Rules.{
  Keeps, Keeps-handle_sql, Ensures, Ensures-bind, Returned,
}
use browser_visit_logger.Snapshots.Errors.{
  record_error, try_record_error, reconcile_dir_scoped_errors,
}
use browser_visit_logger.Snapshots.Manifest.{
  Info, SortedFiles, no_files, lookup_in, lookup_event, manifest_row, snapshot_files, sort_files,
  build_manifest_rows,
}
use browser_visit_logger.Snapshots.Manifest.Listing.{
  Lists, expected_row, expected-Lists, event_of, or_other, row_if,
}

-- The tables that events are looked up in.
abbrev pub looked_up : Db → List Visit × Events × Events
looked_up db = (db.visits, db.read_events, db.skimmed_events)

lookup_in-looked_up :
    (by_name : Bool) (f directory : Text) (d e : Db)
    → looked_up d ≡ looked_up e
    → (lookup_in by_name f directory read d ≡ lookup_in by_name f directory read e)
      × (lookup_in by_name f directory skimmed d ≡ lookup_in by_name f directory skimmed e)
unfolding lookup_in
lookup_in-looked_up by_name f directory d e same = (
  ap
      (λ (t : List Visit × Events × Events).
        lookup_in by_name f directory read
          (record e { visits = t.0; read_events = t.1; skimmed_events = t.2 }))
      same,
  ap
      (λ (t : List Visit × Events × Events).
        lookup_in by_name f directory skimmed
          (record e { visits = t.0; read_events = t.1; skimmed_events = t.2 }))
      same,
)

-- A fact that does not depend on the world stays one.
Ensures-fact {ℓ κ} : {A : Type ℓ} (P : Type κ) (m : Io A) → Ensures (λ _. P) m (λ _ _. P)
Ensures-fact {A} P m = record { at = λ w p. step p (m w) }
  where
    step : P → (r : Result A × World) → Returned (λ _ _. P) r
    step p (ok a, v) = p
    step p (err x, v) = tt

module _ (env : Env) (db : Db) where
  -- The tables are those of `db`.
  abbrev pub Same : World → Type 0
  Same w = looked_up w.db ≡ looked_up db

  Keeps-record_error :
      (op target : Text) (e : Exn) → Keeps (λ w. looked_up w.db) (record_error env op target e)
  unfolding record_error sql_write commit
  Keeps-record_error op target e = record { at = λ w. ground arith }

  Keeps-try_record_error :
      (op target : Text) (e : Exn) → Keeps (λ w. looked_up w.db) (try_record_error env op target e)
  unfolding try_record_error
  Keeps-try_record_error op target e =
      Keeps-handle_sql (λ w. looked_up w.db) (record_error env op target e)
        (Keeps-record_error op target e)

  pub Ensures-kept :
      (m : Io (Unit {0})) → Keeps (λ w. looked_up w.db) m → Ensures Same m (λ _ w. Same w)
  Ensures-kept m k = record { at = λ w p. step (m w) (k.at w ∙ p) }
    where
      step : (r : Result (Unit {0}) × World) → Same r.1 → Returned (λ _ w. Same w) r
      step (ok a, v) h = h
      step (err x, v) h = tt

  -- A query that returns has what it looked up in `db`.
  Ensures-sql_read {ℓ} :
      {A : Type ℓ} (g : Db → A)
      → ((d : Db) → looked_up d ≡ looked_up db → g d ≡ g db)
      → Ensures Same (sql_read env g) (λ a w. (a ≡ g db) × Same w)
  unfolding sql_read
  Ensures-sql_read {A} g same = record { at = λ w p. step w p (env.db_fault w.tick) }
    where
      step :
          (w : World)
          → Same w
          → (f : Option SqlError)
          → Returned (λ (a : A) v. (a ≡ g db) × Same v) (sql_outcome env (g w.db) w.db w f)
      step w p none = (same w.db p, p)
      step w p (some e) = tt

  Ensures-lookup_event :
      (f dir : Text)
      → Ensures Same
          (lookup_event env f dir)
          (λ o w. (o ≡ event_of env.match_by_filename_only dir db f) × Same w)
  unfolding lookup_event event_of
  Ensures-lookup_event f dir =
      Ensures-bind Same (λ o w. (o ≡ lookup_in env.match_by_filename_only f dir read db) × Same w)
        (λ o w.
          (o
            ≡ or_other (lookup_in env.match_by_filename_only f dir read db)
                (lookup_in env.match_by_filename_only f dir skimmed db))
          × Same w)
        _ _ (Ensures-sql_read _ (λ d h. (lookup_in-looked_up _ f dir d db h).0)) second
    where
      second :
          (o : Option Info)
          → Ensures
              (λ w. (o ≡ lookup_in env.match_by_filename_only f dir read db) × Same w)
              (elim o [
                | some info ↦ pure (some info)
                | none ↦ sql_read env (lookup_in env.match_by_filename_only f dir skimmed)
              ])
              (λ o w.
                (o
                  ≡ or_other
                      (lookup_in env.match_by_filename_only f dir read db)
                      (lookup_in env.match_by_filename_only f dir skimmed db))
                × Same w)
      second (some info) = record {
        at = λ w (e, p).
            (ap (λ x. or_other x (lookup_in env.match_by_filename_only f dir skimmed db)) e, p);
      }
      second none = record {
        at = λ w (e, p).
            subst
              (λ x.
                Returned
                  (λ o w.
                    (o ≡ or_other x (lookup_in env.match_by_filename_only f dir skimmed db))
                    × Same w)
                  (sql_read env (lookup_in env.match_by_filename_only f dir skimmed) w))
              e
              ((Ensures-sql_read (lookup_in env.match_by_filename_only f dir skimmed)
                  (λ d h. (lookup_in-looked_up _ f dir d db h).1)).at
                w p);
      }

  Ensures-sort_files :
      (dir : Text) (files : List Text) (acc : SortedFiles)
      → Ensures Same (sort_files env dir files acc) (λ a _.
        a.rows ≡ acc.rows ++ filter_map (expected_row env.match_by_filename_only dir db) files)
  unfolding sort_files filter_map Option-elim
  Ensures-sort_files dir [] acc = record { at = λ w p. sym (append-nil acc.rows) }
  Ensures-sort_files dir (f ∷ files) acc =
      one (λ other. Ensures-sort_files dir files other) (is_snapshot_name f)
    where
      tail : List (List Text)
      tail = filter_map (expected_row env.match_by_filename_only dir db) files

      Goes : SortedFiles → Option (List Text) → SortedFiles → World → Type 0
      Goes start o a w = a.rows ≡ start.rows ++ Option-elim o tail (λ b. b ∷ tail)

      rejected :
          (op text : Text) (start : SortedFiles)
          → ((other : SortedFiles)
              → Ensures Same (sort_files env dir files other) (Goes other none))
          → Ensures Same
              (do
                try_record_error env op (path_join dir f) (value_error text)
                sort_files env dir files start)
              (Goes start none)
      rejected op text start ih =
          Ensures-bind Same (λ _ w. Same w) (Goes start none) _ _
            (Ensures-kept _ (Keeps-try_record_error op _ _)) (λ _. ih start)

      looked : Option Info → Io SortedFiles
      looked found = elim found [
        | none ↦ do
          try_record_error env (codes "orphan_file") (path_join dir f)
              (value_error (codes "snapshot file has no matching events row"))
          sort_files env dir files (record acc { orphan = acc.orphan ++ path_join dir f ∷ [] })
        | some info ↦
            sort_files env dir files (record acc { rows = acc.rows ++ manifest_row f info ∷ [] })
      ]

      accepted :
          ((other : SortedFiles) → Ensures Same (sort_files env dir files other) (Goes other none))
          → (found : Option Info) → Ensures Same (looked found) (Goes acc (row_if f found))
      accepted ih none =
          rejected _ _ (record acc { orphan = acc.orphan ++ path_join dir f ∷ [] }) ih
      accepted ih (some info) = record {
        at = λ w p.
            subst
              (λ x.
                Returned (λ (a : SortedFiles) _. a.rows ≡ x)
                  (sort_files env dir files
                    (record acc { rows = acc.rows ++ manifest_row f info ∷ [] }) w))
              (append_assoc acc.rows (manifest_row f info ∷ []) tail)
              ((ih (record acc { rows = acc.rows ++ manifest_row f info ∷ [] })).at w p);
      }

      one :
          ((other : SortedFiles) → Ensures Same (sort_files env dir files other) (Goes other none))
          → (b : Bool)
          → Ensures Same
              (if b then (do found ← lookup_event env f dir; looked found) else (do
                try_record_error env
                    (codes "invalid_filename")
                    (path_join dir f)
                    (value_error (codes "filename does not match snapshot format"))
                sort_files env dir files
                    (record acc { invalid = acc.invalid ++ path_join dir f ∷ [] })))
              (Goes acc
                (if b then row_if f (event_of env.match_by_filename_only dir db f) else none))
      one ih true =
          Ensures-bind Same (λ o w. (o ≡ event_of env.match_by_filename_only dir db f) × Same w) _ _
            _ (Ensures-lookup_event f dir)
            (λ found. record {
              at = λ w (e, p).
                  subst (λ x. Returned (Goes acc (row_if f x)) (looked found w)) e
                    ((accepted ih found).at w p);
            })
      one ih false = rejected _ _ (record acc { invalid = acc.invalid ++ path_join dir f ∷ [] }) ih

  -- The rows are those of the directory's snapshots, by the files `fs` and the tables of `db`.
  pub Ensures-build_manifest_rows :
      (dir : Text) (fs : Files)
      → Ensures
          (λ w. (w.fs ≡ fs) × Same w)
          (build_manifest_rows env dir)
          (λ rows _. Lists env.match_by_filename_only dir fs db rows)
  unfolding build_manifest_rows os_read
  Ensures-build_manifest_rows dir fs =
      Ensures-bind _ (λ files w. (files ≡ snapshot_files dir fs) × Same w)
        (λ rows _. Lists env.match_by_filename_only dir fs db rows) _ _ listed
        (λ files.
          Ensures-bind _ (λ acc _. Lists env.match_by_filename_only dir fs db acc.rows)
            (λ rows _. Lists env.match_by_filename_only dir fs db rows)
            (sort_files env dir files no_files)
            (λ acc. do
              reconcile_dir_scoped_errors env (codes "invalid_filename") dir acc.invalid
              reconcile_dir_scoped_errors env (codes "orphan_file") dir acc.orphan
              pure acc.rows)
            (record { at = λ w (e, p). sorted_files files e w p })
            (λ acc.
              Ensures-bind _ (λ _ _. Lists env.match_by_filename_only dir fs db acc.rows)
                (λ rows _. Lists env.match_by_filename_only dir fs db rows)
                (reconcile_dir_scoped_errors env (codes "invalid_filename") dir acc.invalid)
                (λ _. do
                  reconcile_dir_scoped_errors env (codes "orphan_file") dir acc.orphan
                  pure acc.rows)
                (Ensures-fact _ _)
                (λ _.
                  Ensures-bind _ (λ _ _. Lists env.match_by_filename_only dir fs db acc.rows)
                    (λ rows _. Lists env.match_by_filename_only dir fs db rows)
                    (reconcile_dir_scoped_errors env (codes "orphan_file") dir acc.orphan)
                    (λ _. pure acc.rows) (Ensures-fact _ _) (λ _. record { at = λ w h. h }))))
    where
      listed :
          Ensures
            (λ w. (w.fs ≡ fs) × Same w)
            (os_read env (snapshot_files dir))
            (λ files w. (files ≡ snapshot_files dir fs) × Same w)
      listed = record { at = λ w (e, p). step w e p (env.os_fault w.tick) }
        where
          step :
              (w : World)
              → w.fs ≡ fs
              → Same w
              → (f : Option (ℕ × Text))
              → Returned
                  (λ files v. (files ≡ snapshot_files dir fs) × Same v)
                  (os_outcome env (snapshot_files dir w.fs) w.fs w f)
          step w e p none = (ap (snapshot_files dir) e, p)
          step w e p (some x) = tt

      sorted_files :
          (files : List Text)
          → files ≡ snapshot_files dir fs
          → (w : World) → Same w
          → Returned
              (λ (acc : SortedFiles) _. Lists env.match_by_filename_only dir fs db acc.rows)
              (sort_files env dir files no_files w)
      sorted_files files e w p =
          step (sort_files env dir files no_files w)
            ((Ensures-sort_files dir files no_files).at w p)
        where
          step :
              (r : Result SortedFiles × World)
              → Returned
                  (λ (a : SortedFiles) _.
                    a.rows ≡ filter_map (expected_row env.match_by_filename_only dir db) files)
                  r
              → Returned
                  (λ (acc : SortedFiles) _. Lists env.match_by_filename_only dir fs db acc.rows)
                  r
          step (ok a, v) h =
              subst (Lists env.match_by_filename_only dir fs db)
                (sym (h ∙ ap (filter_map (expected_row env.match_by_filename_only dir db)) e))
                (expected-Lists env.match_by_filename_only dir fs db)
          step (err x, v) h = tt

-- ===== src/Snapshots/Manifest.antt =====
-- The manifest: `_lookup_event`, `_build_manifest_rows` and `_write_manifest_file`.
pub mod Format
pub mod Content
pub mod Listing
pub mod Built
use browser_visit_logger.Base.{
  ℕ, nat_eq, ◌+◌, Text, Bool, true, false, not, ◌&&◌, ◌||◌, Option, none, some, List, [], ◌∷◌, ◌++◌,
  ◌==◌, text_eq, if◌then◌else◌, contains, map, length, keep,
}
use browser_visit_logger.Base.Strings.{codes, tab, newline, join, text_le}
use browser_visit_logger.Base.Table.{first}
use browser_visit_logger.Database.{Event, Visit, Db, Tag, read, skimmed, events}
use browser_visit_logger.Snapshots.Effects.{
  Exn, value_error, ◌>>=◌, ◌>>◌, pure, Io, Env, sql_read, os_write, os_read,
}
use browser_visit_logger.Files.{Files, is_file, file, list_dir, dir, path_exists}
use browser_visit_logger.Snapshots.Errors.{
  reconcile_dir_scoped_errors, try_record_error, tsv_sanitise,
}
use browser_visit_logger.Paths.{path_join, basename, normpath}
use browser_visit_logger.Base.Dict.{get, put, pop}
use browser_visit_logger.Names.{is_snapshot_name, is_date_dir, log_filename_for}
use browser_visit_logger.Base.Sorting.{sorted}

abbrev pub manifest_filename : Text
manifest_filename = codes "MANIFEST.tsv"

abbrev pub tag_name : Tag → Text
tag_name read = codes "read"
tag_name skimmed = codes "skimmed"

-- What `_lookup_event` returns.
pub record Info : Type 0 where
  pub tag : Text
  pub url : Text
  pub timestamp : Text
  pub title : Text

-- `COALESCE(v.title, '')` of the LEFT JOIN
abbrev pub title_of : Option Visit → Text
title_of none = []
title_of (some v) = v.title

-- The WHERE clause, with or without the directory.
abbrev pub wanted : Bool → Text → Text → Event → Bool
wanted true filename directory e = e.filename == filename
wanted false filename directory e = e.filename == filename && e.directory == directory

abbrev pub info_of : Tag → List Visit → Option Event → Option Info
info_of tag visits none = none
info_of tag visits (some e) = some (record {
  tag = tag_name tag;
  url = e.url;
  timestamp = e.timestamp;
  title = title_of (first (λ v. v.url == e.url) visits);
})

-- The query on one table.
unfoldable pub lookup_in : Bool → Text → Text → Tag → Db → Option Info
unfolding first text_eq
lookup_in by_name filename directory tag db =
    info_of tag db.visits (first (wanted by_name filename directory) (events tag db))

abbrev is_log : Option Text → Text → Bool
is_log none f = false
is_log (some log) f = f == log

-- A file that `_build_manifest_rows` looks at.
unfoldable pub is_candidate : Files → Text → Option Text → Text → Bool
unfolding text_eq
is_candidate fs date_subdir log f =
    not (f == manifest_filename)
    && not (is_log log f)
    && not (f == codes ".DS_Store")
    && is_file (path_join date_subdir f) fs

-- The day's log, in a directory that is named for a day.
unfoldable pub expected_log : Text → Option Text
expected_log date_subdir =
    let base = basename (normpath date_subdir) in
    if is_date_dir base then some (log_filename_for base) else none

unfoldable pub snapshot_files : Text → Files → List Text
snapshot_files date_subdir fs =
    sorted text_le
      (keep (is_candidate fs date_subdir (expected_log date_subdir)) (list_dir date_subdir fs))

abbrev pub manifest_row : Text → Info → List Text
manifest_row filename info =
    tsv_sanitise filename
    ∷ info.tag
    ∷ tsv_sanitise info.timestamp
    ∷ tsv_sanitise info.url
    ∷ tsv_sanitise info.title
    ∷ []

-- The lists `rows`, `current_invalid` and `current_orphan`.
pub record SortedFiles : Type 0 where
  pub rows : List (List Text)
  pub invalid : List Text
  pub orphan : List Text

abbrev pub no_files : SortedFiles
no_files = record { rows = []; invalid = []; orphan = [] }

module _ (env : Env) where
  -- `_lookup_event`
  unfoldable pub lookup_event : Text → Text → Io (Option Info)
  lookup_event filename directory = do
    in_reads ← sql_read env (lookup_in env.match_by_filename_only filename directory read)
    elim in_reads [
      | some info ↦ pure (some info)
      | none ↦ sql_read env (lookup_in env.match_by_filename_only filename directory skimmed)
    ]

  -- The loop over the files, with the three lists so far.
  unfoldable pub sort_files : Text → List Text → SortedFiles → Io SortedFiles
  sort_files date_subdir [] acc = pure acc
  sort_files date_subdir (filename ∷ files) acc =
      let full = path_join date_subdir filename in
      let invalid = record acc { invalid = acc.invalid ++ full ∷ [] } in
      let orphan = record acc { orphan = acc.orphan ++ full ∷ [] } in
      let reject = (do
        try_record_error env (codes "invalid_filename") full
            (value_error (codes "filename does not match snapshot format"))
        sort_files date_subdir files invalid) in
      let accept = (do
        found ← lookup_event filename date_subdir
        elim found [
          | none ↦ do
            try_record_error env (codes "orphan_file") full
                (value_error (codes "snapshot file has no matching events row"))
            sort_files date_subdir files orphan
          | some info ↦
              sort_files date_subdir files
                (record acc { rows = acc.rows ++ manifest_row filename info ∷ [] })
        ]) in
      if is_snapshot_name filename then accept else reject

  -- `_build_manifest_rows`
  unfoldable pub build_manifest_rows : Text → Io (List (List Text))
  build_manifest_rows date_subdir = do
    files ← os_read env (snapshot_files date_subdir)
    acc ← sort_files date_subdir files no_files
    reconcile_dir_scoped_errors env (codes "invalid_filename") date_subdir acc.invalid
    reconcile_dir_scoped_errors env (codes "orphan_file") date_subdir acc.orphan
    pure acc.rows

-- `'\t'.join(row) + '\n'`
abbrev pub line_of : List Text → Text
line_of row = join (tab ∷ []) row ++ newline ∷ []

abbrev pub header : List Text
header = codes "filename" ∷ codes "tag" ∷ codes "timestamp" ∷ codes "url" ∷ codes "title" ∷ []

-- Writes behind what the file holds.
abbrev pub append_to : Text → Text → Files → Files
append_to path text fs = elim (get path fs) [
  | none ↦ put path (file text 0o644) fs
  | some node ↦ elim node [
    | file content mode ↦ put path (file (content ++ text) mode) fs
    | dir ↦ fs
  ]
]

abbrev pub chmod : Text → ℕ → Files → Files
chmod path bits fs = elim (get path fs) [
  | none ↦ fs
  | some node ↦ elim node [ file content mode ↦ put path (file content bits) fs | dir ↦ fs ]
]

module _ (env : Env) where
  unfoldable pub write_lines : Text → List (List Text) → Io (Unit {0})
  write_lines path [] = pure tt
  write_lines path (row ∷ rows) = do
    os_write env (append_to path (line_of row))
    write_lines path rows

  -- `_write_manifest_file`; the file is new when it is opened.
  unfoldable pub write_manifest_file : Text → Io ℕ
  write_manifest_file date_subdir w =
      let path = path_join date_subdir manifest_filename in
      (do
        (if path_exists path w.fs then os_write env (pop path) else pure tt)
        rows ← build_manifest_rows env date_subdir
        os_write env (put path (file [] 0o644))
        write_lines path (header ∷ rows)
        os_write env (chmod path 0o444)
        pure (length rows))
        w

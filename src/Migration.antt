-- ===== src/Migration.antt =====
-- browser-visit-tools/migrate_icloud_to_gdrive.py: the copy of the archive's files, and the new
-- directories of the events. The two roots do not lie within one another: each is a dict from the
-- paths below it to the contents of the files, the source in the order in which `os.walk` brings it.
pub mod Copies
pub mod Directories
pub mod Origins
pub mod Switch
use browser_visit_logger.Base.{
  ℕ, zero, suc, ◌+◌, ◌-◌, Text, Bool, true, false, ◌||◌, Option, none, some, List, [], ◌∷◌, ◌++◌,
  if◌then◌else◌, ◌==◌, nat_eq, text_eq, leb, length,
}
use browser_visit_logger.Base.Dict.{Dict, get, put, pop}
use browser_visit_logger.Base.Strings.{codes, starts_with, after_prefix, rstrip}
use browser_visit_logger.Base.Table.{count, update}
use browser_visit_logger.Database.{Db, Event}
use browser_visit_logger.Paths.{sep}

-- What `shutil.copy2` leaves at the target; `none` where it raises before it has written anything.
pub data Copied : Type 0 where
  delivered : Text → Copied
  broken : Option Text → Copied

-- What lies outside: `sha256_of` a content, and a copy of the file at that path with that content.
pub record Copier : Type 0 where
  pub sha256 : Text → Text
  pub copy2 : Text → Text → Copied

pub data Ending : Type 0 where
  migrated hash_mismatch os_error : Ending

-- The target tree, the count, and the files that a warning names.
pub record Migration : Type 0 where
  pub dst : Dict Text
  pub copied : ℕ
  pub warned : List Text

-- `dst_path.with_suffix(dst_path.suffix + '.partial')`
abbrev pub temporary : Text → Text
temporary path = path ++ codes ".partial"

module _ (env : Copier) where
  -- Behind the copy to the temporary name: the check and the renaming.
  unfoldable pub settle_copy : Text → Text → Copied → Migration → Migration × Ending
  unfolding put pop text_eq
  settle_copy path content (broken none) m = (m, os_error)
  settle_copy path content (broken (some left)) m =
      (record m { dst = put (temporary path) left m.dst }, os_error)
  settle_copy path content (delivered left) m =
      let written = put (temporary path) left m.dst in
      if env.sha256 left == env.sha256 content
      then (
        record m { dst = put path left (pop (temporary path) written); copied = m.copied + 1 },
        migrated,
      )
      else (record m { dst = pop (temporary path) written }, hash_mismatch)

  abbrev pub migrate_absent : Bool → Text → Text → Migration → Migration × Ending
  migrate_absent true path content m = (record m { copied = m.copied + 1 }, migrated)
  migrate_absent false path content m = settle_copy path content (env.copy2 path content) m

  -- A file that is there is left alone, with a warning if its hash differs.
  abbrev pub migrate_over : Bool → Text → Text → Option Text → Migration → Migration × Ending
  unfolding text_eq
  migrate_over dry_run path content none m = migrate_absent dry_run path content m
  migrate_over dry_run path content (some old) m = (
    if env.sha256 content == env.sha256 old then m else record m { warned = path ∷ m.warned },
    migrated,
  )

  -- One turn of the loop.
  unfoldable pub migrate_file : Bool → Text × Text → Migration → Migration × Ending
  unfolding get
  migrate_file dry_run (path, content) m = migrate_over dry_run path content (get path m.dst) m

  abbrev pub unless_raised :
      (Migration → Migration × Ending) → Migration × Ending → Migration × Ending
  unless_raised next (m, migrated) = next m
  unless_raised next (m, hash_mismatch) = (m, hash_mismatch)
  unless_raised next (m, os_error) = (m, os_error)

  -- `migrate_files`
  unfoldable pub migrate_files : Bool → Dict Text → Migration → Migration × Ending
  migrate_files dry_run [] m = (m, migrated)
  migrate_files dry_run (f ∷ src) m =
      unless_raised (migrate_files dry_run src) (migrate_file dry_run f m)

-- ASCII letters in lower case, as LIKE compares them
abbrev pub folded : ℕ → ℕ
folded c = if leb b'A' c then (if leb c b'Z' then c + 32 else c) else c

-- `text LIKE pattern`: `%` stands for any characters, `_` for any one.
unfoldable pub like : Text → Text → Bool
unfolding nat_eq
like [] [] = true
like [] (c ∷ text) = false
like (p ∷ pattern) [] = if p == b'%' then like pattern [] else false
like (p ∷ pattern) (c ∷ text) = elim (p == b'%') [
  | true ↦ like pattern (c ∷ text) || like (p ∷ pattern) text
  | false ↦ elim (p == b'_' || folded p == folded c) [ true ↦ like pattern text | false ↦ false ]
]

-- `REPLACE(text, old, new)` with characters to skip, those of an occurrence that has been replaced
unfoldable pub replaced_from : ℕ → Text → Text → Text → Text
unfolding after_prefix
replaced_from skip old new [] = []
replaced_from (suc skip) old new (c ∷ s) = replaced_from skip old new s
replaced_from zero old new (c ∷ s) =
    let behind = replaced_from (length old - 1) old new s in
    let rest = replaced_from zero old new s in
    if starts_with (c ∷ s) old then new ++ behind else c ∷ rest

abbrev pub replace_all : Text → Text → Text → Text
replace_all old new s = replaced_from 0 old new s

-- `str(root).rstrip('/') + '/'`
abbrev pub with_slash : Text → Text
with_slash root = rstrip sep root ++ sep ∷ []

abbrev pub is_in : Text → Event → Bool
is_in old e = like (old ++ b'%' ∷ []) e.directory

abbrev pub redirect : Text → Text → Event → Event
redirect old new e = record e { directory = replace_all old new e.directory }

-- The UPDATE of one table.
unfoldable pub redirected : Bool → Text → Text → List Event → List Event
unfolding update
redirected true old new rows = rows
redirected false old new rows = update (is_in old) (redirect old new) rows

-- `rewrite_db_directories`: the database, and the count of the rows
unfoldable pub rewrite_db_directories : Text → Text → Bool → Db → Db × ℕ
unfolding count rstrip
rewrite_db_directories old_root new_root dry_run db =
    let old = with_slash old_root in
    let new = with_slash new_root in
    (
      record db {
        read_events = record db.read_events {
          rows = redirected dry_run old new db.read_events.rows;
        };
        skimmed_events = record db.skimmed_events {
          rows = redirected dry_run old new db.skimmed_events.rows;
        };
      },
      count (is_in old) db.read_events.rows + count (is_in old) db.skimmed_events.rows,
    )

-- What is there behind a run, and the exit code; `none` for an exception.
pub record Moved : Type 0 where
  pub dst : Dict Text
  pub db : Db
  pub exit_code : Option ℕ

module _ (env : Copier) (src_root dst_root : Text) (dry_run : Bool) where
  abbrev pub rewritten : Db → Migration × Ending → Moved
  rewritten db (m, migrated) = record {
    dst = m.dst;
    db = (rewrite_db_directories src_root dst_root dry_run db).0;
    exit_code = some 0;
  }
  rewritten db (m, hash_mismatch) = record { dst = m.dst; db = db; exit_code = none }
  rewritten db (m, os_error) = record { dst = m.dst; db = db; exit_code = none }

  -- `main`, behind the parser: whether the source's root and the database file exist, the files below
  -- the root, and the two that it changes.
  unfoldable pub main : Bool → Bool → Dict Text → Dict Text → Db → Moved
  main false has_db src dst db = record { dst = dst; db = db; exit_code = some 2 }
  main true false src dst db = record { dst = dst; db = db; exit_code = some 2 }
  main true true src dst db =
      rewritten db (migrate_files env dry_run src (record { dst = dst; copied = 0; warned = [] }))

-- ===== src/Tests/Archive.antt =====
-- Runs of the migration and of the reset.
use browser_visit_logger.Base.{Text, true, false, none, [], ◌∷◌, ◌≡◌, ◌⊎◌, refl, text_eq, nat_eq}
use browser_visit_logger.Base.Dict.{Dict, get, put, pop}
use browser_visit_logger.Base.Strings.{codes, after_prefix, rstrip, has_part}
use browser_visit_logger.Database.{Db}
use browser_visit_logger.Files.{Files, file, dir}
use browser_visit_logger.Migration.{
  Copier, delivered, Migration, migrate_files, migrate_file, settle_copy, rewrite_db_directories,
  with_slash,
}
use browser_visit_logger.Migration.Copies.{Sound, migrate_files-Sound}
use browser_visit_logger.Migration.Directories.{relocated, rewrite_db_directories-relocated}
use browser_visit_logger.Reset.{Places, Flags, reset, targets_of}
use browser_visit_logger.Reset.Reach.{Doomed, reset-Doomed}
use browser_visit_logger.Reset.Gone.{LeftOver, reset-LeftOver}
use browser_visit_logger.Tests.{example_db}

-- A hash that is the content itself, and a copy that delivers it.
abbrev faithful : Copier
faithful = record { sha256 = λ content. content; copy2 = λ path content. delivered content }

abbrev two_files : Dict Text
two_files = (codes "d/a", codes "x") ∷ (codes "d/b", codes "y") ∷ []

abbrev half_done : Migration
half_done = record { dst = (codes "d/a", codes "x") ∷ []; copied = 0; warned = [] }

migrate_files-Sound_example :
    Sound faithful
      (codes "d/b")
      two_files
      none
      (get (codes "d/b") (migrate_files faithful false two_files half_done).0.dst)
unfolding get text_eq
migrate_files-Sound_example =
    migrate_files-Sound faithful (codes "d/b") false two_files half_done (refl, tt)
      (refl, (refl, tt))

-- A file of the source that has the temporary name of a later one is lost.
lost_test :
    get
      (codes "a.partial")
      (migrate_files faithful false
        ((codes "a.partial", codes "x") ∷ (codes "a", codes "y") ∷ [])
        (record { dst = []; copied = 0; warned = [] })).0.dst
    ≡ none
unfolding migrate_files migrate_file settle_copy get put pop text_eq
lost_test = refl

abbrev archive_db : Db
archive_db = record example_db {
  read_events = record {
    rows =
        record {
          url = codes "u";
          timestamp = codes "t";
          filename = codes "f";
          directory = codes "/old/2026-01-02";
        }
        ∷ [];
    default_directory = [];
  };
  skimmed_events = record {
    rows =
        record {
          url = codes "u";
          timestamp = codes "t";
          filename = codes "g";
          directory = codes "/downloads";
        }
        ∷ [];
    default_directory = [];
  };
}

rewrite_db_directories-relocated_example :
    ((rewrite_db_directories (codes "/old/") (codes "/new") false archive_db).0
      ≡ relocated (with_slash (codes "/old/")) (with_slash (codes "/new")) archive_db)
    × ((rewrite_db_directories (codes "/old/") (codes "/new") true archive_db).0 ≡ archive_db)
    × ((rewrite_db_directories (codes "/old/") (codes "/new") true archive_db).1
        ≡ (rewrite_db_directories (codes "/old/") (codes "/new") false archive_db).1)
unfolding after_prefix rstrip has_part nat_eq
rewrite_db_directories-relocated_example =
    rewrite_db_directories-relocated (codes "/old/") (codes "/new") archive_db (refl, tt) (refl, tt)

abbrev places : Places
places = record {
  log_dir = codes "/h";
  host_log = codes "/h/host.log";
  mover_log = codes "/h/mover.log";
  verifier_log = codes "/h/verifier.log";
  db_file = codes "/h/visits.db";
  snap_dir = codes "/h/snapshots";
  icloud_dir = codes "/h/archive";
}

abbrev only_db : Flags
only_db = record {
  log = false;
  host_log = false;
  db = true;
  snapshots = false;
  icloud = false;
  force = true;
}

abbrev home : Files
home =
    (codes "/h", dir)
    ∷ (codes "/h/visits.db", file (codes "db") 420)
    ∷ (codes "/h/archive", dir)
    ∷ (codes "/h/archive/a", file (codes "a") 420)
    ∷ []

reset-Doomed_example :
    (get (codes "/h/archive/a") (reset places only_db none home).0
      ≡ get (codes "/h/archive/a") home)
    ⊎ ((true ≡ true) × Doomed places only_db (codes "/h/archive/a"))
reset-Doomed_example = reset-Doomed places only_db (codes "/h/archive/a") none home

reset-LeftOver_example : LeftOver (targets_of places only_db home) (reset places only_db none home)
unfolding get text_eq
reset-LeftOver_example =
    reset-LeftOver places only_db none home (refl, (refl, (refl, (refl, tt)))) refl

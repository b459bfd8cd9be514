-- ===== src/Snapshots/Effects.antt =====
-- Operations with effects: the file system, the database connection with its transaction, and the
-- exceptions. The environment says which operations fail, what the clock reads, and the configuration.
pub mod Rules
use browser_visit_logger.Base.{
  ℕ, ◌+◌, Text, Bool, true, false, Option, none, some, List, [], ◌∷◌, if◌then◌else◌,
}
use browser_visit_logger.Database.{Db}
use browser_visit_logger.Files.{Files}

-- `sqlite3.OperationalError`, another `sqlite3.DatabaseError`, another `sqlite3.Error`
pub data SqlError : Type 0 where
  operational : Text → SqlError
  database : Text → SqlError
  interface : Text → SqlError

pub data Exn : Type 0 where
  os_error : ℕ → Text → Exn
  sql_error : SqlError → Exn
  value_error : Text → Exn

pub data Result {ℓ} (A : Type ℓ) : Type ℓ where
  ok : A → Result A
  err : Exn → Result A

-- `saved` is what the last commit wrote, and `tick` counts the operations.
pub record World : Type 0 where
  pub fs : Files
  pub db : Db
  pub saved : Db
  pub tick : ℕ

pub record Env : Type 0 where
  -- the error number and the text of an `OSError`
  pub os_fault : ℕ → Option (ℕ × Text)
  pub db_fault : ℕ → Option SqlError
  pub now_iso : ℕ → Text
  pub today_utc : Text
  -- the numbers of ENOSPC, EROFS and EDQUOT on this system
  pub immediate_errnos : List ℕ
  pub match_by_filename_only : Bool
  pub log_dir : Text
  pub icloud_snapshots_dir : Text

abbrev pub Io {ℓ} : Type ℓ → Type ℓ
Io A = World → Result A × World

abbrev pub pure {ℓ} : {A : Type ℓ} → A → Io A
pure a w = (ok a, w)

abbrev pub continue {ℓ κ} :
    {A : Type ℓ} {B : Type κ} → (A → Io B) → Result A × World → Result B × World
continue f (ok a, w) = f a w
continue f (err e, w) = (err e, w)

infixl 5 ◌>>=◌ ◌>>◌
abbrev pub ◌>>=◌ {ℓ κ} : {A : Type ℓ} {B : Type κ} → Io A → (A → Io B) → Io B
◌>>=◌ m f w = continue f (m w)

abbrev pub ◌>>◌ {ℓ} : {B : Type ℓ} → Io (Unit {0}) → Io B → Io B
m >> k = m >>= λ _. k

-- `try: m except (OSError, sqlite3.Error): handler`
abbrev pub handle : (Exn → Io (Unit {0})) → Result (Unit {0}) × World → Result (Unit {0}) × World
handle h (ok a, w) = (ok a, w)
handle h (err (os_error errno text), w) = h (os_error errno text) w
handle h (err (sql_error e), w) = h (sql_error e) w
handle h (err (value_error text), w) = (err (value_error text), w)

-- `try: m except sqlite3.Error: handler`
abbrev pub handle_sql :
    (SqlError → Io (Unit {0})) → Result (Unit {0}) × World → Result (Unit {0}) × World
handle_sql h (ok a, w) = (ok a, w)
handle_sql h (err (os_error errno text), w) = (err (os_error errno text), w)
handle_sql h (err (sql_error e), w) = h e w
handle_sql h (err (value_error text), w) = (err (value_error text), w)

-- `try: m except OSError: handler`
abbrev pub handle_os : (Exn → Io (Unit {0})) → Result (Unit {0}) × World → Result (Unit {0}) × World
handle_os h (ok a, w) = (ok a, w)
handle_os h (err (os_error errno text), w) = h (os_error errno text) w
handle_os h (err (sql_error e), w) = (err (sql_error e), w)
handle_os h (err (value_error text), w) = (err (value_error text), w)

abbrev pub ticked : World → World
ticked w = record w { tick = w.tick + 1 }

module _ (env : Env) where
  abbrev pub os_outcome {ℓ} :
      {A : Type ℓ} → A → Files → World → Option (ℕ × Text) → Result A × World
  os_outcome a fs w none = (ok a, record (ticked w) { fs = fs })
  os_outcome a fs w (some (errno, text)) = (err (os_error errno text), ticked w)

  abbrev pub sql_outcome {ℓ} : {A : Type ℓ} → A → Db → World → Option SqlError → Result A × World
  sql_outcome a db w none = (ok a, record (ticked w) { db = db })
  sql_outcome a db w (some e) = (err (sql_error e), ticked w)

  -- A system call that reads the file system.
  unfoldable pub os_read {ℓ} : {A : Type ℓ} → (Files → A) → Io A
  os_read f w = os_outcome (f w.fs) w.fs w (env.os_fault w.tick)

  -- A system call that changes the file system.
  unfoldable pub os_write : (Files → Files) → Io (Unit {0})
  os_write f w = os_outcome tt (f w.fs) w (env.os_fault w.tick)

  -- A query.
  unfoldable pub sql_read {ℓ} : {A : Type ℓ} → (Db → A) → Io A
  sql_read f w = sql_outcome (f w.db) w.db w (env.db_fault w.tick)

  -- A statement that changes the database, in the open transaction.
  unfoldable pub sql_write : (Db → Db) → Io (Unit {0})
  sql_write f w = sql_outcome tt (f w.db) w (env.db_fault w.tick)

  -- `conn.commit()`
  unfoldable pub commit : Io (Unit {0})
  commit w = elim (env.db_fault w.tick) [
    | none ↦ (ok tt, record (ticked w) { saved = w.db })
    | some e ↦ (err (sql_error e), ticked w)
  ]

  -- `conn.close()` drops what was not committed.
  unfoldable pub close : World → World
  close w = record w { db = w.saved }

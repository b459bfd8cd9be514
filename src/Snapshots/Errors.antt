-- ===== src/Snapshots/Errors.antt =====
-- The `mover_errors` table: `_record_error`, `_clear_error`, their `_try_` forms,
-- `_reconcile_dir_scoped_errors` and `_is_immediate`.
pub mod Streaks
pub mod Healing
use browser_visit_logger.Base.{
  ℕ, nat_eq, ◌+◌, Text, Bool, true, false, not, ◌&&◌, ◌||◌, Option, none, some, List, [], ◌∷◌, ◌++◌,
  ◌==◌, text_eq, if◌then◌else◌, contains, take, leb, map, keep,
}
use browser_visit_logger.Base.Strings.{codes, replace, tab, newline, carriage_return, starts_with}
use browser_visit_logger.Base.Table.{upsert, delete}
use browser_visit_logger.Database.{MoverError, Db}
use browser_visit_logger.Snapshots.Effects.{
  Exn, os_error, sql_error, value_error, operational, database, interface, Env, sql_read, sql_write,
  Io, pure, handle_sql, commit, ◌>>=◌, ◌>>◌,
}
use browser_visit_logger.Paths.{path_join}

-- `_tsv_sanitise`
unfoldable pub tsv_sanitise : Text → Text
unfolding replace
tsv_sanitise s =
    replace carriage_return [] (replace newline (codes " ") (replace tab (codes " ") s))

-- `str(exc)`
abbrev pub text_of : Exn → Text
text_of (os_error errno text) = text
text_of (sql_error (operational text)) = text
text_of (sql_error (database text)) = text
text_of (sql_error (interface text)) = text
text_of (value_error text) = text

abbrev immediate_operations : List Text
immediate_operations =
    codes "top_level"
    ∷ codes "rewrite_manifest"
    ∷ codes "invalid_filename"
    ∷ codes "orphan_file"
    ∷ codes "manifest_invalid"
    ∷ []

abbrev immediate_exn : Env → Exn → Bool
immediate_exn env (os_error errno text) = contains env.immediate_errnos errno
immediate_exn env (sql_error (operational text)) = false
immediate_exn env (sql_error (database text)) = true
immediate_exn env (sql_error (interface text)) = false
immediate_exn env (value_error text) = false

-- `_is_immediate`
unfoldable pub is_immediate : Env → Text → Exn → Bool
unfolding text_eq nat_eq
is_immediate env op e = contains immediate_operations op || immediate_exn env e

-- `f'{op}:{target}'`
abbrev pub error_key : Text → Text → Text
error_key op target = op ++ codes ":" ++ target

abbrev pub max : ℕ → ℕ → ℕ
max a b = if leb a b then b else a

-- The statement of `_record_error` on the rows of `mover_errors`.
unfoldable pub upsert_error : Text → Text → Text → Text → ℕ → List MoverError → List MoverError
unfolding upsert text_eq
upsert_error op target message now immediate =
    upsert (λ r. r.key == error_key op target)
      (λ r. record r {
        attempts = r.attempts + 1;
        last_seen = now;
        message = message;
        immediate = max r.immediate immediate;
      })
      (record {
        key = error_key op target;
        operation = op;
        target = target;
        message = message;
        first_seen = now;
        last_seen = now;
        attempts = 1;
        notified = 0;
        immediate = immediate;
      })

unfoldable pub delete_error : Text → List MoverError → List MoverError
unfolding delete text_eq
delete_error key = delete (λ r. r.key == key)

-- The rows of the operation whose target lies under the directory and is no current stray.
unfoldable pub is_healed : Text → Text → List Text → MoverError → Bool
unfolding text_eq path_join
is_healed op dir_path strays r =
    r.operation == op
    && (starts_with r.target (path_join dir_path []) && not (contains strays r.target))

abbrev pub keys_of : List MoverError → List Text
keys_of = map (λ r. r.key)

module _ (env : Env) where
  -- `_record_error`
  unfoldable pub record_error : Text → Text → Exn → Io (Unit {0})
  record_error op target e w =
      (do
        sql_write env (λ db. record db {
          mover_errors =
              upsert_error op target (take 500 (tsv_sanitise (text_of e))) (env.now_iso w.tick)
                (if is_immediate env op e then 1 else 0) db.mover_errors;
        })
        commit env)
        w

  -- `_try_record_error`
  unfoldable pub try_record_error : Text → Text → Exn → Io (Unit {0})
  try_record_error op target e w = handle_sql (λ _. pure tt) (record_error op target e w)

  -- `_clear_error`
  unfoldable pub clear_error : Text → Text → Io (Unit {0})
  clear_error op target = do
    sql_write env
        (λ db. record db { mover_errors = delete_error (error_key op target) db.mover_errors })
    commit env

  -- `_try_clear_error`
  unfoldable pub try_clear_error : Text → Text → Io (Unit {0})
  try_clear_error op target w = handle_sql (λ _. pure tt) (clear_error op target w)

  unfoldable pub delete_keys : List Text → Io (Unit {0})
  delete_keys [] = pure tt
  delete_keys (key ∷ keys) = do
    sql_write env (λ db. record db { mover_errors = delete_error key db.mover_errors })
    delete_keys keys

  -- `_reconcile_dir_scoped_errors`
  unfoldable pub reconcile_dir_scoped_errors : Text → Text → List Text → Io (Unit {0})
  reconcile_dir_scoped_errors op dir_path strays w =
      handle_sql (λ _. pure tt)
        ((do
          prior ← sql_read env (λ db. db.mover_errors)
          delete_keys (keys_of (keep (is_healed op dir_path strays) prior))
          commit env)
          w)

-- ===== src/Snapshots/Seal/Safety.antt =====
-- What sealing a directory does when any of its operations may fail.
use browser_visit_logger.Base.{◌≡◌, refl, Bool, true, false, Option, none, Text, arith}
use browser_visit_logger.Snapshots.Effects.{
  Result, ok, err, Exn, os_error, sql_error, value_error, Env, World, handle, sql_write, commit,
}
use browser_visit_logger.Snapshots.Effects.Rules.{
  Behaves, Expected, Behaves-pure, Behaves-bind, Behaves-handle_sql, Behaves-handle,
  Behaves-os_read, Behaves-os_write, Behaves-sql_read, Behaves-sql_write, Behaves-commit,
}
use browser_visit_logger.Snapshots.Errors.{record_error, try_record_error}
use browser_visit_logger.Snapshots.Seal.{seal_steps, seal_directory}
use browser_visit_logger.Snapshots.Seal.Closed.{Closed, Closed-seal_steps, unseen, Unseen-unseen}
use browser_visit_logger.Base.Strings.{codes}

module _ (env : Env) where
  Behaves-Closed : Closed env unseen none (λ A m. Behaves m)
  Behaves-Closed = record {
    returns = λ a. Behaves-pure a;
    binds = λ m k bm bk. Behaves-bind m k bm bk;
    looks = λ m bm. record { at = λ w. (bm w).at w };
    handles = Behaves-handle;
    handles_sql = Behaves-handle_sql;
    reads = λ g. Behaves-os_read env g;
    writes = λ g spares. Behaves-os_write env g;
    queries = λ g. Behaves-sql_read env g;
    statements = λ g same. Behaves-sql_write env g;
    commits = Behaves-commit env;
  }

  Behaves-seal_steps :
      (date_subdir : Text) (date : Option Text) → Behaves (seal_steps env date_subdir date)
  Behaves-seal_steps date_subdir date =
      Closed-seal_steps env unseen none (λ A m. Behaves m) Behaves-Closed (λ a d. tt) date_subdir
        date tt (Unseen-unseen date)

  -- The error record itself never raises: a failed statement is dropped.
  pub try_record_error_never_raises :
      (op target : Text) (e : Exn) (w : World) → (try_record_error env op target e w).0 ≡ ok tt
  unfolding try_record_error record_error sql_write commit
  try_record_error_never_raises op target e w = ground arith

-- Sealing a directory returns without an exception, whichever file system calls and statements
-- fail, those of the error record included.
pub seal_directory_never_raises :
    (env : Env) (date_subdir : Text) (dry_run : Bool) (date : Option Text) (w : World)
    → (seal_directory env date_subdir dry_run date w).0 ≡ ok tt
unfolding seal_directory
seal_directory_never_raises env date_subdir true date w = refl
seal_directory_never_raises env date_subdir false date w =
    step (seal_steps env date_subdir date w) ((Behaves-seal_steps env date_subdir date).at w)
  where
    step :
        (r : Result (Unit {0}) × World)
        → Expected r.0
        → (handle (λ e. try_record_error env (codes "seal") date_subdir e) r).0 ≡ ok tt
    step (ok tt, v) h = refl
    step (err (os_error errno text), v) h = try_record_error_never_raises env _ _ _ v
    step (err (sql_error e), v) h = try_record_error_never_raises env _ _ _ v
    step (err (value_error text), v) h = absurd h

-- ===== src/Snapshots/Seal/Quiet.antt =====
-- What sealing a directory leaves alone: what is seen of the rows of `snapshots`, and another file.
use browser_visit_logger.Base.{List, Option, Text, ◌≡◌}
use browser_visit_logger.Database.{Db, Snapshot}
use browser_visit_logger.Files.{Files}
use browser_visit_logger.Snapshots.Effects.{
  Env, Io, World, handle, handle_sql, pure, Exn, sql_read, sql_write, commit, os_read, os_write,
  Result, ok, err, os_error, sql_error, value_error,
}
use browser_visit_logger.Snapshots.Effects.Rules.{Stable, Stable-pure, Stable-bind}
use browser_visit_logger.Snapshots.Seal.Closed.{Closed, Spares}

-- A condition that no operation breaks as long as it leaves what is seen of `snapshots` and the
-- protected path alone.
pub record Quiet {B : Type 0} (env : Env) (view : List Snapshot → B) (o : Option Text)
    (P : World → Type 0) : Type 1 where
  pub reads : {A : Type 0} (g : Files → A) → Stable P (os_read env g)
  pub writes : (g : Files → Files) → Spares o g → Stable P (os_write env g)
  pub queries : {A : Type 0} (g : Db → A) → Stable P (sql_read env g)
  pub statements :
      (g : Db → Db)
      → ((db : Db) → view (g db).snapshots ≡ view db.snapshots)
      → Stable P (sql_write env g)
  pub commits : Stable P (commit env)

module _ {B : Type 0} (env : Env) (view : List Snapshot → B) (o : Option Text) (P : World → Type 0)
    (q : Quiet env view o P) where
  Stable-handled :
      (h : Exn → Io (Unit {0})) (m : Io (Unit {0}))
      → ((e : Exn) → Stable P (h e))
      → Stable P m
      → Stable P (λ w. handle h (m w))
  Stable-handled h m sh sm = record { at = λ w p. step (m w) (sm.at w p) }
    where
      step : (r : Result (Unit {0}) × World) → P r.1 → P (handle h r).1
      step (ok a, v) p = p
      step (err (os_error errno text), v) p = (sh _).at v p
      step (err (sql_error e), v) p = (sh _).at v p
      step (err (value_error text), v) p = p

  Stable-handled_sql :
      (m : Io (Unit {0})) → Stable P m → Stable P (λ w. handle_sql (λ _. pure tt) (m w))
  Stable-handled_sql m sm = record { at = λ w p. step (m w) (sm.at w p) }
    where
      step : (r : Result (Unit {0}) × World) → P r.1 → P (handle_sql (λ _. pure tt) r).1
      step (ok a, v) p = p
      step (err (os_error errno text), v) p = p
      step (err (sql_error e), v) p = p
      step (err (value_error text), v) p = p

  pub quiet-Closed : Closed env view o (λ A m. Stable P m)
  quiet-Closed = record {
    returns = λ a. Stable-pure P a;
    binds = λ m k sm sk. Stable-bind P m k sm sk;
    looks = λ m sm. record { at = λ w p. (sm w).at w p };
    handles = Stable-handled;
    handles_sql = Stable-handled_sql;
    reads = q.reads;
    writes = q.writes;
    queries = q.queries;
    statements = q.statements;
    commits = q.commits;
  }

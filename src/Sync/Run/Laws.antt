-- ===== src/Sync/Run/Laws.antt =====
-- How a sync ends: what is committed, and which error the machine's row shows.
use browser_visit_logger.Base.{
  Text, ℕ, Bool, true, false, not, ◌&&◌, ◌+◌, Option, none, some, List, [], ◌∷◌, ◌≡◌, refl, sym, ap,
  ◌∙◌, arith, if◌then◌else◌, ◌==◌, text_eq,
}
use browser_visit_logger.Base.Table.{first}
use browser_visit_logger.Base.Table.Upserts.{first-upsert, upserted}
use browser_visit_logger.Database.{Db, SyncState, Visit, Events}
use browser_visit_logger.Host.Counters.{IsConsistent}
use browser_visit_logger.Sync.Cursors.{
  Cursor, mark_attempt, record_error, clear_error, set_cursor, get_cursor, should_skip, or_empty,
  fresh_state,
}
use browser_visit_logger.Sync.Push.{
  Peer, Session, LogLine, do_push, push_lines, send_push, moved, and_then, lines_to_push,
  same_cursor, cursor_after,
}
use browser_visit_logger.Sync.Push.Place.{push_lines_keeps}
use browser_visit_logger.Sync.Pull.{PeerCursor, Chunk, do_pull}
use browser_visit_logger.Sync.Pull.Tables.{tables, do_pull_applies_lines}
use browser_visit_logger.Sync.Replay.{replay_into_db}
use browser_visit_logger.Sync.Replay.Laws.{IsConsistent-replay_into_db}
use browser_visit_logger.Sync.Replay.Recovery.{replay_all}
use browser_visit_logger.Sync.Run.{
  Start, commit, marked, pulled, pushed, exchange, after_handshake, run, refused, peer_of,
  unless_refused, main,
}
use mathlib.Core.Path.{subst}

-- The error that the machine's row shows.
abbrev shown_in : Option SyncState → Option Text
shown_in none = none
shown_in (some r) = some r.last_error

unfoldable pub last_error_of : Text → Db → Option Text
unfolding first text_eq
last_error_of machine_id db = shown_in (first (λ s. s.machine_id == machine_id) db.sync_state)

last_error_of-mark_attempt :
    (machine_id : Text) (error : Option Text) (now : Text) (db : Db)
    → last_error_of machine_id (mark_attempt machine_id error now db) ≡ some (or_empty error)
unfolding last_error_of mark_attempt
last_error_of-mark_attempt machine_id error now db =
    ap shown_in
      (first-upsert (λ s. s.machine_id == machine_id) _ _ db.sync_state (λ r. refl) (ground arith))
    ∙ one (first (λ s. s.machine_id == machine_id) db.sync_state)
  where
    one :
        (o : Option SyncState)
        → shown_in (
            some (
              upserted
                (λ s. s.machine_id == machine_id)
                (λ s. record s { last_sync_attempt_at = now; last_error = or_empty error })
                (record (fresh_state machine_id) {
                  last_sync_attempt_at = now;
                  last_error = or_empty error;
                })
                o))
          ≡ some (or_empty error)
    one none = refl
    one (some r) = refl

IsConsistent-tables : (d e : Db) → tables d ≡ tables e → IsConsistent e → IsConsistent d
IsConsistent-tables d e same c =
    subst
      (λ (t : List Visit × Events × Events).
        IsConsistent (record d { visits = t.0; read_events = t.1; skimmed_events = t.2 }))
      (sym same) (record { visits_unique = c.visits_unique; reads = c.reads; skims = c.skims })

IsConsistent-replay_all :
    (ls : List Text) (db : Db) → IsConsistent db → IsConsistent (replay_all ls db)
unfolding replay_all
IsConsistent-replay_all [] db c = c
IsConsistent-replay_all (l ∷ ls) db c =
    IsConsistent-replay_all ls (replay_into_db l db) (IsConsistent-replay_into_db l db c)

-- The exception that comes first, if there is one.
abbrev pub first_of : Option Text → Option Text → Option Text
first_of none later = later
first_of (some text) later = some text

-- How a run ends that starts on `s`, that is skipped where `skips` holds, and whose first exception is
-- `error`: it is skipped, or it commits everything and its exit code and the error in the machine's row
-- say whether there was an exception, and which.
pub data Ended (machine_id : Text) (skips : Bool) (error : Option Text) (s : Session)
    (r : Session × ℕ) : Type 0 where
  skipped : skips ≡ true → r ≡ (s, 0) → Ended machine_id skips error s r
  succeeded :
      skips ≡ false
      → error ≡ none
      → r.1 ≡ 0
      → r.0.saved ≡ r.0.db
      → last_error_of machine_id r.0.saved ≡ some []
      → Ended machine_id skips error s r
  failed :
      (text : Text)
      → skips ≡ false
      → error ≡ some text
      → r.1 ≡ 1
      → r.0.saved ≡ r.0.db
      → last_error_of machine_id r.0.saved ≡ some text
      → Ended machine_id skips error s r

module _ (env : Peer) (is_recent : Text → Option Bool)
    (pull_logs : List PeerCursor → List Chunk × Option Text) where
  Ended-pulled :
      (s : Session) (r : Session × Option Text)
      → Ended env.machine_id false r.1 s (pulled env is_recent pull_logs r)
  Ended-pulled s (t, none) =
      succeeded refl refl refl refl (last_error_of-mark_attempt env.machine_id none _ t.db)
  Ended-pulled s (t, some text) =
      failed text refl refl refl refl (last_error_of-mark_attempt env.machine_id (some text) _ t.db)

  -- The exception of the pull behind a push that ends with `r`.
  abbrev pub pull_error : Session × Option Text → Option Text
  pull_error r = (do_pull env pull_logs (commit env is_recent pull_logs r.0)).1

  Ended-pushed :
      (s : Session) (r : Session × Option Text)
      → Ended env.machine_id false
          (first_of r.1 (pull_error r))
          s
          (pushed env is_recent pull_logs r)
  Ended-pushed s (t, none) =
      Ended-pulled s (do_pull env pull_logs (commit env is_recent pull_logs t))
  Ended-pushed s (t, some text) =
      failed text refl refl refl refl (last_error_of-mark_attempt env.machine_id (some text) _ t.db)

  -- The first exception of a run behind its `mark_attempt`: that of the handshake, of the push or of
  -- the pull, in this order.
  abbrev pub error_of : Option Text → Session → Option Text
  error_of handshake t =
      first_of handshake (first_of (do_push env t).1 (pull_error (do_push env t)))

  Ended-after_handshake :
      (handshake : Option Text) (s t : Session)
      → Ended env.machine_id false
          (error_of handshake t)
          s
          (after_handshake env is_recent pull_logs handshake t)
  unfolding after_handshake exchange record_error last_error_of
  Ended-after_handshake none s t = Ended-pushed s (do_push env t)
  Ended-after_handshake (some text) s t =
      failed text refl refl refl refl (last_error_of-mark_attempt env.machine_id (some text) _ t.db)

  -- A run is skipped exactly where `--force` is not given and `should_skip` holds. Every other run
  -- commits everything that it has done. It exits with 0 and no error in the machine's row where the
  -- handshake, the push and the pull raise nothing, and otherwise with 1 and there the text of the
  -- first exception of these three.
  pub run-Ended :
      (force : Bool) (handshake : Option Text) (s : Session)
      → Ended env.machine_id
          (not force && should_skip is_recent env.machine_id s.db)
          (error_of handshake
            (commit env is_recent pull_logs (marked env is_recent pull_logs none s)))
          s
          (run env is_recent pull_logs force handshake s)
  unfolding run
  run-Ended force handshake s = choose (not force && should_skip is_recent env.machine_id s.db)
    where
      t : Session
      t = commit env is_recent pull_logs (marked env is_recent pull_logs none s)

      choose :
          (b : Bool)
          → Ended env.machine_id b
              (error_of handshake t)
              s
              (if b then (s, 0) else after_handshake env is_recent pull_logs handshake t)
      choose true = skipped refl refl
      choose false = Ended-after_handshake handshake s t

  send_push-tables :
      (lines : List LogLine) (s : Session) → tables (send_push env lines s).0.db ≡ tables s.db
  unfolding send_push clear_error record_error
  send_push-tables lines s = ground arith

  moved-tables :
      (cursor last : Cursor) (s : Session) → tables (moved env cursor last s).db ≡ tables s.db
  unfolding set_cursor
  moved-tables cursor last s = one (same_cursor last cursor)
    where
      one :
          (b : Bool)
          → tables
              (if b then s else record s {
                db = set_cursor env.machine_id last (env.now s.tick) s.db;
                tick = s.tick + 1;
              }).db
            ≡ tables s.db
      one true = refl
      one false = refl

  do_push-tables : (s : Session) → tables (do_push env s).0.db ≡ tables s.db
  unfolding do_push
  do_push-tables s =
      let cursor = get_cursor env.machine_id s.db in
      let lines = lines_to_push env.log_dir cursor s.fs in
      done (push_lines env lines [] s) (push_lines_keeps env tables send_push-tables lines [] s)
        (cursor_after lines cursor) cursor
    where
      done :
          (r : Session × Option Text)
          → tables r.0.db ≡ tables s.db
          → (last cursor : Cursor)
          → tables (and_then (λ t. (moved env cursor last t, none)) r).0.db ≡ tables s.db
      done (t, none) e last cursor = moved-tables cursor last t ∙ e
      done (t, some text) e last cursor = e

  IsConsistent-do_push : (s : Session) → IsConsistent s.db → IsConsistent (do_push env s).0.db
  IsConsistent-do_push s c = IsConsistent-tables _ s.db (do_push-tables s) c

  IsConsistent-do_pull :
      (s : Session) → IsConsistent s.db → IsConsistent (do_pull env pull_logs s).0.db
  IsConsistent-do_pull s c =
      IsConsistent-tables _ _ (do_pull_applies_lines env pull_logs s)
        (IsConsistent-replay_all _ s.db c)

  IsConsistent-marked :
      (error : Option Text) (s : Session)
      → IsConsistent s.db
      → IsConsistent (marked env is_recent pull_logs error s).db
  unfolding mark_attempt
  IsConsistent-marked error s c = record {
    visits_unique = c.visits_unique;
    reads = c.reads;
    skims = c.skims;
  }

  IsConsistent-pulled :
      (r : Session × Option Text)
      → IsConsistent r.0.db
      → IsConsistent (pulled env is_recent pull_logs r).0.db
  IsConsistent-pulled (t, none) c = IsConsistent-marked none (commit env is_recent pull_logs t) c
  IsConsistent-pulled (t, some text) c = IsConsistent-marked (some text) t c

  IsConsistent-pushed :
      (r : Session × Option Text)
      → IsConsistent r.0.db
      → IsConsistent (pushed env is_recent pull_logs r).0.db
  IsConsistent-pushed (t, none) c =
      IsConsistent-pulled (do_pull env pull_logs (commit env is_recent pull_logs t))
        (IsConsistent-do_pull (commit env is_recent pull_logs t) c)
  IsConsistent-pushed (t, some text) c = IsConsistent-marked (some text) t c

  IsConsistent-after_handshake :
      (handshake : Option Text) (s : Session)
      → IsConsistent s.db
      → IsConsistent (after_handshake env is_recent pull_logs handshake s).0.db
  unfolding after_handshake exchange record_error
  IsConsistent-after_handshake none s c =
      IsConsistent-pushed (do_push env s) (IsConsistent-do_push s c)
  IsConsistent-after_handshake (some text) s c =
      let d = IsConsistent-marked (some text) s c in
      record { visits_unique = d.visits_unique; reads = d.reads; skims = d.skims }

  IsConsistent-run :
      (force : Bool) (handshake : Option Text) (s : Session)
      → IsConsistent s.db
      → IsConsistent (run env is_recent pull_logs force handshake s).0.db
  unfolding run
  IsConsistent-run force handshake s c =
      choose (not force && should_skip is_recent env.machine_id s.db)
    where
      choose :
          (b : Bool)
          → IsConsistent
              (if b
                then (s, 0)
                else after_handshake env is_recent pull_logs handshake
                    (commit env is_recent pull_logs (marked env is_recent pull_logs none s))).0.db
      choose true = c
      choose false = IsConsistent-after_handshake handshake _ (IsConsistent-marked none s c)

saved_lem :
    (machine_id : Text) (skips : Bool) (error : Option Text) (s : Session) (r : Session × ℕ)
    → s.saved ≡ s.db
    → Ended machine_id skips error s r
    → r.0.saved ≡ r.0.db
saved_lem machine_id skips error s r clean (skipped h e) = rw e clean
saved_lem machine_id skips error s r clean (succeeded h e code saved shown) = saved
saved_lem machine_id skips error s r clean (failed text h e code saved shown) = saved

-- A sync that starts on a consistent database, with nothing uncommitted, leaves a consistent one with
-- nothing uncommitted, whichever way it ends: refused, skipped, or stopped by an exception of the
-- handshake, the push or the pull.
pub main-IsConsistent :
    (env : Peer) (is_recent : Text → Option Bool)
    (pull_logs : List PeerCursor → List Chunk × Option Text) (start : Start) (s : Session)
    → s.saved ≡ s.db
    → IsConsistent s.db
    → IsConsistent (main env is_recent pull_logs start s).0.saved
      × ((main env is_recent pull_logs start s).0.saved
          ≡ (main env is_recent pull_logs start s).0.db)
unfolding main
main-IsConsistent env is_recent pull_logs start s clean c = started (refused start)
  where
    settled :
        (r : Session × ℕ)
        → r.0.saved ≡ r.0.db
        → IsConsistent r.0.db
        → IsConsistent r.0.saved × (r.0.saved ≡ r.0.db)
    settled r e d = (subst IsConsistent (sym e) d, e)

    started :
        (o : Option ℕ)
        → IsConsistent (unless_refused env is_recent pull_logs start s o).0.saved
          × ((unless_refused env is_recent pull_logs start s o).0.saved
              ≡ (unless_refused env is_recent pull_logs start s o).0.db)
    started (some code) = settled (s, code) clean c
    started none =
        settled (run (peer_of env start) is_recent pull_logs start.force start.handshake s)
          (saved_lem (or_empty start.machine_id) _ _ s _ clean
            (run-Ended (peer_of env start) is_recent pull_logs start.force start.handshake s))
          (IsConsistent-run (peer_of env start) is_recent pull_logs start.force start.handshake s c)

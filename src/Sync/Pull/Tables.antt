-- ===== src/Sync/Pull/Tables.antt =====
-- What a pull does to the visits and the events.
use browser_visit_logger.Base.{
  List, [], ◌∷◌, text_eq, Text, map, ◌++◌, Option, ◌≡◌, ap, refl, ◌∙◌, arith, some, none, sym,
}
use browser_visit_logger.Sync.Replay.Recovery.{replay_all}
use browser_visit_logger.Sync.Pull.{
  Chunk, pull_lines, PeerCursor, do_pull, pull_chunks, pull_chunk, peer_cursor, ended,
}
use browser_visit_logger.Sync.Push.{LogLine, Peer, Session}
use browser_visit_logger.Database.{SyncState, Db, Visit, Events, Tag, Event, read, skimmed}
use browser_visit_logger.Host.{record_event, insert_visit}
use browser_visit_logger.Sync.Replay.Entries.{
  apply_entry, apply_mark, Mark, replay_fields_lem, filed, Entry, apply_found, plain, interest,
  entry_of,
}
use browser_visit_logger.Sync.Replay.{replay_into_db, pulled_event}
use mathlib.Core.List.{flat_map}
use browser_visit_logger.Base.Strings.{split, tab}
use browser_visit_logger.Sync.Cursors.{clear_error, set_cursor, record_error}

-- The tables that lines are applied to.
abbrev pub tables : Db → List Visit × Events × Events
tables db = (db.visits, db.read_events, db.skimmed_events)

module _ (states : List SyncState) where
  abbrev placed : Db → Db
  placed db = record db { sync_state = states }

  placed-record_event :
      (tag : Tag) (e : Event) (db : Db)
      → record_event tag e (placed db) ≡ placed (record_event tag e db)
  unfolding record_event
  placed-record_event read e db = ground arith
  placed-record_event skimmed e db = ground arith

  placed-apply_mark :
      (url timestamp : Text) (m : Mark) (db : Db)
      → apply_mark url timestamp m (placed db) ≡ placed (apply_mark url timestamp m db)
  unfolding apply_mark
  placed-apply_mark url timestamp plain db = refl
  placed-apply_mark url timestamp interest db = refl
  placed-apply_mark url timestamp (filed read f) db =
      placed-record_event read (pulled_event read db url timestamp f) db
  placed-apply_mark url timestamp (filed skimmed f) db =
      placed-record_event skimmed (pulled_event skimmed db url timestamp f) db

  placed-apply_found :
      (o : Option Entry) (db : Db) → apply_found o (placed db) ≡ placed (apply_found o db)
  unfolding apply_entry insert_visit
  placed-apply_found none db = refl
  placed-apply_found (some e) db =
      placed-apply_mark e.url e.timestamp e.mark (insert_visit e.timestamp e.url e.title db)

  placed-replay_into_db :
      (raw : Text) (db : Db) → replay_into_db raw (placed db) ≡ placed (replay_into_db raw db)
  unfolding replay_into_db
  placed-replay_into_db raw db =
      replay_fields_lem (split tab raw) (placed db)
      ∙ placed-apply_found (entry_of (split tab raw)) db
      ∙ ap placed (sym (replay_fields_lem (split tab raw) db))

  -- Lines are applied without a look at the cursors.
  placed-replay_all :
      (ls : List Text) (db : Db) → replay_all ls (placed db) ≡ placed (replay_all ls db)
  unfolding replay_all
  placed-replay_all [] db = refl
  placed-replay_all (l ∷ ls) db =
      ap (replay_all ls) (placed-replay_into_db l db) ∙ placed-replay_all ls (replay_into_db l db)

abbrev pub raw_lines : List LogLine → List Text
raw_lines ls = map (λ l. l.raw_line) ls

db-pull_lines :
    (dir peer : Text) (ls : List LogLine) (s : Session)
    → (pull_lines dir peer ls s).db ≡ replay_all (raw_lines ls) s.db
unfolding pull_lines replay_all
db-pull_lines dir peer [] s = refl
db-pull_lines dir peer (l ∷ ls) s = db-pull_lines dir peer ls _

replay_all-append :
    (ls ms : List Text) (db : Db) → replay_all (ls ++ ms) db ≡ replay_all ms (replay_all ls db)
unfolding replay_all
replay_all-append [] ms db = refl
replay_all-append (l ∷ ls) ms db = replay_all-append ls ms (replay_into_db l db)

-- The lines of a stream, of whichever peer.
abbrev pub brought : List Chunk → List Text
brought chunks = flat_map (λ c. raw_lines c.lines) chunks

module _ (env : Peer) (pull_logs : List PeerCursor → List Chunk × Option Text) where
  tables-pull_chunks :
      (cs : List Chunk) (s : Session)
      → tables (pull_chunks env pull_logs cs s).db ≡ tables (replay_all (brought cs) s.db)
  unfolding pull_chunks pull_chunk flat_map replay_all set_cursor
  tables-pull_chunks [] s = refl
  tables-pull_chunks (c ∷ cs) s =
      tables-pull_chunks cs (pull_chunk env pull_logs c s)
      ∙ ap tables (
          placed-replay_all _ (brought cs)
            (pull_lines env.peer_logs_dir c.peer_machine_id c.lines s).db)
      ∙ ap (λ d. tables (replay_all (brought cs) d))
          (db-pull_lines env.peer_logs_dir c.peer_machine_id c.lines s)
      ∙ ap tables (sym (replay_all-append (raw_lines c.lines) (brought cs) s.db))

  -- A pull applies the lines of the stream in the order in which they arrive, also those before an
  -- exception that ends the stream early.
  pub do_pull_applies_lines :
      (s : Session)
      → tables (do_pull env pull_logs s).0.db
        ≡ tables (replay_all (brought (pull_logs (map peer_cursor s.db.sync_state)).0) s.db)
  unfolding do_pull clear_error record_error
  do_pull_applies_lines s = kept answer.1 ∙ tables-pull_chunks answer.0 s
    where
      answer : List Chunk × Option Text
      answer = pull_logs (map peer_cursor s.db.sync_state)

      kept :
          (x : Option Text)
          → tables (ended env pull_logs (pull_chunks env pull_logs answer.0 s) x).0.db
            ≡ tables (pull_chunks env pull_logs answer.0 s).db
      kept none = refl
      kept (some t) = refl

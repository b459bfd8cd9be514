-- ===== src/Sync/Pull/Place.antt =====
-- Where a pull leaves the cursors of the peers.
use browser_visit_logger.Base.{
  List, [], ◌∷◌, text_eq, true, false, Text, ◌≡◌, Option, if◌then◌else◌, ◌==◌, ap, refl, arith, ◌∙◌,
  ◌++◌, sym, some, none, Bool, map,
}
use browser_visit_logger.Sync.Replay.Entries.{
  apply_mark, apply_entry, Mark, Entry, filed, replay_fields_lem, apply_found, plain, interest,
  entry_of,
}
use browser_visit_logger.Sync.Push.{cursor_after, Peer, LogLine, Session}
use browser_visit_logger.Sync.Pull.{
  pull_lines, Chunk, PeerCursor, pull_chunks, pull_chunk, do_pull, peer_cursor, ended,
}
use browser_visit_logger.Sync.Cursors.{
  get_cursor, set_cursor, Cursor, cursor_of, clear_error, record_error,
}
use browser_visit_logger.Host.{record_event, insert_visit}
use browser_visit_logger.Sync.Replay.{replay_into_db, pulled_event}
use browser_visit_logger.Database.{Tag, Db, Event, read, at_line, skimmed}
use mathlib.Core.List.{flat_map}
use browser_visit_logger.Base.Table.Upserts.{first-upsert_other}
use browser_visit_logger.Base.Strings.{split, tab}
use browser_visit_logger.Sync.Push.Place.{get_cursor-set_cursor}
use mathlib.Core.Path.{subst}

sync_state-record_event :
    (tag : Tag) (e : Event) (db : Db) → (record_event tag e db).sync_state ≡ db.sync_state
unfolding record_event
sync_state-record_event read e db = ground arith
sync_state-record_event skimmed e db = ground arith

sync_state-apply_mark :
    (url timestamp : Text) (m : Mark) (db : Db)
    → (apply_mark url timestamp m db).sync_state ≡ db.sync_state
unfolding apply_mark
sync_state-apply_mark url timestamp plain db = refl
sync_state-apply_mark url timestamp interest db = refl
sync_state-apply_mark url timestamp (filed tag f) db =
    sync_state-record_event tag (pulled_event tag db url timestamp f) db

sync_state-apply_found :
    (o : Option Entry) (db : Db) → (apply_found o db).sync_state ≡ db.sync_state
unfolding apply_entry insert_visit
sync_state-apply_found none db = refl
sync_state-apply_found (some e) db =
    sync_state-apply_mark e.url e.timestamp e.mark (insert_visit e.timestamp e.url e.title db)

sync_state-replay_into_db :
    (raw : Text) (db : Db) → (replay_into_db raw db).sync_state ≡ db.sync_state
unfolding replay_into_db
sync_state-replay_into_db raw db =
    ap (λ (d : Db). d.sync_state) (replay_fields_lem (split tab raw) db)
    ∙ sync_state-apply_found (entry_of (split tab raw)) db

sync_state-pull_lines :
    (dir peer : Text) (ls : List LogLine) (s : Session)
    → (pull_lines dir peer ls s).db.sync_state ≡ s.db.sync_state
unfolding pull_lines
sync_state-pull_lines dir peer [] s = refl
sync_state-pull_lines dir peer (l ∷ ls) s =
    sync_state-pull_lines dir peer ls _ ∙ sync_state-replay_into_db l.raw_line s.db

-- The cursor of another machine is found as before.
get_cursor-set_cursor_other :
    (machine_id other : Text) (cursor : Cursor) (now : Text) (db : Db)
    → (machine_id == other) ≡ false
    → get_cursor other (set_cursor machine_id cursor now db) ≡ get_cursor other db
unfolding get_cursor set_cursor
get_cursor-set_cursor_other machine_id other (date, offset) now db h = ap cursor_of (
    first-upsert_other (λ s. s.machine_id == machine_id) _ _ (λ s. s.machine_id == other)
      db.sync_state (λ r k. ground arith) (λ r k. ground arith) h)

-- The lines of the chunks of one peer.
abbrev pub lines_of : Text → List Chunk → List LogLine
lines_of peer chunks = flat_map (λ c. if c.peer_machine_id == peer then c.lines else []) chunks

pub cursor_after-append :
    (ls ms : List LogLine) (c : Cursor)
    → cursor_after (ls ++ ms) c ≡ cursor_after ms (cursor_after ls c)
unfolding cursor_after
cursor_after-append [] ms c = refl
cursor_after-append (l ∷ ls) ms c = cursor_after-append ls ms (l.date, at_line l.line_offset)

same_cursors :
    (machine_id : Text) (a b : Db)
    → a.sync_state ≡ b.sync_state
    → get_cursor machine_id a ≡ get_cursor machine_id b
unfolding get_cursor
same_cursors machine_id a b e = rw e refl

placed_here :
    (peer : Text) (ls : List LogLine) (t d : Db) (now : Text)
    → get_cursor peer (set_cursor peer (cursor_after ls (get_cursor peer d)) now t)
      ≡ cursor_after ls (get_cursor peer d)
placed_here peer ls t d now = get_cursor-set_cursor peer (cursor_after ls (get_cursor peer d)) now t

placed_by :
    (q peer : Text) (ls : List LogLine) (t d : Db) (now : Text) (b : Bool)
    → (q == peer) ≡ b
    → t.sync_state ≡ d.sync_state
    → get_cursor peer (set_cursor q (cursor_after ls (get_cursor q d)) now t)
      ≡ cursor_after (if b then ls else []) (get_cursor peer d)
unfolding cursor_after
placed_by q peer ls t d now true e same =
    let here : q ≡ peer = ground arith in
    subst
      (λ x.
        get_cursor peer (set_cursor x (cursor_after ls (get_cursor x d)) now t)
        ≡ cursor_after ls (get_cursor peer d))
      (sym here) (placed_here peer ls t d now)
placed_by q peer ls t d now false e same =
    get_cursor-set_cursor_other q peer (cursor_after ls (get_cursor q d)) now t e
    ∙ same_cursors peer t d same

module _ (env : Peer) (pull_logs : List PeerCursor → List Chunk × Option Text) (peer : Text) where
  get_cursor-pull_chunk :
      (c : Chunk) (s : Session)
      → get_cursor peer (pull_chunk env pull_logs c s).db
        ≡ cursor_after (if c.peer_machine_id == peer then c.lines else []) (get_cursor peer s.db)
  unfolding pull_chunk
  get_cursor-pull_chunk c s =
      placed_by c.peer_machine_id peer c.lines
        (pull_lines env.peer_logs_dir c.peer_machine_id c.lines s).db s.db
        (env.now (pull_lines env.peer_logs_dir c.peer_machine_id c.lines s).tick)
        (c.peer_machine_id == peer) refl
        (sync_state-pull_lines env.peer_logs_dir c.peer_machine_id c.lines s)

  get_cursor-pull_chunks :
      (cs : List Chunk) (s : Session)
      → get_cursor peer (pull_chunks env pull_logs cs s).db
        ≡ cursor_after (lines_of peer cs) (get_cursor peer s.db)
  unfolding pull_chunks flat_map cursor_after
  get_cursor-pull_chunks [] s = refl
  get_cursor-pull_chunks (c ∷ cs) s =
      get_cursor-pull_chunks cs (pull_chunk env pull_logs c s)
      ∙ ap (cursor_after (lines_of peer cs)) (get_cursor-pull_chunk c s)
      ∙ sym (
          cursor_after-append (if c.peer_machine_id == peer then c.lines else []) (lines_of peer cs)
            (get_cursor peer s.db))

  -- After a pull, whether the stream ended early or not, the cursor of a peer stands on the last line
  -- that the stream brought of that peer, or where it was if it brought none.
  pub do_pull_moves_cursors :
      (s : Session)
      → get_cursor peer (do_pull env pull_logs s).0.db
        ≡ cursor_after
            (lines_of peer (pull_logs (map peer_cursor s.db.sync_state)).0)
            (get_cursor peer s.db)
  unfolding do_pull clear_error record_error
  do_pull_moves_cursors s =
      same_cursors peer (do_pull env pull_logs s).0.db (pull_chunks env pull_logs answer.0 s).db
        (kept answer.1)
      ∙ get_cursor-pull_chunks answer.0 s
    where
      answer : List Chunk × Option Text
      answer = pull_logs (map peer_cursor s.db.sync_state)

      kept :
          (x : Option Text)
          → (ended env pull_logs (pull_chunks env pull_logs answer.0 s) x).0.db.sync_state
            ≡ (pull_chunks env pull_logs answer.0 s).db.sync_state
      kept none = refl
      kept (some t) = refl

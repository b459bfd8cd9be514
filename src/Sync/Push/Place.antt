-- ===== src/Sync/Push/Place.antt =====
-- Where `do_push` leaves the machine's cursor.
use browser_visit_logger.Base.{
  ◌==◌, some, none, Option, List, [], ◌∷◌, text_eq, nat_eq, Text, Option, ◌≡◌, arith, true, ◌∙◌,
  Bool, if◌then◌else◌, some, ◌+◌, ◌++◌, leb, sym, false, refl, length, none, ap,
}
use browser_visit_logger.Sync.Cursors.{
  get_cursor, set_cursor, Cursor, clear_error, record_error, cursor_of,
}
use browser_visit_logger.Sync.Push.{
  Peer, push_lines, LogLine, send_push, Session, same_cursor, moved, and_then, batch_size, do_push,
  cursor_after, lines_to_push,
}
use browser_visit_logger.Database.{before_first, at_line, Db, SyncState}
use browser_visit_logger.Base.Table.{first, upsert}
use browser_visit_logger.Sync.Push.Behind.{
  lines_behind, last_place, lines_to_push_lem, cursor_after_lem,
}
use browser_visit_logger.Base.Table.Upserts.{upserted, first-upsert}

placed :
    (p : SyncState → Bool) (f : SyncState → SyncState) (new : SyncState) (c : Cursor)
    → ((r : SyncState) → p (f r) ≡ p r)
    → ((r : SyncState) → cursor_of (some (f r)) ≡ c)
    → p new ≡ true
    → cursor_of (some new) ≡ c
    → (rows : List SyncState) → cursor_of (first p (upsert p f new rows)) ≡ c
placed p f new c same at_old hit at_new rows =
    ap cursor_of (first-upsert p f new rows same hit) ∙ one (first p rows)
  where
    one : (o : Option SyncState) → cursor_of (some (upserted p f new o)) ≡ c
    one none = at_new
    one (some r) = at_old r

-- The cursor that was set is the one that is found.
pub get_cursor-set_cursor :
    (machine_id : Text) (cursor : Cursor) (now : Text) (db : Db)
    → get_cursor machine_id (set_cursor machine_id cursor now db) ≡ cursor
unfolding get_cursor set_cursor
get_cursor-set_cursor machine_id (date, offset) now db =
    placed (λ s. s.machine_id == machine_id) _ _ (date, offset) (λ r. refl) (λ r. refl)
      (ground arith) refl db.sync_state

-- What every request keeps of the database, the whole push keeps until its end.
module _ {ℓ} {X : Type ℓ} (env : Peer) (view : Db → X)
    (request_keeps : (lines : List LogLine) (s : Session)
      → view (send_push env lines s).0.db ≡ view s.db) where
  abbrev Keeping : List LogLine → Type ℓ
  Keeping ls =
      (batch : List LogLine) (s : Session) → view (push_lines env ls batch s).0.db ≡ view s.db

  pub push_lines_keeps : (ls : List LogLine) → Keeping ls
  unfolding push_lines
  push_lines_keeps [] [] s = refl
  push_lines_keeps [] (b ∷ bs) s = request_keeps (b ∷ bs) s
  push_lines_keeps (l ∷ ls) batch s =
      choose (push_lines_keeps ls) (leb batch_size (length (batch ++ l ∷ [])))
    where
      full :
          Keeping ls
          → (r : Session × Option Text) → view r.0.db ≡ view s.db
          → view (and_then (push_lines env ls []) r).0.db ≡ view s.db
      full ih (t, none) e = ih [] t ∙ e
      full ih (t, some x) e = e

      choose :
          Keeping ls
          → (b : Bool)
          → view
              (if b
                then and_then (push_lines env ls []) (send_push env (batch ++ l ∷ []) s)
                else push_lines env ls (batch ++ l ∷ []) s).0.db
            ≡ view s.db
      choose ih true =
          full ih (send_push env (batch ++ l ∷ []) s) (request_keeps (batch ++ l ∷ []) s)
      choose ih false = ih (batch ++ l ∷ []) s

module _ (env : Peer) where
  send_push_keeps :
      (lines : List LogLine) (s : Session)
      → (send_push env lines s).0.db.sync_state ≡ s.db.sync_state
  unfolding send_push clear_error record_error
  send_push_keeps lines s = ground arith

  states_kept :
      (lines : List LogLine) (s : Session)
      → (push_lines env lines [] s).0.db.sync_state ≡ s.db.sync_state
  states_kept lines s = push_lines_keeps env (λ (d : Db). d.sync_state) send_push_keeps lines [] s

  same_cursor_lem : (c d : Cursor) → same_cursor c d ≡ true → c ≡ d
  same_cursor_lem (a, before_first) (b, before_first) h = ground arith
  same_cursor_lem (a, before_first) (b, at_line k) h = ground arith
  same_cursor_lem (a, at_line k) (b, before_first) h = ground arith
  same_cursor_lem (a, at_line k) (b, at_line j) h = ground arith

  get_cursor-moved :
      (cursor last : Cursor) (s : Session)
      → get_cursor env.machine_id s.db ≡ cursor
      → get_cursor env.machine_id (moved env cursor last s).db ≡ last
  get_cursor-moved cursor last s h = one (same_cursor last cursor) refl
    where
      one :
          (b : Bool)
          → same_cursor last cursor ≡ b
          → get_cursor env.machine_id
              (if b then s else record s {
                db = set_cursor env.machine_id last (env.now s.tick) s.db;
                tick = s.tick + 1;
              }).db
            ≡ last
      one true e = h ∙ sym (same_cursor_lem last cursor e)
      one false e = get_cursor-set_cursor env.machine_id last (env.now s.tick) s.db

  abbrev end_of : Session → List LogLine → Session × Option Text → Session × Option Text
  end_of s lines r =
      and_then
        (λ t. (
          moved env (get_cursor env.machine_id s.db)
              (cursor_after lines (get_cursor env.machine_id s.db)) t,
          none,
        ))
        r

  same_place :
      (s t : Session)
      → t.db.sync_state ≡ s.db.sync_state
      → get_cursor env.machine_id t.db ≡ get_cursor env.machine_id s.db
  unfolding get_cursor
  same_place s t e = rw e refl

  -- A push that ends without an exception leaves the machine's cursor on the last line behind the
  -- old cursor, of all lines of all local logs, or where it was if no line stands behind it.
  pub do_push_moves_cursor :
      (s : Session)
      → (do_push env s).1 ≡ none
      → get_cursor env.machine_id (do_push env s).0.db
        ≡ last_place
            (lines_behind env.log_dir (get_cursor env.machine_id s.db) s.fs)
            (get_cursor env.machine_id s.db)
  unfolding do_push
  do_push_moves_cursor s h =
      one (push_lines env lines [] s) (states_kept lines s) h
      ∙ cursor_after_lem lines (get_cursor env.machine_id s.db)
      ∙ ap (λ ls. last_place ls (get_cursor env.machine_id s.db))
          (lines_to_push_lem env.log_dir (get_cursor env.machine_id s.db) s.fs)
    where
      lines : List LogLine
      lines = lines_to_push env.log_dir (get_cursor env.machine_id s.db) s.fs

      one :
          (r : Session × Option Text)
          → r.0.db.sync_state ≡ s.db.sync_state
          → (end_of s lines r).1 ≡ none
          → get_cursor env.machine_id (end_of s lines r).0.db
            ≡ cursor_after lines (get_cursor env.machine_id s.db)
      one (t, none) e h = get_cursor-moved _ _ t (same_place s t e)
      one (t, some x) e h = ground arith

  -- A push that ends with an exception leaves every machine's cursor where it was.
  pub do_push_keeps_cursors_on_failure :
      (s : Session) (text : Text)
      → (do_push env s).1 ≡ some text
      → (do_push env s).0.db.sync_state ≡ s.db.sync_state
  unfolding do_push
  do_push_keeps_cursors_on_failure s text h =
      one (push_lines env lines [] s) (states_kept lines s) h
    where
      lines : List LogLine
      lines = lines_to_push env.log_dir (get_cursor env.machine_id s.db) s.fs

      one :
          (r : Session × Option Text)
          → r.0.db.sync_state ≡ s.db.sync_state
          → (end_of s lines r).1 ≡ some text
          → (end_of s lines r).0.db.sync_state ≡ s.db.sync_state
      one (t, none) e h = ground arith
      one (t, some x) e h = e

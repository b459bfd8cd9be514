-- ===== src/Rebuilder/Replay/Pairing.antt =====
-- Which actions a replay applies, said without the dict `pending`: a success line applies the last
-- action line of its id that no earlier result line has taken, in whichever file that stands.
use browser_visit_logger.Base.{
  ◌≡◌, refl, ◌∙◌, Text, Bool, true, false, Option, none, some, List, [], ◌∷◌, ◌++◌, arith, text_eq,
  append_assoc, if◌then◌else◌, ◌==◌, Option-cases, inl, inr, ap, map,
}
use browser_visit_logger.Rebuilder.Lines.{Action, Line, blank, malformed, result, action, classify}
use browser_visit_logger.Host.{insert_visit, tag_visit, insert_event, record_event}
use browser_visit_logger.Database.{Db, Snapshot, Tag, read, skimmed, Event}
use browser_visit_logger.Rebuilder.Replay.{
  replay_line, apply_action, replay_lines, Replay, settle, note_day, replay_files, replay_logs,
  replay_one_file, no_stats,
}
use browser_visit_logger.Paths.{basename}
use browser_visit_logger.Base.Dict.{
  Dict, NodupKeys, get, pop, pop-NodupKeys, get-pop, put-NodupKeys, get-put,
}
use browser_visit_logger.Base.Strings.{file_lines}

-- The lines before, the last one first.
unfoldable pub open_action : Text → List Line → Option Action
unfolding text_eq
open_action r [] = none
open_action r (blank ∷ past) = open_action r past
open_action r (malformed ∷ past) = open_action r past
open_action r (result id success ∷ past) =
    let rest = open_action r past in if id == r then none else rest
open_action r (action id a ∷ past) =
    let rest = open_action r past in if id == r then some a else rest

abbrev onto : Option Action → List Action → List Action
onto none rest = rest
onto (some a) rest = a ∷ rest

unfoldable pub paired : List Line → List Line → List Action
unfolding open_action
paired past [] = []
paired past (result r true ∷ ls) = onto (open_action r past) (paired (result r true ∷ past) ls)
paired past (l ∷ ls) = paired (l ∷ past) ls

module _ (downloads : Text) where
  unfoldable pub apply_all : List Action → Db → Db
  unfolding apply_action
  apply_all [] db = db
  apply_all (a ∷ acts) db = apply_all acts (apply_action downloads a db)

abbrev with_snapshots : List Snapshot → Db → Db
with_snapshots days db = record db { snapshots = days }

module _ (downloads : Text) (days : List Snapshot) where
  record_event-with_snapshots :
      (tag : Tag) (e : Event) (db : Db)
      → record_event tag e (with_snapshots days db) ≡ with_snapshots days (record_event tag e db)
  unfolding record_event
  record_event-with_snapshots read e db = ground arith
  record_event-with_snapshots skimmed e db = ground arith

  insert_event-with_snapshots :
      (tag : Tag) (url timestamp filename : Text) (db : Db)
      → (insert_event downloads tag url timestamp filename (with_snapshots days db)).0
        ≡ with_snapshots days (insert_event downloads tag url timestamp filename db).0
  unfolding insert_event
  insert_event-with_snapshots tag url timestamp filename db = ground (
    arith,
    record_event-with_snapshots tag
        (record {
          url = url;
          timestamp = timestamp;
          filename = basename filename;
          directory = downloads;
        })
        db,
  )

  tag_visit-with_snapshots :
      (url tag timestamp filename : Text) (db : Db)
      → (tag_visit downloads url tag timestamp filename (with_snapshots days db)).0
        ≡ with_snapshots days (tag_visit downloads url tag timestamp filename db).0
  unfolding tag_visit
  tag_visit-with_snapshots url tag timestamp filename db = ground (
    arith,
    insert_event-with_snapshots read url timestamp filename db,
    insert_event-with_snapshots skimmed url timestamp filename db,
  )

  apply_action-with_snapshots :
      (a : Action) (db : Db)
      → apply_action downloads a (with_snapshots days db)
        ≡ with_snapshots days (apply_action downloads a db)
  unfolding apply_action insert_visit
  apply_action-with_snapshots a db = ground (
    arith,
    tag_visit-with_snapshots a.url a.tag a.timestamp a.filename
        (insert_visit a.timestamp a.url a.title db),
  )

  apply_all-with_snapshots :
      (acts : List Action) (db : Db)
      → apply_all downloads acts (with_snapshots days db)
        ≡ with_snapshots days (apply_all downloads acts db)
  unfolding apply_all
  apply_all-with_snapshots [] db = refl
  apply_all-with_snapshots (a ∷ acts) db =
      rw (apply_action-with_snapshots a db)
        (apply_all-with_snapshots acts (apply_action downloads a db))

-- The dict holds, for each id, the action that is open after the lines read so far.
record Waits (past : List Line) (pending : Dict Action) : Type 0 where
  nodup : NodupKeys pending
  open_at : (r : Text) → get r pending ≡ open_action r past

-- The lines read after some more, the last one first.
behind : List Line → List Line → List Line
behind past [] = past
behind past (l ∷ ls) = behind (l ∷ past) ls

module _ (downloads : Text) where
  Waits-replay_line :
      (l : Line) (past : List Line) (s : Replay)
      → Waits past s.pending
      → Waits (l ∷ past) (replay_line downloads l s).pending
  unfolding replay_line open_action
  Waits-replay_line blank past s w = record { nodup = w.nodup; open_at = w.open_at }
  Waits-replay_line malformed past s w = record { nodup = w.nodup; open_at = w.open_at }
  Waits-replay_line (result id success) past s w = elim (Option-cases (get id s.pending)) [
    | inl e ↦
        rw (e, replay_line) (record { nodup = w.nodup; open_at = λ r. ground (arith, w.open_at r) })
    | inr (a, e) ↦
        rw (e, replay_line)
          (settled_pending success a (record {
            nodup = pop-NodupKeys id s.pending w.nodup;
            open_at = λ r. ground (arith, w.open_at r, get-pop r id s.pending w.nodup);
          }))
  ]
    where
      settled_pending :
          (success : Bool) (a : Action)
          → Waits (result id success ∷ past) (pop id s.pending)
          → Waits
              (result id success ∷ past)
              (settle downloads success a (record s { pending = pop id s.pending })).pending
      settled_pending true a h = h
      settled_pending false a h = h
  Waits-replay_line (action id a) past s w = elim (Option-cases (get id s.pending)) [
    | inl e ↦
        rw (e, replay_line)
          (record {
            nodup = put-NodupKeys id a s.pending w.nodup;
            open_at = λ r. ground (arith, w.open_at r, get-put r id a s.pending);
          })
    | inr (b, e) ↦
        rw (e, replay_line)
          (record {
            nodup = put-NodupKeys id a s.pending w.nodup;
            open_at = λ r. ground (arith, w.open_at r, get-put r id a s.pending);
          })
  ]

  Waits-replay_lines :
      (ls past : List Line) (s : Replay)
      → Waits past s.pending
      → Waits (behind past ls) (replay_lines downloads ls s).pending
  unfolding replay_lines behind
  Waits-replay_lines [] past s w = w
  Waits-replay_lines (l ∷ ls) past s w =
      Waits-replay_lines ls (l ∷ past) (replay_line downloads l s) (Waits-replay_line l past s w)

  -- One line applies the action that it takes, if it takes one.
  db-replay_line :
      (l : Line) (past : List Line) (s : Replay)
      → Waits past s.pending
      → (replay_line downloads l s).db ≡ apply_all downloads (paired past (l ∷ [])) s.db
  unfolding replay_line apply_all paired
  db-replay_line blank past s w = refl
  db-replay_line malformed past s w = refl
  db-replay_line (result r true) past s w = ground (arith, w.open_at r)
  db-replay_line (result r false) past s w = ground (arith, w.open_at r)
  db-replay_line (action r a) past s w = ground (arith, w.open_at r)

  apply_all-append :
      (xs ys : List Action) (db : Db)
      → apply_all downloads (xs ++ ys) db ≡ apply_all downloads ys (apply_all downloads xs db)
  unfolding apply_all
  apply_all-append [] ys db = refl
  apply_all-append (x ∷ xs) ys db = apply_all-append xs ys (apply_action downloads x db)

paired-cons :
    (l : Line) (past ls : List Line)
    → paired past (l ∷ ls) ≡ paired past (l ∷ []) ++ paired (l ∷ past) ls
unfolding paired
paired-cons blank past ls = refl
paired-cons malformed past ls = refl
paired-cons (result r true) past ls = ground arith
paired-cons (result r false) past ls = refl
paired-cons (action r a) past ls = refl

paired-append :
    (past ls ms : List Line) → paired past (ls ++ ms) ≡ paired past ls ++ paired (behind past ls) ms
unfolding behind
paired-append past [] ms = unfold paired in refl
paired-append past (l ∷ ls) ms =
    rw
      (
        paired-cons l past (ls ++ ms),
        paired-cons l past ls,
        paired-append (l ∷ past) ls ms,
        append_assoc,
      )
      refl

module _ (downloads : Text) where
  db-replay_lines :
      (ls past : List Line) (s : Replay)
      → Waits past s.pending
      → (replay_lines downloads ls s).db ≡ apply_all downloads (paired past ls) s.db
  unfolding replay_lines
  db-replay_lines [] past s w = unfold paired apply_all in refl
  db-replay_lines (l ∷ ls) past s w =
      db-replay_lines ls (l ∷ past) (replay_line downloads l s)
        (Waits-replay_line downloads l past s w)
      ∙ rw (db-replay_line downloads l past s w, paired-cons l past ls, apply_all-append) refl

-- The lines of all the files, in order, and the days that the files are for.
pub all_lines : List (Text × Text) → List Line
all_lines [] = []
all_lines ((date, content) ∷ files) = map classify (file_lines content) ++ all_lines files

pub note_days : List (Text × Text) → List Snapshot → List Snapshot
unfolding note_day
note_days [] days = days
note_days ((date, content) ∷ files) days = note_days files (note_day date days)

module _ (downloads : Text) where
  snapshots-apply_all :
      (acts : List Action) (db : Db) → (apply_all downloads acts db).snapshots ≡ db.snapshots
  snapshots-apply_all acts db =
      ap (λ (d : Db). d.snapshots) (apply_all-with_snapshots downloads db.snapshots acts db)

  db-replay_files :
      (files : List (Text × Text)) (past : List Line) (s : Replay)
      → Waits past s.pending
      → (replay_files downloads files s).db
        ≡ with_snapshots
            (note_days files s.db.snapshots)
            (apply_all downloads (paired past (all_lines files)) s.db)
  unfolding replay_files replay_one_file all_lines note_days
  db-replay_files [] past s w = unfold paired apply_all in refl
  db-replay_files ((date, content) ∷ files) past s w =
      let lines = map classify (file_lines content) in
      let days = note_day date s.db.snapshots in
      let noted = record s { db = with_snapshots days s.db } in
      let done = replay_lines downloads lines noted in
      let here = apply_all downloads (paired past lines) s.db in
      let eq : done.db ≡ with_snapshots days here =
        db-replay_lines downloads lines past noted (record { nodup = w.nodup; open_at = w.open_at })
        ∙ apply_all-with_snapshots downloads days (paired past lines) s.db in
      db-replay_files files (behind past lines) done (
        Waits-replay_lines downloads lines past noted
          (record { nodup = w.nodup; open_at = w.open_at }))
      ∙ ap
          (λ (d : Db).
            with_snapshots (note_days files d.snapshots)
              (apply_all downloads (paired (behind past lines) (all_lines files)) d))
          eq
      ∙ ap (with_snapshots (note_days files days)) (
          apply_all-with_snapshots downloads days (paired (behind past lines) (all_lines files))
            here)
      ∙ rw (paired-append past lines (all_lines files), apply_all-append) refl

  -- Replaying the logs applies the paired actions of all their lines, in the order of the success
  -- lines and whatever the split into files, and notes each file's day in `snapshots`: actions with an
  -- error result or with none leave no trace.
  pub replay_logs_applies_paired_actions :
      (files : List (Text × Text)) (db : Db)
      → (replay_logs downloads files db).0
        ≡ record (apply_all downloads (paired [] (all_lines files)) db) {
          snapshots = note_days files db.snapshots;
        }
  unfolding replay_logs open_action
  replay_logs_applies_paired_actions files db =
      db-replay_files files [] (record { db = db; pending = []; stats = no_stats })
        (record { nodup = tt; open_at = λ r. unfold get in refl })

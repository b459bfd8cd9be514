-- ===== src/Rebuilder/Replay.antt =====
-- Phase 1: `_replay_one_file`, `replay_logs` and `_apply_action`.
pub mod Accounting
pub mod Pairing
pub mod Consistency
use browser_visit_logger.Base.{
  ℕ, ◌+◌, Text, Bool, true, false, not, Option, none, some, List, [], ◌∷◌, ◌++◌, ◌==◌, text_eq,
  if◌then◌else◌, length, is_empty, ltb, map, ◌||◌,
}
use browser_visit_logger.Base.Strings.{codes, file_lines}
use browser_visit_logger.Base.Dict.{Dict, get, put, pop}
use browser_visit_logger.Base.Table.{update, insert_or_ignore}
use browser_visit_logger.Database.{Snapshot, Db}
use browser_visit_logger.Host.{visit_of, mark_of_interest, insert_visit, tag_visit}
use browser_visit_logger.Rebuilder.Lines.{Action, Line, blank, malformed, result, action, classify}

pub record ReplayStats : Type 0 where
  pub visits_inserted : ℕ
  pub of_interest_set : ℕ
  pub read_events : ℕ
  pub skimmed_events : ℕ
  pub success_records : ℕ
  pub error_records : ℕ
  pub orphan_actions : ℕ
  pub orphan_results : ℕ
  pub malformed_lines : ℕ

abbrev pub no_stats : ReplayStats
no_stats = record {
  visits_inserted = 0;
  of_interest_set = 0;
  read_events = 0;
  skimmed_events = 0;
  success_records = 0;
  error_records = 0;
  orphan_actions = 0;
  orphan_results = 0;
  malformed_lines = 0;
}

unfoldable pub has_skipped_lines : ReplayStats → Bool
has_skipped_lines s = ltb 0 s.orphan_actions || ltb 0 s.orphan_results || ltb 0 s.malformed_lines

-- The variables of the loop: the connection, the dict `pending` and the statistics.
pub record Replay : Type 0 where
  pub db : Db
  pub pending : Dict Action
  pub stats : ReplayStats

-- The statistics after `_apply_action`.
unfoldable pub count_action : Action → ReplayStats → ReplayStats
unfolding text_eq
count_action a s =
    let seen = record s { visits_inserted = s.visits_inserted + 1 } in
    if a.tag == codes "of_interest"
    then record seen { of_interest_set = seen.of_interest_set + 1 }
    else if a.tag == codes "read"
    then record seen { read_events = seen.read_events + 1 }
    else if a.tag == codes "skimmed"
    then record seen { skimmed_events = seen.skimmed_events + 1 }
    else seen

-- `INSERT OR IGNORE INTO snapshots (date, sealed) VALUES (?, 0)`
unfoldable pub note_day : Text → List Snapshot → List Snapshot
unfolding insert_or_ignore text_eq
note_day date = insert_or_ignore (λ r. r.date == date) (record { date = date; sealed = 0 })

-- What is still waiting after the last file is an orphan.
unfoldable pub close_replay : Replay → Db × ReplayStats
close_replay s =
    (s.db, record s.stats { orphan_actions = s.stats.orphan_actions + length s.pending })

module _ (downloads : Text) where
  -- The database after `_apply_action`.
  unfoldable pub apply_action : Action → Db → Db
  unfolding insert_visit tag_visit update text_eq
  apply_action a db =
      let seen = insert_visit a.timestamp a.url a.title db in
      if a.tag == codes "of_interest"
      then record seen { visits = update (visit_of a.url) mark_of_interest seen.visits }
      else if a.tag == codes "read" || a.tag == codes "skimmed"
      then (tag_visit downloads a.url a.tag a.timestamp a.filename seen).0
      else seen

  -- A result line whose action was waiting.
  unfoldable pub settle : Bool → Action → Replay → Replay
  unfolding apply_action count_action
  settle true a s =
      let counted = count_action a s.stats in
      record s {
        db = apply_action a s.db;
        stats = record counted { success_records = counted.success_records + 1 };
      }
  settle false a s = record s {
    stats = record s.stats { error_records = s.stats.error_records + 1 };
  }

  -- One turn of the loop over the lines of a file.
  unfoldable pub replay_line : Line → Replay → Replay
  unfolding settle get put pop
  replay_line blank s = s
  replay_line malformed s = record s {
    stats = record s.stats { malformed_lines = s.stats.malformed_lines + 1 };
  }
  replay_line (result id success) s = elim (get id s.pending) [
    | none ↦ record s { stats = record s.stats { orphan_results = s.stats.orphan_results + 1 } }
    | some a ↦ settle success a (record s { pending = pop id s.pending })
  ]
  replay_line (action id a) s = elim (get id s.pending) [
    | none ↦ record s { pending = put id a s.pending }
    | some prior ↦ record s {
      pending = put id a s.pending;
      stats = record s.stats { orphan_actions = s.stats.orphan_actions + 1 };
    }
  ]

  unfoldable pub replay_lines : List Line → Replay → Replay
  unfolding replay_line
  replay_lines [] s = s
  replay_lines (l ∷ ls) s = replay_lines ls (replay_line l s)

  -- `_replay_one_file` on the content of the file
  unfoldable pub replay_one_file : Text → Replay → Replay
  unfolding replay_lines classify file_lines
  replay_one_file content s = replay_lines (map classify (file_lines content)) s

  -- The loop of `replay_logs`, over the dates and contents of the files.
  unfoldable pub replay_files : List (Text × Text) → Replay → Replay
  unfolding replay_one_file note_day
  replay_files [] s = s
  replay_files ((date, content) ∷ files) s =
      let noted = record s.db { snapshots = note_day date s.db.snapshots } in
      replay_files files (replay_one_file content (record s { db = noted }))

  -- `replay_logs` on the files that `_collect_log_paths` lists
  unfoldable pub replay_logs : List (Text × Text) → Db → Db × ReplayStats
  unfolding replay_files close_replay
  replay_logs files db =
      close_replay (replay_files files (record { db = db; pending = []; stats = no_stats }))

-- ===== src/Rebuilder/Replay/Accounting.antt =====
-- Every line of the logs is counted once in the statistics of the replay.
use browser_visit_logger.Base.{
  ℕ, ◌+◌, ◌*◌, ◌≡◌, Text, Bool, true, false, List, [], ◌∷◌, arith, map, length, Option-cases, inl,
  inr, ◌∙◌,
}
use browser_visit_logger.Rebuilder.Replay.{
  count_action, replay_line, ReplayStats, settle, replay_lines, Replay, replay_logs, replay_files,
  replay_one_file, note_day, no_stats,
}
use browser_visit_logger.Rebuilder.Lines.{Line, classify, Action, result, action, blank, malformed}
use browser_visit_logger.Base.Strings.{file_lines}
use browser_visit_logger.Base.Dict.{get, pop, length-pop, length-put_new, length-put_old}
use browser_visit_logger.Database.{Db}

-- The lines that are not empty.
abbrev weight : Line → ℕ
weight blank = 0
weight malformed = 1
weight (result id success) = 1
weight (action id a) = 1

pub lines_weight : List Line → ℕ
lines_weight [] = 0
lines_weight (l ∷ ls) = weight l + lines_weight ls

-- The lines that a state accounts for: an action waits, was dropped, or was paired with a result.
abbrev pub settled : ReplayStats → ℕ
settled s =
    s.malformed_lines
    + s.orphan_results
    + s.orphan_actions
    + 2 * (s.success_records + s.error_records)

pub accounted : Replay → ℕ
accounted s = settled s.stats + length s.pending

pub file_weight : Text → ℕ
file_weight content = lines_weight (map classify (file_lines content))

pub files_weight : List (Text × Text) → ℕ
unfolding file_weight
files_weight [] = 0
files_weight ((date, content) ∷ files) = file_weight content + files_weight files

module _ (downloads : Text) where
  settled-count_action : (a : Action) (s : ReplayStats) → settled (count_action a s) ≡ settled s
  unfolding count_action
  settled-count_action a s = ground arith

  accounted-settle :
      (success : Bool) (a : Action) (s : Replay)
      → accounted (settle downloads success a s) ≡ accounted s + 2
  unfolding settle accounted count_action
  accounted-settle true a s = ground arith
  accounted-settle false a s = ground arith

  accounted-replay_line :
      (l : Line) (s : Replay) → accounted (replay_line downloads l s) ≡ accounted s + weight l
  unfolding replay_line
  accounted-replay_line blank s = omega arith
  accounted-replay_line malformed s = unfold accounted in omega arith
  accounted-replay_line (result id success) s = elim (Option-cases (get id s.pending)) [
    | inl e ↦ rw (e, replay_line) (unfold accounted in omega arith)
    | inr (a, e) ↦
        rw (e, replay_line)
          (accounted-settle success a (record s { pending = pop id s.pending })
            ∙ unfold accounted in omega (arith, length-pop id a s.pending e))
  ]
  accounted-replay_line (action id a) s = elim (Option-cases (get id s.pending)) [
    | inl e ↦
        rw (e, replay_line) (unfold accounted in omega (arith, length-put_new id a s.pending e))
    | inr (b, e) ↦
        rw (e, replay_line) (unfold accounted in omega (arith, length-put_old id a b s.pending e))
  ]

  accounted-replay_lines :
      (ls : List Line) (s : Replay)
      → accounted (replay_lines downloads ls s) ≡ accounted s + lines_weight ls
  unfolding replay_lines lines_weight
  accounted-replay_lines [] s = omega arith
  accounted-replay_lines (l ∷ ls) s =
      omega
        (arith, accounted-replay_lines ls (replay_line downloads l s), accounted-replay_line l s)

  accounted-replay_files :
      (files : List (Text × Text)) (s : Replay)
      → accounted (replay_files downloads files s) ≡ accounted s + files_weight files
  unfolding replay_files replay_one_file files_weight accounted
  accounted-replay_files [] s = omega arith
  accounted-replay_files ((date, content) ∷ files) s =
      let noted = record s { db = record s.db { snapshots = note_day date s.db.snapshots } } in
      let lines = map classify (file_lines content) in
      omega (
        arith,
        accounted-replay_files files (replay_lines downloads lines noted),
        accounted-replay_lines lines noted,
      )

  -- Over all the files each line that is not empty is counted exactly once: as malformed, as a result
  -- without an action, as an action without a result, or as one of the two lines of a success or of an
  -- error record.
  pub replay_logs_accounts_for_every_line :
      (files : List (Text × Text)) (db : Db)
      → settled (replay_logs downloads files db).1 ≡ files_weight files
  unfolding replay_logs accounted
  replay_logs_accounts_for_every_line files db =
      omega
        (arith, accounted-replay_files files (record { db = db; pending = []; stats = no_stats }))

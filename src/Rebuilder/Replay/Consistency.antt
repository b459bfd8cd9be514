-- ===== src/Rebuilder/Replay/Consistency.antt =====
-- A replay keeps the counters of `visits` in step with the events tables.
use browser_visit_logger.Base.{sym, Text, Bool, true, false, List, [], ◌∷◌, text_eq, if◌then◌else◌}
use browser_visit_logger.Host.{insert_visit}
use browser_visit_logger.Host.Counters.{
  IsConsistent, IsConsistent-insert_visit, IsConsistent-mark, IsConsistent-tag_visit,
}
use browser_visit_logger.Database.{Db}
use browser_visit_logger.Rebuilder.Replay.Pairing.{
  apply_all, paired, all_lines, replay_logs_applies_paired_actions,
}
use browser_visit_logger.Rebuilder.Replay.{apply_action, replay_logs}
use browser_visit_logger.Rebuilder.Lines.{Action}
use mathlib.Core.Path.{subst}

IsConsistent-if :
    (b : Bool) (x y : Db) → IsConsistent x → IsConsistent y → IsConsistent (if b then x else y)
IsConsistent-if true x y hx hy = hx
IsConsistent-if false x y hx hy = hy

module _ (downloads : Text) where
  IsConsistent-apply_action :
      (a : Action) (db : Db) → IsConsistent db → IsConsistent (apply_action downloads a db)
  unfolding apply_action
  IsConsistent-apply_action a db c =
      let seen : Db = insert_visit a.timestamp a.url a.title db in
      let kept : IsConsistent seen = IsConsistent-insert_visit a.timestamp a.url a.title db c in
      IsConsistent-if _ _ _ (IsConsistent-mark a.url seen kept) (
        IsConsistent-if _ _ _
          (IsConsistent-tag_visit downloads a.url a.tag a.timestamp a.filename seen kept) kept)

  IsConsistent-apply_all :
      (acts : List Action) (db : Db) → IsConsistent db → IsConsistent (apply_all downloads acts db)
  unfolding apply_all
  IsConsistent-apply_all [] db c = c
  IsConsistent-apply_all (a ∷ acts) db c =
      IsConsistent-apply_all acts (apply_action downloads a db) (IsConsistent-apply_action a db c)

  pub IsConsistent-replay_logs :
      (files : List (Text × Text)) (db : Db)
      → IsConsistent db
      → IsConsistent (replay_logs downloads files db).0
  IsConsistent-replay_logs files db c =
      let d = apply_all downloads (paired [] (all_lines files)) db in
      let k : IsConsistent d = IsConsistent-apply_all (paired [] (all_lines files)) db c in
      subst IsConsistent (sym (replay_logs_applies_paired_actions downloads files db))
        (record { visits_unique = k.visits_unique; reads = k.reads; skims = k.skims })

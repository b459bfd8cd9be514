-- ===== src/Migration/Switch.antt =====
-- The order of the copy and of the rewriting.
use browser_visit_logger.Base.{Text, ◌≡◌, ◌⊎◌}
use browser_visit_logger.Base.{some}
use browser_visit_logger.Migration.Copies.{Brought}
use browser_visit_logger.Base.Dict.{get, Dict}
use browser_visit_logger.Database.{Db}
use browser_visit_logger.Migration.{Copier, Migration}

module _ (env : Copier) (src_root dst_root : Text) (src : Dict Text) (db : Db) where
  -- The target has a file at the path of a file of the source: one that stood there before, or a copy
  -- of the source's file at that path, with the same hash.
  abbrev pub Arrived : Dict Text → Dict Text → Text × Text → Type 0
  Arrived before after f =
      (t : Text) × (get f.0 after ≡ some t) × ((get f.0 before ≡ some t) ⊎ Brought env f.0 t src)

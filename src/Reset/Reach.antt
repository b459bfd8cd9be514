-- ===== src/Reset/Reach.antt =====
-- What a reset may delete.
use browser_visit_logger.Base.{
  Text, Bool, true, false, ◌||◌, Option, none, some, List, [], ◌∷◌, ◌++◌, ◌≡◌, ◌⊎◌, inl, inr, refl,
  ◌∙◌, arith, if◌then◌else◌, ◌==◌, text_eq, All, All-append, All-filter_map, Bool-cases, map,
}
use browser_visit_logger.Base.Dict.{get, pop}
use browser_visit_logger.Base.Sorting.{sorted, All-sorted}
use browser_visit_logger.Base.Strings.{text_le}
use browser_visit_logger.Files.{Files, path_exists, is_dir, list_dir}
use browser_visit_logger.Names.{log_date}
use browser_visit_logger.Paths.{path_join}
use browser_visit_logger.Reset.{
  Places, Flags, Kind, one_file, whole_dir, no_match, Targets, reset_all, in_tree, remove_tree,
  delete_file, delete_dir, delete_target, if_running, delete_targets, only_if, is_yes, in_log_dir,
  log_path, per_day_log_paths, log_targets, process_targets, targets_of, reset,
}
use mathlib.Core.List.{filter_map}

-- What the flags allow to delete.
pub data Doomed (places : Places) (flags : Flags) (path : Text) : Type 0 where
  day_log :
      (flags.log || reset_all flags) ≡ true
      → (name date : Text) → log_date name ≡ some date
      → path ≡ path_join places.log_dir name
      → Doomed places flags path
  host_log :
      (flags.host_log || reset_all flags) ≡ true → path ≡ places.host_log → Doomed places flags path
  mover_log :
      (flags.host_log || reset_all flags) ≡ true
      → path ≡ places.mover_log
      → Doomed places flags path
  verifier_log :
      (flags.host_log || reset_all flags) ≡ true
      → path ≡ places.verifier_log
      → Doomed places flags path
  database : (flags.db || reset_all flags) ≡ true → path ≡ places.db_file → Doomed places flags path
  snapshot :
      (flags.snapshots || reset_all flags) ≡ true
      → in_tree places.snap_dir path ≡ true
      → Doomed places flags path
  archived :
      (flags.icloud || reset_all flags) ≡ true
      → in_tree places.icloud_dir path ≡ true
      → Doomed places flags path

abbrev Reached : Text → Text × Kind → Type 0
Reached path (p, one_file) = path ≡ p
Reached path (p, whole_dir) = in_tree p path ≡ true
Reached path (p, no_match) = ⊥

get-pop_apart :
    (path p : Text) (fs : Files) → (path == p) ≡ false → get path (pop p fs) ≡ get path fs
unfolding get pop text_eq
get-pop_apart path p [] e = refl
get-pop_apart path p ((q, node) ∷ fs) e = ground (arith, get-pop_apart path p fs e)

get-pop_other : (path p : Text) (fs : Files) → (path ≡ p) ⊎ (get path (pop p fs) ≡ get path fs)
unfolding text_eq
get-pop_other path p fs = elim (Bool-cases (path == p)) [
  | inl e ↦ inl (ground arith)
  | inr e ↦ inr (get-pop_apart path p fs e)
]

get-remove_apart :
    (path d : Text) (fs : Files)
    → in_tree d path ≡ false
    → get path (remove_tree d fs) ≡ get path fs
unfolding get remove_tree text_eq
get-remove_apart path d [] e = refl
get-remove_apart path d ((q, node) ∷ fs) e = ground (arith, get-remove_apart path d fs e)

-- What one target does to a path.
reach_lem :
    (path : Text) (t : Text × Kind) (fs : Files)
    → (get path (delete_target t fs).0 ≡ get path fs) ⊎ Reached path t
unfolding delete_target delete_file delete_dir
reach_lem path (p, one_file) fs = split (is_dir p fs) (path_exists p fs)
  where
    split :
        (d e : Bool)
        → (get path
              (if◌then◌else◌ {A = Files × Bool} d (fs, false) (if e then pop p fs else fs, true)).0
            ≡ get path fs)
          ⊎ (path ≡ p)
    split true e = inl refl
    split false false = inl refl
    split false true = elim (get-pop_other path p fs) [ inl at ↦ inr at | inr kept ↦ inl kept ]
reach_lem path (p, whole_dir) fs = split (is_dir p fs)
  where
    split :
        (d : Bool)
        → (get path (if d then remove_tree p fs else fs) ≡ get path fs) ⊎ (in_tree p path ≡ true)
    split false = inl refl
    split true = elim (Bool-cases (in_tree p path)) [
      | inl e ↦ inr e
      | inr e ↦ inl (get-remove_apart path p fs e)
    ]
reach_lem path (p, no_match) fs = inl refl

module _ (places : Places) (flags : Flags) (path : Text) where
  abbrev Allowed : Text × Kind → Type 0
  Allowed t = Reached path t → Doomed places flags path

  Allowed-deletes :
      (targets : Targets) (fs : Files)
      → All Allowed targets
      → (get path (delete_targets targets fs).0 ≡ get path fs) ⊎ Doomed places flags path
  unfolding delete_targets
  Allowed-deletes [] fs h = inl refl
  Allowed-deletes (t ∷ targets) fs (here, h) =
      after (reach_lem path t fs) (next (delete_target t fs) (λ gs. Allowed-deletes targets gs h))
    where
      next :
          (r : Files × Bool)
          → ((gs : Files)
              → (get path (delete_targets targets gs).0 ≡ get path gs) ⊎ Doomed places flags path)
          → (get path (if_running (delete_targets targets) r).0 ≡ get path r.0)
            ⊎ Doomed places flags path
      next (gs, true) later = later gs
      next (gs, false) later = inl refl

      after :
          (get path (delete_target t fs).0 ≡ get path fs) ⊎ Reached path t
          → (get path (if_running (delete_targets targets) (delete_target t fs)).0
              ≡ get path (delete_target t fs).0)
            ⊎ Doomed places flags path
          → (get path (if_running (delete_targets targets) (delete_target t fs)).0 ≡ get path fs)
            ⊎ Doomed places flags path
      after (inr reached) later = inr (here reached)
      after (inl kept) (inr doomed) = inr doomed
      after (inl kept) (inl same) = inl (same ∙ kept)

  Allowed-if :
      (b : Bool) (targets : Targets)
      → (b ≡ true → All Allowed targets)
      → All Allowed (only_if b targets)
  Allowed-if true targets h = h refl
  Allowed-if false targets h = tt

  abbrev IsDayLog : Text → Type 0
  IsDayLog p =
      (name : Text) × ((date : Text) × (log_date name ≡ some date)
        × (p ≡ path_join places.log_dir name))

  day_logs_lem : (fs : Files) → All IsDayLog (per_day_log_paths places fs)
  unfolding per_day_log_paths
  day_logs_lem fs = listed (is_dir places.log_dir fs)
    where
      one :
          (name p : Text) (o : Option Text)
          → log_date name ≡ o
          → in_log_dir places name o ≡ some p
          → IsDayLog p
      one name p none e h = absurd (cc)
      one name p (some date) e h = (name, (date, e, cc))

      listed :
          (b : Bool)
          → All IsDayLog (
              if b
              then sorted text_le (filter_map (log_path places) (list_dir places.log_dir fs))
              else [])
      listed true = All-sorted text_le IsDayLog _ (
          All-filter_map IsDayLog (log_path places) (list_dir places.log_dir fs)
            (λ name p h. one name p (log_date name) refl h))
      listed false = tt

  Allowed-logs :
      (flags.log || reset_all flags) ≡ true
      → (paths : List Text) → All IsDayLog paths
      → All Allowed (log_targets places paths)
  Allowed-logs wanted [] h = ((λ r. absurd r), tt)
  Allowed-logs wanted (p ∷ paths) h = each (p ∷ paths) h
    where
      each : (ps : List Text) → All IsDayLog ps → All Allowed (map (λ q. (q, one_file)) ps)
      each [] g = tt
      each (q ∷ ps) ((name, (date, dated, at)), g) =
          ((λ same. day_log wanted name date dated (same ∙ at)), each ps g)

  Allowed-targets : (fs : Files) → All Allowed (targets_of places flags fs)
  unfolding targets_of
  Allowed-targets fs =
      both (flags.log || reset_all flags) (log_targets places (per_day_log_paths places fs)) _
        (λ w. Allowed-logs w (per_day_log_paths places fs) (day_logs_lem fs))
        (both (flags.host_log || reset_all flags) (process_targets places) _
          (λ w. ((λ e. host_log w e), ((λ e. mover_log w e), ((λ e. verifier_log w e), tt))))
          (both (flags.db || reset_all flags) ((places.db_file, one_file) ∷ []) _
            (λ w. ((λ e. database w e), tt))
            (both (flags.snapshots || reset_all flags) ((places.snap_dir, whole_dir) ∷ []) _
              (λ w. ((λ e. snapshot w e), tt))
              (Allowed-if (flags.icloud || reset_all flags) ((places.icloud_dir, whole_dir) ∷ [])
                (λ w. ((λ e. archived w e), tt))))))
    where
      both :
          (b : Bool) (targets others : Targets)
          → (b ≡ true → All Allowed targets)
          → All Allowed others
          → All Allowed (only_if b targets ++ others)
      both b targets others h g =
          All-append Allowed (only_if b targets) others (Allowed-if b targets h) g

  -- A reset leaves each path as it is, unless the user forces it or says yes and the flags ask for what
  -- the path is: a day's log in the log directory, one of the three process logs, the database, or
  -- something in the tree of the local snapshots or of the archive; all of them where no flag is given.
  pub reset-Doomed :
      (answer : Option Text) (fs : Files)
      → (get path (reset places flags answer fs).0 ≡ get path fs)
        ⊎ (((flags.force || is_yes answer) ≡ true) × Doomed places flags path)
  unfolding reset
  reset-Doomed answer fs = agreed (flags.force || is_yes answer) refl
    where
      agreed :
          (b : Bool)
          → (flags.force || is_yes answer) ≡ b
          → (get path
                (if◌then◌else◌ {A = Files × Bool} b
                  (delete_targets (targets_of places flags fs) fs)
                  (fs, true)).0
              ≡ get path fs)
            ⊎ (((flags.force || is_yes answer) ≡ true) × Doomed places flags path)
      agreed false e = inl refl
      agreed true e = elim (Allowed-deletes (targets_of places flags fs) fs (Allowed-targets fs)) [
        | inl same ↦ inl same
        | inr doomed ↦ inr (e, doomed)
      ]

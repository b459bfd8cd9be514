-- ===== src/Snapshots/Seal/Closed.antt =====
-- A property of operations that the parts of sealing a directory have, sealing has.
use browser_visit_logger.Base.{
  List, [], ◌∷◌, text_eq, true, false, none, some, Option, Text, Bool, if◌then◌else◌, ◌≡◌, ℕ,
  length, refl, ◌==◌,
}
use browser_visit_logger.Base.Dict.{get, pop, put}
use browser_visit_logger.Base.Strings.{codes}
use browser_visit_logger.Database.{Db, Snapshot}
use browser_visit_logger.Files.{Files, Node, path_exists}
use browser_visit_logger.Names.{is_snapshot_name, log_filename_for}
use browser_visit_logger.Paths.{path_join}
use browser_visit_logger.Snapshots.Effects.{
  Env, Io, World, ◌>>◌, ◌>>=◌, handle, handle_sql, pure, Exn, sql_read, sql_write, commit, os_read,
  os_write,
}
use browser_visit_logger.Snapshots.Errors.{
  try_record_error, try_clear_error, clear_error, record_error, delete_keys,
  reconcile_dir_scoped_errors,
}
use browser_visit_logger.Snapshots.Manifest.{
  Info, chmod, append_to, manifest_filename, write_manifest_file, lookup_event, sort_files,
  SortedFiles, build_manifest_rows, write_lines,
}
use browser_visit_logger.Snapshots.Seal.{
  move_log_into_sealed_dir, mark_if_dated, move_log_if_dated, move_file, seal_directory, seal_steps,
  mark_sealed,
}
use browser_visit_logger.Snapshots.Seal.Apart.{
  get-move_file_other, get-chmod_other, get-put_other, get-pop_other, get-append_to_other,
}

-- The path is not the protected one, where there is one.
abbrev pub IsApart : Option Text → Text → Type 0
IsApart none path = Unit
IsApart (some m) path = (path == m) ≡ false

-- The change of the files leaves the protected path alone.
abbrev pub Spares : Option Text → (Files → Files) → Type 0
Spares none g = Unit
Spares (some m) g = (fs : Files) → get m (g fs) ≡ get m fs

-- Rules by which a property of operations passes to all that sealing a directory is made of, where
-- a statement leaves what is seen of `snapshots` alone, and a write the protected path.
pub record Closed {B : Type 0} (env : Env) (view : List Snapshot → B) (o : Option Text)
    (C : (A : Type 0) → Io A → Type 0) : Type 1 where
  pub returns : {A : Type 0} (a : A) → C A (pure a)
  pub binds :
      {A D : Type 0} (m : Io A) (k : A → Io D) → C A m → ((a : A) → C D (k a)) → C D (m >>= k)
  pub looks : {A : Type 0} (m : World → Io A) → ((v : World) → C A (m v)) → C A (λ w. m w w)
  pub handles :
      (h : Exn → Io (Unit {0})) (m : Io (Unit {0}))
      → ((e : Exn) → C (Unit {0}) (h e))
      → C (Unit {0}) m
      → C (Unit {0}) (λ w. handle h (m w))
  pub handles_sql :
      (m : Io (Unit {0})) → C (Unit {0}) m → C (Unit {0}) (λ w. handle_sql (λ _. pure tt) (m w))
  pub reads : {A : Type 0} (g : Files → A) → C A (os_read env g)
  pub writes : (g : Files → Files) → Spares o g → C (Unit {0}) (os_write env g)
  pub queries : {A : Type 0} (g : Db → A) → C A (sql_read env g)
  pub statements :
      (g : Db → Db)
      → ((db : Db) → view (g db).snapshots ≡ view db.snapshots)
      → C (Unit {0}) (sql_write env g)
  pub commits : C (Unit {0}) (commit env)

Spares-pop : (o : Option Text) (p : Text) → IsApart o p → Spares o (pop p)
Spares-pop none p h = tt
Spares-pop (some m) p h = λ fs. get-pop_other m p fs h

Spares-put : (o : Option Text) (p : Text) (node : Node) → IsApart o p → Spares o (put p node)
Spares-put none p node h = tt
Spares-put (some m) p node h = λ fs. get-put_other m p node fs h

Spares-append_to : (o : Option Text) (p text : Text) → IsApart o p → Spares o (append_to p text)
Spares-append_to none p text h = tt
Spares-append_to (some m) p text h = λ fs. get-append_to_other m p text fs h

Spares-chmod : (o : Option Text) (p : Text) (bits : ℕ) → IsApart o p → Spares o (chmod p bits)
Spares-chmod none p bits h = tt
Spares-chmod (some m) p bits h = λ fs. get-chmod_other m p bits fs h

Spares-move_file :
    (o : Option Text) (src dst : Text)
    → IsApart o src
    → IsApart o dst
    → Spares o (move_file src dst)
Spares-move_file none src dst h k = tt
Spares-move_file (some m) src dst h k = λ fs. get-move_file_other m src dst fs h k

-- The mark of the day is not seen.
abbrev pub Unseen : {B : Type 0} → (List Snapshot → B) → Option Text → Type 0
Unseen view none = Unit
Unseen view (some date) = (rows : List Snapshot) → view (mark_sealed date rows) ≡ view rows

-- The view that sees nothing.
abbrev pub unseen : List Snapshot → Unit {0}
unseen rows = tt

pub Unseen-unseen : (date : Option Text) → Unseen unseen date
Unseen-unseen none = tt
Unseen-unseen (some date) = λ rows. refl

module _ {B : Type 0} (env : Env) (view : List Snapshot → B) (o : Option Text)
    (C : (A : Type 0) → Io A → Type 0) (q : Closed env view o C) where
  Closed-if : {A : Type 0} (b : Bool) (m n : Io A) → C A m → C A n → C A (if b then m else n)
  Closed-if true m n hm hn = hm
  Closed-if false m n hm hn = hn

  -- A statement on another table, or on the row of another day, with its commit.
  pub Closed-committed :
      (g : Db → Db)
      → ((db : Db) → view (g db).snapshots ≡ view db.snapshots)
      → C (Unit {0}) (do sql_write env g; commit env)
  Closed-committed g same = q.binds _ _ (q.statements g same) (λ _. q.commits)

  pub Closed-try_record_error :
      (op target : Text) (e : Exn) → C (Unit {0}) (try_record_error env op target e)
  unfolding try_record_error record_error
  Closed-try_record_error op target e =
      q.handles_sql _ (q.looks _ (λ v. Closed-committed _ (λ db. refl)))

  Closed-try_clear_error : (op target : Text) → C (Unit {0}) (try_clear_error env op target)
  unfolding try_clear_error clear_error
  Closed-try_clear_error op target = q.handles_sql _ (Closed-committed _ (λ db. refl))

  Closed-delete_keys : (keys : List Text) → C (Unit {0}) (delete_keys env keys)
  unfolding delete_keys
  Closed-delete_keys [] = q.returns tt
  Closed-delete_keys (key ∷ keys) =
      q.binds _ _ (q.statements _ (λ db. refl)) (λ _. Closed-delete_keys keys)

  Closed-reconcile :
      (op dir_path : Text) (strays : List Text)
      → C (Unit {0}) (reconcile_dir_scoped_errors env op dir_path strays)
  unfolding reconcile_dir_scoped_errors
  Closed-reconcile op dir_path strays =
      q.handles_sql _
        (q.binds _ _ (q.queries _) (λ prior. q.binds _ _ (Closed-delete_keys _) (λ _. q.commits)))

  Closed-lookup_event :
      (filename directory : Text) → C (Option Info) (lookup_event env filename directory)
  unfolding lookup_event
  Closed-lookup_event filename directory =
      q.binds _ _ (q.queries _) (elim [ none ↦ q.queries _ | some info ↦ q.returns (some info) ])

  Closed-sort_files :
      (date_subdir : Text) (files : List Text) (acc : SortedFiles)
      → C SortedFiles (sort_files env date_subdir files acc)
  unfolding sort_files
  Closed-sort_files date_subdir [] acc = q.returns acc
  Closed-sort_files date_subdir (f ∷ files) acc =
      Closed-if (is_snapshot_name f) _ _
        (q.binds _ _ (Closed-lookup_event f date_subdir) (elim [
          | none ↦
              q.binds _ _ (Closed-try_record_error _ _ _)
                (λ _. Closed-sort_files date_subdir files _)
          | some info ↦ Closed-sort_files date_subdir files _
        ]))
        (q.binds _ _ (Closed-try_record_error _ _ _) (λ _. Closed-sort_files date_subdir files _))

  Closed-build_manifest_rows :
      (date_subdir : Text) → C (List (List Text)) (build_manifest_rows env date_subdir)
  unfolding build_manifest_rows
  Closed-build_manifest_rows date_subdir = q.binds _ _ (q.reads _) (λ files.
      q.binds _ _ (Closed-sort_files date_subdir files _) (λ acc.
        q.binds _ _ (Closed-reconcile _ _ _)
          (λ _. q.binds _ _ (Closed-reconcile _ _ _) (λ _. q.returns acc.rows))))

  Closed-write_lines :
      (path : Text) (rows : List (List Text))
      → IsApart o path
      → C (Unit {0}) (write_lines env path rows)
  unfolding write_lines
  Closed-write_lines path [] h = q.returns tt
  Closed-write_lines path (line ∷ rows) h =
      q.binds _ _ (q.writes _ (Spares-append_to o path _ h)) (λ _. Closed-write_lines path rows h)

  pub Closed-write_manifest_file :
      (date_subdir : Text)
      → IsApart o (path_join date_subdir manifest_filename)
      → C ℕ (write_manifest_file env date_subdir)
  unfolding write_manifest_file
  Closed-write_manifest_file date_subdir h = q.looks _ (λ v.
      q.binds _ _
        (Closed-if (path_exists _ v.fs) _ _ (q.writes _ (Spares-pop o _ h)) (q.returns tt))
        (λ _. q.binds _ _ (Closed-build_manifest_rows date_subdir) (λ rows.
          q.binds _ _ (q.writes _ (Spares-put o _ _ h)) (λ _.
            q.binds _ _ (Closed-write_lines _ _ h) (λ _.
              q.binds _ _ (q.writes _ (Spares-chmod o _ _ h)) (λ _. q.returns (length rows)))))))

  -- No log is the protected file.
  module _ (logs : (a date : Text) → IsApart o (path_join a (log_filename_for date))) where
    Closed-move_log :
        (date_subdir date : Text) → C (Unit {0}) (move_log_into_sealed_dir env date_subdir date)
    unfolding move_log_into_sealed_dir
    Closed-move_log date_subdir date = q.looks _ (λ v.
        Closed-if (path_exists _ v.fs) _ _
          (q.binds _ _
            (q.writes _ (Spares-move_file o _ _ (logs env.log_dir date) (logs date_subdir date)))
            (λ _. q.writes _ (Spares-chmod o _ _ (logs date_subdir date))))
          (q.returns tt))

    Closed-move_log_if_dated :
        (date_subdir : Text) (date : Option Text)
        → C (Unit {0}) (move_log_if_dated env date_subdir date)
    unfolding move_log_if_dated
    Closed-move_log_if_dated date_subdir none = q.returns tt
    Closed-move_log_if_dated date_subdir (some date) = Closed-move_log date_subdir date

    Closed-mark_if_dated :
        (date : Option Text) → Unseen view date → C (Unit {0}) (mark_if_dated env date)
    unfolding mark_if_dated
    Closed-mark_if_dated none unseen = q.returns tt
    Closed-mark_if_dated (some date) unseen = Closed-committed _ (λ db. unseen db.snapshots)

    -- What follows the manifest in `seal_steps`.
    pub Closed-rest :
        (date_subdir : Text) (date : Option Text)
        → Unseen view date
        → C (Unit {0}) (do
          move_log_if_dated env date_subdir date
          mark_if_dated env date
          try_clear_error env (codes "seal") date_subdir)
    Closed-rest date_subdir date unseen =
        q.binds _ _ (Closed-move_log_if_dated date_subdir date)
          (λ _. q.binds _ _ (Closed-mark_if_dated date unseen) (λ _. Closed-try_clear_error _ _))

    pub Closed-seal_steps :
        (date_subdir : Text) (date : Option Text)
        → IsApart o (path_join date_subdir manifest_filename)
        → Unseen view date
        → C (Unit {0}) (seal_steps env date_subdir date)
    unfolding seal_steps
    Closed-seal_steps date_subdir date h unseen =
        q.binds _ _ (Closed-write_manifest_file date_subdir h)
          (λ n. Closed-rest date_subdir date unseen)

    pub Closed-seal_directory :
        (date_subdir : Text) (date : Option Text)
        → IsApart o (path_join date_subdir manifest_filename)
        → Unseen view date
        → C (Unit {0}) (seal_directory env date_subdir false date)
    unfolding seal_directory
    Closed-seal_directory date_subdir date h unseen =
        q.handles _ _ (λ e. Closed-try_record_error (codes "seal") date_subdir e)
          (Closed-seal_steps date_subdir date h unseen)

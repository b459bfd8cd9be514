-- ===== src/Snapshots/Orphans/Merge.antt =====
-- Merging a log that was left behind loses none of its lines.
use browser_visit_logger.Base.{
  text_eq, false, none, some, Option, Text, ℕ, ◌==◌, ◌≡◌, ◌⊎◌, inl, ◌++◌, arith, ◌∙◌, inr, refl,
  sym,
}
use browser_visit_logger.Snapshots.Errors.{
  try_clear_error, try_record_error, clear_error, record_error,
}
use browser_visit_logger.Snapshots.Effects.{
  Env, Exn, Result, World, handle_os, ok, err, os_error, sql_error, value_error,
}
use browser_visit_logger.Files.{Files, content_of, Node, file, path_exists, dir}
use browser_visit_logger.Snapshots.Effects.Rules.{
  Keeps, Keeps-handle_sql, Keeps-bind, fs-sql_write, fs-commit, Covers, Covers-bind,
  Covers-os_write, Covers-os_read, Covers-fs, Ends,
}
use browser_visit_logger.Snapshots.Manifest.Content.{Holds, Holds-chmod, Holds-append_to}
use browser_visit_logger.Snapshots.Orphans.{merge_log, reconcile_log}
use browser_visit_logger.Base.Dict.{get, put}
use browser_visit_logger.Snapshots.Manifest.{chmod, append_to}
use browser_visit_logger.Snapshots.Seal.Apart.{get-chmod_other, get-pop_other, get-put_other}
use browser_visit_logger.Base.Strings.{universal_newlines, codes}
use mathlib.Core.Path.{subst}
use browser_visit_logger.Paths.{path_join}

fs-try_clear_error :
    (env : Env) (op target : Text) → Keeps (λ w. w.fs) (try_clear_error env op target)
unfolding try_clear_error clear_error
fs-try_clear_error env op target =
    Keeps-handle_sql (λ w. w.fs) _
      (Keeps-bind (λ w. w.fs) _ _ (fs-sql_write env _) (λ _. fs-commit env))

fs-try_record_error :
    (env : Env) (op target : Text) (e : Exn) → Keeps (λ w. w.fs) (try_record_error env op target e)
unfolding try_record_error record_error
fs-try_record_error env op target e =
    Keeps-handle_sql (λ w. w.fs) _
      (record {
        at = λ w. (Keeps-bind (λ w. w.fs) _ _ (fs-sql_write env _) (λ _. fs-commit env)).at w;
      })

-- The log is still there, or its lines stand at the end of the archived log, which is read-only.
abbrev pub IsKept : Text → Text → Text → Text → Files → Type 0
IsKept src dst content old fs =
    ((mode : ℕ) × Holds src content mode fs)
    ⊎ Holds dst (old ++ universal_newlines content) 0o444 fs

module _ (env : Env) (src dst date_subdir content old : Text) (mode : ℕ)
    (apart : (src == dst) ≡ false) where
  abbrev Both : Text → ℕ → Files → Type 0
  Both archived bits fs = Holds src content mode fs × Holds dst archived bits fs

  abbrev Kept : Files → Type 0
  Kept = IsKept src dst content old

  kept : (archived : Text) (bits : ℕ) (fs : Files) → Both archived bits fs → Kept fs
  kept archived bits fs h = inl (mode, h.0)

  turned : (dst == src) ≡ false
  turned = ground arith

  Both-chmod :
      (archived : Text) (bits bits' : ℕ) (fs : Files)
      → Both archived bits fs
      → Both archived bits' (chmod dst bits' fs)
  Both-chmod archived bits bits' fs h =
      (get-chmod_other src dst bits' fs turned ∙ h.0, Holds-chmod dst archived bits bits' fs h.1)

  get-append_to_other : (text : Text) (fs : Files) → get src (append_to dst text fs) ≡ get src fs
  get-append_to_other text fs = one (get dst fs)
    where
      one :
          (o : Option Node)
          → get src (elim o [
            | none ↦ put dst (file text 0o644) fs
            | some node ↦ elim node [ file c m ↦ put dst (file (c ++ text) m) fs | dir ↦ fs ]
          ])
            ≡ get src fs
      one none = get-put_other src dst (file text 0o644) fs turned
      one (some (file c m)) = get-put_other src dst (file (c ++ text) m) fs turned
      one (some dir) = refl

  Both-append :
      (text archived : Text) (bits : ℕ) (fs : Files)
      → Both archived bits fs
      → Both (archived ++ text) bits (append_to dst text fs)
  Both-append text archived bits fs h =
      (get-append_to_other text fs ∙ h.0, Holds-append_to dst archived text bits fs h.1)

  abbrev added : Text
  added = old ++ universal_newlines content

  appended :
      (t : Text) (fs : Files)
      → t ≡ universal_newlines (content_of src fs)
      → Both old 0o644 fs
      → Both added 0o644 (append_to dst t fs)
  unfolding content_of
  appended t fs r h =
      let whole : t ≡ universal_newlines content = r ∙ rw (h.0, content_of) refl in
      subst (λ x. Both (old ++ x) 0o644 (append_to dst t fs)) whole (Both-append t old 0o644 fs h)

  merge_covers :
      (bits : ℕ)
      → Covers
          (λ w. Both old bits w.fs)
          (merge_log env src dst date_subdir)
          (λ _ v. Kept v.fs)
          (λ v. Kept v.fs)
  unfolding merge_log content_of
  merge_covers bits =
      Covers-bind _ (λ _ v. Both old 0o644 v.fs) _ _ _ _
        (Covers-os_write env (Both old bits) (Both old 0o644) Kept _ (Both-chmod old bits 0o644)
          (kept old bits))
        (λ _.
          Covers-bind _
            (λ t v. (r : t ≡ universal_newlines (content_of src v.fs)) × Both old 0o644 v.fs) _ _ _
            _ (Covers-os_read env (Both old 0o644) Kept _ (kept old 0o644))
            (λ t.
              Covers-bind _ (λ _ v. Both added 0o644 v.fs) _ _ _ _
                (Covers-os_write env
                  (λ fs. (r : t ≡ universal_newlines (content_of src fs)) × Both old 0o644 fs)
                  (Both added 0o644) Kept (append_to dst t) (λ fs h. appended t fs h.0 h.1)
                  (λ fs h. kept old 0o644 fs h.1))
                (λ _.
                  Covers-bind _ (λ _ v. Both added 0o444 v.fs) _ _ _ _
                    (Covers-os_write env (Both added 0o644) (Both added 0o444) Kept _
                      (Both-chmod added 0o644 0o444) (kept added 0o644))
                    (λ _.
                      Covers-bind _ (λ _ v. Kept v.fs) _ _ _ _
                        (Covers-os_write env (Both added 0o444) Kept Kept _
                          (λ fs h. inr (get-pop_other dst src fs apart ∙ h.1)) (kept added 0o444))
                        (λ _. Covers-fs Kept Kept _ (fs-try_clear_error env _ _) (λ fs h. h))))))

  Ends-Kept :
      (r : Result (Unit {0}) × World) → Ends (λ _ v. Kept v.fs) (λ v. Kept v.fs) r → Kept r.1.fs
  Ends-Kept (ok a, v) h = h
  Ends-Kept (err x, v) h = h

-- Where the archive has the day's log already, reconciling the log that was left behind loses no line,
-- whichever calls and statements fail and also where an exception escapes: the log still stands where
-- it stood, or the archived log ends with its lines and is read-only.
pub reconcile_log-IsKept :
    (env : Env) (entry date content old : Text) (mode bits : ℕ) (w : World)
    → get (path_join env.log_dir entry) w.fs ≡ some (file content mode)
    → get (path_join (path_join env.icloud_snapshots_dir date) entry) w.fs ≡ some (file old bits)
    → (path_join env.log_dir entry == path_join (path_join env.icloud_snapshots_dir date) entry)
      ≡ false
    → IsKept
        (path_join env.log_dir entry)
        (path_join (path_join env.icloud_snapshots_dir date) entry)
        content
        old
        (reconcile_log env entry date w).1.fs
unfolding reconcile_log path_exists
reconcile_log-IsKept env entry date content old mode bits w there archived apart =
    rw (archived, path_exists)
      (handled (merge_log env src dst date_subdir w) (
        Ends-Kept env src dst date_subdir content old mode apart
          (merge_log env src dst date_subdir w)
          ((merge_covers env src dst date_subdir content old mode apart bits).at w
            (there, archived))))
  where
    src : Text
    src = path_join env.log_dir entry

    date_subdir : Text
    date_subdir = path_join env.icloud_snapshots_dir date

    dst : Text
    dst = path_join date_subdir entry

    handled :
        (r : Result (Unit {0}) × World)
        → IsKept src dst content old r.1.fs
        → IsKept src dst content old
            (handle_os (λ e. try_record_error env (codes "seal") date_subdir e) r).1.fs
    handled (ok a, v) h = h
    handled (err (os_error errno text), v) h =
        subst (IsKept src dst content old)
          (sym ((fs-try_record_error env (codes "seal") date_subdir _).at v)) h
    handled (err (sql_error e), v) h = h
    handled (err (value_error text), v) h = h

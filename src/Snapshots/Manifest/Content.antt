-- ===== src/Snapshots/Manifest/Content.antt =====
-- What the manifest holds when it has been written.
use browser_visit_logger.Base.{
  List, [], ◌∷◌, text_eq, some, Text, ℕ, ◌++◌, ◌≡◌, ◌∙◌, ap, arith, sym, append-nil, length,
  if◌then◌else◌, append_assoc, refl,
}
use browser_visit_logger.Base.{Bool, true, false, Option, none}
use browser_visit_logger.Snapshots.Manifest.Listing.{Lists}
use browser_visit_logger.Snapshots.Manifest.Built.{Same, Ensures-build_manifest_rows}
use browser_visit_logger.Snapshots.Effects.{
  Env, World, Io, ◌>>◌, ◌>>=◌, os_write, pure, ok, err, Result, continue, os_outcome,
}
use browser_visit_logger.Snapshots.Manifest.{
  line_of, write_lines, chmod, append_to, manifest_filename, header, write_manifest_file,
  build_manifest_rows,
}
use browser_visit_logger.Files.{Files, file, path_exists}
use browser_visit_logger.Base.Dict.{get, put, get-put, pop}
use browser_visit_logger.Paths.{path_join}
use browser_visit_logger.Snapshots.Effects.Rules.{Ensures, Ensures-bind, Ensures-os_write, Returned}
use mathlib.Core.Path.{subst}

-- The text of lines, one for each row.
pub lines_text : List (List Text) → Text
lines_text [] = []
lines_text (row ∷ rows) = line_of row ++ lines_text rows

-- A file with this content and these permission bits stands at the path.
abbrev pub Holds : Text → Text → ℕ → Files → Type 0
Holds path content mode fs = get path fs ≡ some (file content mode)

-- A manifest of these rows stands in the directory, and nobody may write to it.
abbrev pub IsManifest : Text → List (List Text) → Files → Type 0
IsManifest date_subdir rows fs =
    Holds (path_join date_subdir manifest_filename) (lines_text (header ∷ rows)) 0o444 fs

pub Holds-put :
    (path content : Text) (mode : ℕ) (fs : Files)
    → Holds path content mode (put path (file content mode) fs)
Holds-put path content mode fs = get-put path path (file content mode) fs ∙ ground arith

pub Holds-append_to :
    (path content text : Text) (mode : ℕ) (fs : Files)
    → Holds path content mode fs
    → Holds path (content ++ text) mode (append_to path text fs)
Holds-append_to path content text mode fs h =
    rw (h, append_to) (Holds-put path (content ++ text) mode fs)

pub Holds-chmod :
    (path content : Text) (mode bits : ℕ) (fs : Files)
    → Holds path content mode fs
    → Holds path content bits (chmod path bits fs)
Holds-chmod path content mode bits fs h = rw (h, chmod) (Holds-put path content bits fs)

module _ (env : Env) (path : Text) (mode : ℕ) where
  -- Writing lines adds them to what the file holds.
  write_lines-Holds :
      (rows : List (List Text)) (content : Text)
      → Ensures
          (λ w. Holds path content mode w.fs)
          (write_lines env path rows)
          (λ _ v. Holds path (content ++ lines_text rows) mode v.fs)
  unfolding write_lines lines_text
  write_lines-Holds [] content = record {
    at = λ w h. h ∙ ap (λ t. some (file t mode)) (sym (append-nil content));
  }
  write_lines-Holds (row ∷ rows) content =
      Ensures-bind _ (λ _ v. Holds path (content ++ line_of row) mode v.fs) _ _ _
        (Ensures-os_write env _ (Holds path (content ++ line_of row) mode) _
          (λ w h. Holds-append_to path content (line_of row) mode w.fs h))
        (λ _.
          subst
            (λ t.
              Ensures (λ w. Holds path (content ++ line_of row) mode w.fs)
                (write_lines env path rows) (λ _ v. Holds path t mode v.fs))
            (append_assoc content (line_of row) (lines_text rows))
            (write_lines-Holds rows (content ++ line_of row)))

module _ (env : Env) (date_subdir : Text) where
  abbrev pub path : Text
  path = path_join date_subdir manifest_filename

  -- From the opening of the file on.
  abbrev written : List (List Text) → Io ℕ
  written rows = do
    os_write env (put path (file [] 0o644))
    write_lines env path (header ∷ rows)
    os_write env (chmod path 0o444)
    pure (length rows)

  written-IsManifest :
      (rows : List (List Text))
      → Ensures
          (λ w. Unit {0})
          (written rows)
          (λ n v. (length rows ≡ n) × IsManifest date_subdir rows v.fs)
  written-IsManifest rows =
      Ensures-bind _ (λ _ v. Holds path [] 0o644 v.fs) _ _ _
        (Ensures-os_write env _ (Holds path [] 0o644) _ (λ w _. Holds-put path [] 0o644 w.fs))
        (λ _.
          Ensures-bind _ (λ _ v. Holds path (lines_text (header ∷ rows)) 0o644 v.fs) _ _ _
            (write_lines-Holds env path 0o644 (header ∷ rows) [])
            (λ _.
              Ensures-bind _ (λ _ v. IsManifest date_subdir rows v.fs) _ _ _
                (Ensures-os_write env _ (IsManifest date_subdir rows) _
                  (λ w h. Holds-chmod path (lines_text (header ∷ rows)) 0o644 0o444 w.fs h))
                (λ _. record { at = λ w h. (refl, h) })))

  -- The files without an earlier manifest of the directory.
  abbrev pub cleared : Files → Files
  cleared fs = if path_exists path fs then pop path fs else fs

  -- A manifest of `n` rows stands, and they are those of the directory's snapshots in the world `w`.
  abbrev pub Stands : World → ℕ → World → Type 0
  Stands w n v =
      (rows : List (List Text)) × (length rows ≡ n)
      × Lists env.match_by_filename_only date_subdir (cleared w.fs) w.db rows
      × IsManifest date_subdir rows v.fs

  written-Stands :
      (w : World) (rows : List (List Text))
      → Lists env.match_by_filename_only date_subdir (cleared w.fs) w.db rows
      → (u : World) → Returned (Stands w) (written rows u)
  written-Stands w rows h u = step (written rows u) ((written-IsManifest rows).at u tt)
    where
      step :
          (r : Result ℕ × World)
          → Returned (λ n v. (length rows ≡ n) × IsManifest date_subdir rows v.fs) r
          → Returned (Stands w) r
      step (ok n, v) (e, m) = (rows, e, h, m)
      step (err x, v) m = tt

  removed :
      (w : World)
      → Returned
          (λ _ v. (v.fs ≡ cleared w.fs) × Same env w.db v)
          ((if path_exists path w.fs then os_write env (pop path) else pure tt) w)
  unfolding os_write
  removed w = one (path_exists path w.fs)
    where
      popped :
          (f : Option (ℕ × Text))
          → Returned
              (λ (_ : Unit {0}) v. (v.fs ≡ pop path w.fs) × Same env w.db v)
              (os_outcome {0} env tt (pop path w.fs) w f)
      popped none = (refl, refl)
      popped (some x) = tt

      one :
          (b : Bool)
          → Returned
              (λ (_ : Unit {0}) v. (v.fs ≡ (if b then pop path w.fs else w.fs)) × Same env w.db v)
              ((if b then os_write env (pop path) else pure tt) w)
      one true = popped (env.os_fault w.tick)
      one false = (refl, refl)

  pub write_manifest_file-Stands :
      (w : World) → Returned (Stands w) (write_manifest_file env date_subdir w)
  unfolding write_manifest_file
  write_manifest_file-Stands w =
      step ((if path_exists path w.fs then os_write env (pop path) else pure tt) w) (removed w)
    where
      step :
          (r : Result (Unit {0}) × World)
          → Returned (λ _ v. (v.fs ≡ cleared w.fs) × Same env w.db v) r
          → Returned
              (Stands w)
              (continue (λ _. do rows ← build_manifest_rows env date_subdir; written rows) r)
      step (ok a, u) h =
          (Ensures-bind (λ v. (v.fs ≡ cleared w.fs) × Same env w.db v)
              (λ rows _. Lists env.match_by_filename_only date_subdir (cleared w.fs) w.db rows)
              (Stands w) (build_manifest_rows env date_subdir) written
              (Ensures-build_manifest_rows env w.db date_subdir (cleared w.fs))
              (λ rows. record { at = λ u h. written-Stands w rows h u })).at
            u h
      step (err x, u) h = tt

-- When writing the manifest returns a number, whichever statements failed on the way, the file is
-- read-only and holds the header's line and then that many rows. With the files and the tables as
-- they were before, but for an earlier manifest: each file of the directory that has a snapshot's
-- name and an event has its row, with the control characters of its fields taken out, each row is
-- that of such a file, and each row is one line, whose parts between the tabs are its fields.
pub write_manifest_file_lem :
    (env : Env) (date_subdir : Text) (w v : World) (n : ℕ)
    → write_manifest_file env date_subdir w ≡ (ok n, v)
    → (rows : List (List Text)) × (length rows ≡ n)
      × Lists env.match_by_filename_only date_subdir (cleared env date_subdir w.fs) w.db rows
      × IsManifest date_subdir rows v.fs
write_manifest_file_lem env date_subdir w v n e =
    subst (Returned (Stands env date_subdir w)) e (write_manifest_file-Stands env date_subdir w)

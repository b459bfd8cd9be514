-- ===== src/Migration/Origins.antt =====
-- Where the files at the target come from when a migration has ended without an exception.
use browser_visit_logger.Base.{
  Text, Bool, true, false, Option, none, some, [], ◌∷◌, ◌≡◌, ◌⊎◌, inl, inr, refl, arith, ◌==◌,
  text_eq, if◌then◌else◌, ◌+◌,
}
use browser_visit_logger.Base.Dict.{Dict, get, put, pop, NodupKeys, get-put, get-pop, put-NodupKeys}
use browser_visit_logger.Migration.{
  Copier, Copied, delivered, broken, Ending, migrated, hash_mismatch, os_error, Migration,
  temporary, settle_copy, migrate_absent, migrate_over, migrate_file, unless_raised, migrate_files,
}
use browser_visit_logger.Migration.Copies.{Brought, NodupKeys-migrate_file}

-- What stands at the path stood there before, or is a copy of a file of the source at that path, with
-- the same hash.
abbrev pub Origin : Copier → Text → Dict Text → Option Text → Option Text → Type 0
Origin env path src before after =
    (t : Text) → after ≡ some t → (before ≡ some t) ⊎ Brought env path t src

abbrev pub IfMigrated : Copier → Text → Dict Text → Option Text → Migration × Ending → Type 0
IfMigrated env path src before (m, migrated) = Origin env path src before (get path m.dst)
IfMigrated env path src before (m, hash_mismatch) = Unit
IfMigrated env path src before (m, os_error) = Unit

module _ (env : Copier) (path : Text) where
  module _ (f : Text × Text) (m : Migration) (unique : NodupKeys m.dst) where
    abbrev Turned : Migration × Ending → Type 0
    Turned r = IfMigrated env path (f ∷ []) (get path m.dst) r

    settled : (c : Copied) → Turned (settle_copy env f.0 f.1 c m)
    unfolding settle_copy text_eq
    settled (broken none) = tt
    settled (broken (some left)) = tt
    settled (delivered left) = checked (env.sha256 left == env.sha256 f.1) refl
      where
        dropped : Dict Text
        dropped = pop (temporary f.0) (put (temporary f.0) left m.dst)

        popped : (t : Text) → get path dropped ≡ some t → get path m.dst ≡ some t
        popped t h = ground (
          arith,
          get-put path (temporary f.0) left m.dst,
          get-pop path (temporary f.0) (put (temporary f.0) left m.dst)
              (put-NodupKeys (temporary f.0) left m.dst unique),
        )

        renamed :
            (c : Bool)
            → (f.0 == path) ≡ c
            → env.sha256 left ≡ env.sha256 f.1
            → Origin env path (f ∷ []) (get path m.dst) (get path (put f.0 left dropped))
        renamed true e h t k =
            inr (inl (ground arith, ground (arith, h, get-put path f.0 left dropped)))
        renamed false e h t k = inl (popped t (ground (arith, get-put path f.0 left dropped)))

        checked :
            (b : Bool)
            → (env.sha256 left == env.sha256 f.1) ≡ b
            → Turned (
                if b
                then (record m { dst = put f.0 left dropped; copied = m.copied + 1 }, migrated)
                else (record m { dst = dropped }, hash_mismatch))
        checked true e = renamed (f.0 == path) refl (ground arith)
        checked false e = tt

    turned : (dry_run : Bool) → Turned (migrate_file env dry_run f m)
    unfolding migrate_file text_eq
    turned dry_run = over (get f.0 m.dst)
      where
        warned :
            (old : Text) (b : Bool)
            → Turned (if b then m else record m { warned = f.0 ∷ m.warned }, migrated)
        warned old true t h = inl h
        warned old false t h = inl h

        absent : (dry : Bool) → Turned (migrate_absent env dry f.0 f.1 m)
        absent true = λ t h. inl h
        absent false = settled (env.copy2 f.0 f.1)

        over : (o : Option Text) → Turned (migrate_over env dry_run f.0 f.1 o m)
        over (some old) = warned old (env.sha256 f.1 == env.sha256 old)
        over none = absent dry_run

  -- A turn and what follows it.
  Origin-trans :
      (f : Text × Text) (src : Dict Text) (before between after : Option Text)
      → Origin env path (f ∷ []) before between
      → Origin env path src between after
      → Origin env path (f ∷ src) before after
  Origin-trans f src before between after first later t h = late (later t h)
    where
      early :
          (before ≡ some t) ⊎ Brought env path t (f ∷ [])
          → (before ≡ some t) ⊎ Brought env path t (f ∷ src)
      early (inl e) = inl e
      early (inr (inl b)) = inr (inl b)
      early (inr (inr b)) = absurd b

      late :
          (between ≡ some t) ⊎ Brought env path t src
          → (before ≡ some t) ⊎ Brought env path t (f ∷ src)
      late (inl e) = early (first t e)
      late (inr b) = inr (inr b)

  pub migrate_files-Origin :
      (dry_run : Bool) (src : Dict Text) (m : Migration)
      → NodupKeys m.dst
      → IfMigrated env path src (get path m.dst) (migrate_files env dry_run src m)
  unfolding migrate_files
  migrate_files-Origin dry_run [] m unique = λ t h. inl h
  migrate_files-Origin dry_run (f ∷ src) m unique =
      next (migrate_file env dry_run f m) (turned f m unique dry_run)
        (NodupKeys-migrate_file env f m unique dry_run)
        (λ n u. migrate_files-Origin dry_run src n u)
    where
      next :
          (r : Migration × Ending)
          → IfMigrated env path (f ∷ []) (get path m.dst) r
          → NodupKeys r.0.dst
          → ((n : Migration)
              → NodupKeys n.dst
              → IfMigrated env path src (get path n.dst) (migrate_files env dry_run src n))
          → IfMigrated env path
              (f ∷ src)
              (get path m.dst)
              (unless_raised env (migrate_files env dry_run src) r)
      next (n, migrated) o u later = both (migrate_files env dry_run src n) (later n u)
        where
          both :
              (r : Migration × Ending)
              → IfMigrated env path src (get path n.dst) r
              → IfMigrated env path (f ∷ src) (get path m.dst) r
          both (k, migrated) rest =
              Origin-trans f src (get path m.dst) (get path n.dst) (get path k.dst) o rest
          both (k, hash_mismatch) rest = tt
          both (k, os_error) rest = tt
      next (n, hash_mismatch) o u later = tt
      next (n, os_error) o u later = tt

-- ===== src/Migration/Copies.antt =====
-- The files that a migration leaves at the target.
use browser_visit_logger.Base.{
  Text, Bool, true, false, Option, none, some, [], ◌∷◌, ◌≡◌, ◌⊎◌, inl, inr, refl, sym, ◌∙◌, arith,
  ◌==◌, text_eq, if◌then◌else◌, All, ◌+◌,
}
use browser_visit_logger.Base.Dict.{
  Dict, get, put, pop, NodupKeys, get-put, get-pop, put-NodupKeys, pop-NodupKeys,
}
use browser_visit_logger.Migration.{
  Copier, Copied, delivered, broken, Ending, migrated, hash_mismatch, os_error, Migration,
  temporary, settle_copy, migrate_absent, migrate_over, migrate_file, unless_raised, migrate_files,
}

-- The path is the temporary name of no file of the source.
abbrev pub NotTemporary : Text → Dict Text → Type 0
NotTemporary path src = All (λ (f : Text × Text). (temporary f.0 == path) ≡ false) src

-- The source has a file at the path whose content has the same hash.
abbrev pub Brought : Copier → Text → Text → Dict Text → Type 0
Brought env path t [] = ⊥
Brought env path t (f ∷ src) =
    ((f.0 ≡ path) × (env.sha256 t ≡ env.sha256 f.1)) ⊎ Brought env path t src

-- A path keeps what it had; or it had nothing, and has a copy of the source's file there.
abbrev pub Sound : Copier → Text → Dict Text → Option Text → Option Text → Type 0
Sound env path src before after =
    (after ≡ before) ⊎ ((before ≡ none) × ((t : Text) × (after ≡ some t) × Brought env path t src))

module _ (env : Copier) (path : Text) where
  module _ (f : Text × Text) (m : Migration) (unique : NodupKeys m.dst)
      (apart : (temporary f.0 == path) ≡ false) where
    -- What one turn does.
    abbrev Turned : Migration × Ending → Type 0
    Turned r = Sound env path (f ∷ []) (get path m.dst) (get path r.0.dst) × NodupKeys r.0.dst

    kept_lem : (left : Text) → get path (put (temporary f.0) left m.dst) ≡ get path m.dst
    unfolding text_eq
    kept_lem left = ground (arith, get-put path (temporary f.0) left m.dst)

    dropped_lem :
        (left : Text)
        → get path (pop (temporary f.0) (put (temporary f.0) left m.dst)) ≡ get path m.dst
    unfolding text_eq
    dropped_lem left = ground (
      arith,
      kept_lem left,
      get-pop path (temporary f.0) (put (temporary f.0) left m.dst)
          (put-NodupKeys (temporary f.0) left m.dst unique),
    )

    settle_copy_lem : (c : Copied) → get f.0 m.dst ≡ none → Turned (settle_copy env f.0 f.1 c m)
    unfolding settle_copy text_eq
    settle_copy_lem (broken none) absent = (inl refl, unique)
    settle_copy_lem (broken (some left)) absent =
        (inl (kept_lem left), put-NodupKeys _ left m.dst unique)
    settle_copy_lem (delivered left) absent = checked (env.sha256 left == env.sha256 f.1) refl
      where
        dropped : Dict Text
        dropped = pop (temporary f.0) (put (temporary f.0) left m.dst)

        unique_dropped : NodupKeys dropped
        unique_dropped =
            pop-NodupKeys (temporary f.0) _ (put-NodupKeys (temporary f.0) left m.dst unique)

        renamed :
            (c : Bool)
            → (f.0 == path) ≡ c
            → env.sha256 left ≡ env.sha256 f.1
            → Sound env path (f ∷ []) (get path m.dst) (get path (put f.0 left dropped))
        renamed true e h = inr (
          ground (arith, absent),
          (left, ground (arith, get-put path f.0 left dropped), inl (ground arith, h)),
        )
        renamed false e h = inl (ground (arith, get-put path f.0 left dropped, dropped_lem left))

        checked :
            (b : Bool)
            → (env.sha256 left == env.sha256 f.1) ≡ b
            → Turned (
                if b
                then (record m { dst = put f.0 left dropped; copied = m.copied + 1 }, migrated)
                else (record m { dst = dropped }, hash_mismatch))
        checked true e = (
          renamed (f.0 == path) refl (ground arith),
          put-NodupKeys f.0 left dropped unique_dropped,
        )
        checked false e = (inl (dropped_lem left), unique_dropped)

    migrate_file_lem : (dry_run : Bool) → Turned (migrate_file env dry_run f m)
    unfolding migrate_file text_eq
    migrate_file_lem dry_run = over (get f.0 m.dst) refl
      where
        warned :
            (old : Text) (b : Bool)
            → Turned (if b then m else record m { warned = f.0 ∷ m.warned }, migrated)
        warned old true = (inl refl, unique)
        warned old false = (inl refl, unique)

        over : (o : Option Text) → get f.0 m.dst ≡ o → Turned (migrate_over env dry_run f.0 f.1 o m)
        over (some old) e = warned old (env.sha256 f.1 == env.sha256 old)
        over none e = absent dry_run e
          where
            absent : (dry : Bool) → get f.0 m.dst ≡ none → Turned (migrate_absent env dry f.0 f.1 m)
            absent true h = (inl refl, unique)
            absent false h = settle_copy_lem (env.copy2 f.0 f.1) h

  -- A turn and what follows it.
  Sound-trans :
      (f : Text × Text) (src : Dict Text) (before between after : Option Text)
      → Sound env path (f ∷ []) before between
      → Sound env path src between after
      → Sound env path (f ∷ src) before after
  Sound-trans f src before between after (inl e) (inl d) = inl (d ∙ e)
  Sound-trans f src before between after (inl e) (inr (gone, (t, here, brought))) =
      inr (sym e ∙ gone, (t, here, inr brought))
  Sound-trans f src before between after (inr (gone, (t, here, inl brought))) (inl d) =
      inr (gone, (t, d ∙ here, inl brought))
  Sound-trans f src before between after (inr (gone, (t, here, inr brought))) later = absurd brought
  Sound-trans f src before between after (inr (gone, (t, here, inl brought)))
        (inr (gone_there, rest)) =
      absurd (cc)

  -- However a migration ends, each path of the target that is the temporary name of no source file
  -- holds what it held before, or it was free and now holds a copy of the source file at that path
  -- with the same hash: nothing is overwritten, and no part of a file stands under its name.
  pub migrate_files-Sound :
      (dry_run : Bool) (src : Dict Text) (m : Migration)
      → NodupKeys m.dst
      → NotTemporary path src
      → Sound env path src (get path m.dst) (get path (migrate_files env dry_run src m).0.dst)
  unfolding migrate_files
  migrate_files-Sound dry_run [] m unique apart = inl refl
  migrate_files-Sound dry_run (f ∷ src) m unique (apart, others) =
      let turned = migrate_file_lem f m unique apart dry_run in
      Sound-trans f src (get path m.dst) (get path (migrate_file env dry_run f m).0.dst) _ turned.0
        (next (migrate_file env dry_run f m) turned.1
          (λ n u. migrate_files-Sound dry_run src n u others))
    where
      next :
          (r : Migration × Ending)
          → NodupKeys r.0.dst
          → ((n : Migration)
              → NodupKeys n.dst
              → Sound env path src
                  (get path n.dst)
                  (get path (migrate_files env dry_run src n).0.dst))
          → Sound env path src
              (get path r.0.dst)
              (get path (unless_raised env (migrate_files env dry_run src) r).0.dst)
      next (n, migrated) u later = later n u
      next (n, hash_mismatch) u later = inl refl
      next (n, os_error) u later = inl refl

-- No file of the source has the temporary name of one that is copied after it.
abbrev pub Undisturbed : Dict Text → Type 0
Undisturbed [] = Unit
Undisturbed (f ∷ src) = NotTemporary f.0 src × Undisturbed src

abbrev pub Present : Dict Text → Text × Text → Type 0
Present dst f = (t : Text) × (get f.0 dst ≡ some t)

-- What a migration has done by how it ends.
abbrev pub Finished : Bool → Dict Text → Dict Text → Migration × Ending → Type 0
Finished true src before (m, e) = m.dst ≡ before
Finished false src before (m, migrated) = All (Present m.dst) src
Finished false src before (m, hash_mismatch) = Unit
Finished false src before (m, os_error) = Unit

module _ (env : Copier) where
  Present-migrate_file :
      (f : Text × Text) (m : Migration) → Finished false (f ∷ []) m.dst (migrate_file env false f m)
  unfolding migrate_file settle_copy text_eq
  Present-migrate_file f m = over (get f.0 m.dst) refl
    where
      there :
          (old : Text) (b : Bool)
          → get f.0 m.dst ≡ some old
          → Finished false
              (f ∷ [])
              m.dst
              (if b then m else record m { warned = f.0 ∷ m.warned }, migrated)
      there old true e = ((old, e), tt)
      there old false e = ((old, e), tt)

      checked :
          (left : Text) (d : Dict Text) (b : Bool)
          → Finished false (f ∷ []) m.dst (
              if b
              then (record m { dst = put f.0 left d; copied = m.copied + 1 }, migrated)
              else (record m { dst = d }, hash_mismatch))
      checked left d true = ((left, ground (arith, get-put f.0 f.0 left d)), tt)
      checked left d false = tt

      settled : (c : Copied) → Finished false (f ∷ []) m.dst (settle_copy env f.0 f.1 c m)
      settled (broken none) = tt
      settled (broken (some left)) = tt
      settled (delivered left) =
          checked left (pop (temporary f.0) (put (temporary f.0) left m.dst))
            (env.sha256 left == env.sha256 f.1)

      over :
          (o : Option Text)
          → get f.0 m.dst ≡ o
          → Finished false (f ∷ []) m.dst (migrate_over env false f.0 f.1 o m)
      over (some old) e = there old (env.sha256 f.1 == env.sha256 old) e
      over none e = settled (env.copy2 f.0 f.1)

  abbrev Dry : Dict Text → Migration × Ending → Type 0
  Dry before (m, migrated) = m.dst ≡ before
  Dry before (m, hash_mismatch) = ⊥
  Dry before (m, os_error) = ⊥

  Dry-migrate_file : (f : Text × Text) (m : Migration) → Dry m.dst (migrate_file env true f m)
  unfolding migrate_file text_eq
  Dry-migrate_file f m = over (get f.0 m.dst)
    where
      there :
          (b : Bool) → Dry m.dst (if b then m else record m { warned = f.0 ∷ m.warned }, migrated)
      there true = refl
      there false = refl

      over : (o : Option Text) → Dry m.dst (migrate_over env true f.0 f.1 o m)
      over (some old) = there (env.sha256 f.1 == env.sha256 old)
      over none = refl

  Dry-next :
      (src : Dict Text) (before : Dict Text) (r : Migration × Ending)
      → Dry before r
      → ((n : Migration) → (migrate_files env true src n).0.dst ≡ n.dst)
      → (unless_raised env (migrate_files env true src) r).0.dst ≡ before
  Dry-next src before (n, migrated) d later = later n ∙ d
  Dry-next src before (n, hash_mismatch) d later = absurd d
  Dry-next src before (n, os_error) d later = absurd d

  dst-migrate_files :
      (src : Dict Text) (m : Migration) → (migrate_files env true src m).0.dst ≡ m.dst
  unfolding migrate_files
  dst-migrate_files [] m = refl
  dst-migrate_files (f ∷ src) m =
      Dry-next src m.dst (migrate_file env true f m) (Dry-migrate_file f m) (dst-migrate_files src)

  Present-kept :
      (f : Text × Text) (src : Dict Text) (before after : Dict Text)
      → Present before f
      → Sound env f.0 src (get f.0 before) (get f.0 after)
      → Present after f
  Present-kept f src before after (t, here) (inl e) = (t, e ∙ here)
  Present-kept f src before after (t, here) (inr (gone, rest)) = absurd (cc)

  nonempty_lem : (path : Text) → (temporary path == []) ≡ false
  unfolding text_eq
  nonempty_lem [] = refl
  nonempty_lem (c ∷ path) = refl

  pub NodupKeys-migrate_file :
      (f : Text × Text) (m : Migration)
      → NodupKeys m.dst
      → (dry_run : Bool) → NodupKeys (migrate_file env dry_run f m).0.dst
  NodupKeys-migrate_file f m unique dry_run =
      (migrate_file_lem env [] f m unique (nonempty_lem f.0) dry_run).1

  Finished-next :
      (f : Text × Text) (src : Dict Text) (before : Dict Text) (r : Migration × Ending)
      → NodupKeys r.0.dst
      → Finished false (f ∷ []) before r
      → ((n : Migration)
          → NodupKeys n.dst
          → Present n.dst f
          → Present (migrate_files env false src n).0.dst f)
      → ((n : Migration)
          → NodupKeys n.dst
          → Finished false src n.dst (migrate_files env false src n))
      → Finished false (f ∷ src) before (unless_raised env (migrate_files env false src) r)
  Finished-next f src before (n, migrated) u (here, _) kept later =
      both (migrate_files env false src n) (kept n u here) (later n u)
    where
      both :
          (r : Migration × Ending)
          → Present r.0.dst f
          → Finished false src n.dst r
          → Finished false (f ∷ src) before r
      both (k, migrated) p all = (p, all)
      both (k, hash_mismatch) p all = tt
      both (k, os_error) p all = tt
  Finished-next f src before (n, hash_mismatch) u d kept later = tt
  Finished-next f src before (n, os_error) u d kept later = tt

  -- A dry run leaves the target as it is; a migration that ends without an exception has brought every
  -- file of the source, unless one of them has the temporary name of a file that is copied later.
  pub migrate_files-Finished :
      (dry_run : Bool) (src : Dict Text) (m : Migration)
      → NodupKeys m.dst
      → Undisturbed src
      → Finished dry_run src m.dst (migrate_files env dry_run src m)
  unfolding migrate_files
  migrate_files-Finished true src m unique apart = dst-migrate_files src m
  migrate_files-Finished false [] m unique apart = tt
  migrate_files-Finished false (f ∷ src) m unique (apart, others) =
      Finished-next f src m.dst (migrate_file env false f m)
        (NodupKeys-migrate_file f m unique false) (Present-migrate_file f m)
        (λ n u here.
          Present-kept f src n.dst (migrate_files env false src n).0.dst here
            (migrate_files-Sound env f.0 false src n u apart))
        (λ n u. migrate_files-Finished false src n u others)

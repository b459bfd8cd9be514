-- ===== src/Rebuilder/Rehydrate/Relocation.antt =====
-- The events that phase 2 moves.
use browser_visit_logger.Base.{
  ◌≡◌, refl, ◌∙◌, ◌≢◌, Text, true, false, List, [], ◌∷◌, arith, text_eq, nat_eq, ◌==◌, ◌≤◌, ◌+◌, ℕ,
  Bool-cases, contains, inl, inr,
}
use browser_visit_logger.Database.{Event, Db}
use browser_visit_logger.Base.Table.{count}
use browser_visit_logger.Rebuilder.Rehydrate.{
  rehydrate_files, rehydrate_file, relocate, Rehydration, is_passed_over, filed_in, is_day_dir,
  rehydrate_day, rehydrate_filesystem, rehydrate_days, rehydrate_row, sealed_flag,
}
use mathlib.Core.Bool.{false≢true}
use mathlib.Core.Path.{subst}
use browser_visit_logger.Files.{Files, is_dir, list_dir}
use browser_visit_logger.Paths.{path_join}
use browser_visit_logger.Base.Sorting.{sorted, contains-sorted}
use browser_visit_logger.Base.Strings.{text_le}

-- The events that still point to a directory.
pub pointing : Text → List Event → ℕ
pointing directory rows = count (λ e. e.directory == directory) rows

module _ (downloads date_dir name : Text) (moves : date_dir ≢ downloads) where
  count-relocate_self :
      (rows : List Event)
      → count (filed_in name downloads) (relocate downloads date_dir name rows) ≡ 0
  unfolding count relocate
  count-relocate_self [] = refl
  count-relocate_self (e ∷ rows) = ground (arith, count-relocate_self rows)

  count-relocate_le :
      (other : Text) (rows : List Event)
      → count (filed_in other downloads) (relocate downloads date_dir name rows)
        ≤ count (filed_in other downloads) rows
  unfolding count relocate
  count-relocate_le other [] = omega arith
  count-relocate_le other (e ∷ rows) = ground (arith, count-relocate_le other rows)

  pointing-relocate :
      (rows : List Event)
      → pointing downloads (relocate downloads date_dir name rows)
          + count (filed_in name downloads) rows
        ≡ pointing downloads rows
  unfolding count relocate pointing
  pointing-relocate [] = refl
  pointing-relocate (e ∷ rows) = ground (arith, pointing-relocate rows)

-- The events of both tables that a snapshot file would move.
pub movable : Text → Text → Db → ℕ
movable downloads name db =
    count (filed_in name downloads) db.read_events.rows
    + count (filed_in name downloads) db.skimmed_events.rows

pub left_behind : Text → Db → ℕ
unfolding pointing
left_behind downloads db =
    pointing downloads db.read_events.rows + pointing downloads db.skimmed_events.rows

module _ (downloads date_dir : Text) (moves : date_dir ≢ downloads) where
  movable-rehydrate_file :
      (name other : Text) (s : Rehydration)
      → movable downloads other (rehydrate_file downloads date_dir name s).db
        ≤ movable downloads other s.db
  unfolding rehydrate_file movable
  movable-rehydrate_file name other s = ground (
    arith,
    count-relocate_le downloads date_dir name moves other s.db.read_events.rows,
    count-relocate_le downloads date_dir name moves other s.db.skimmed_events.rows,
  )

  movable-rehydrate_file_self :
      (name : Text) (s : Rehydration)
      → movable downloads name (rehydrate_file downloads date_dir name s).db ≡ 0
  unfolding rehydrate_file movable
  movable-rehydrate_file_self name s = ground (
    arith,
    count-relocate_self downloads date_dir name moves s.db.read_events.rows,
    count-relocate_self downloads date_dir name moves s.db.skimmed_events.rows,
  )

  left_behind-rehydrate_file :
      (name : Text) (s : Rehydration)
      → left_behind downloads (rehydrate_file downloads date_dir name s).db
          + (rehydrate_file downloads date_dir name s).stats.events_relocated
        ≡ left_behind downloads s.db + s.stats.events_relocated
  unfolding rehydrate_file left_behind
  left_behind-rehydrate_file name s = ground (
    arith,
    pointing-relocate downloads date_dir name moves s.db.read_events.rows,
    pointing-relocate downloads date_dir name moves s.db.skimmed_events.rows,
  )

  module _ (day : Text) where
    movable-rehydrate_files :
        (names : List Text) (other : Text) (s : Rehydration)
        → movable downloads other (rehydrate_files downloads day date_dir names s).db
          ≤ movable downloads other s.db
    unfolding rehydrate_files
    movable-rehydrate_files [] other s = omega arith
    movable-rehydrate_files (name ∷ names) other s = elim (Bool-cases (is_passed_over day name)) [
      | inl p ↦ rw (p, rehydrate_files) (movable-rehydrate_files names other s)
      | inr p ↦
          rw (p, rehydrate_files)
            (omega (
              arith,
              movable-rehydrate_files names other (rehydrate_file downloads date_dir name s),
              movable-rehydrate_file name other s,
            ))
    ]

    movable_after :
        (names : List Text) (name : Text) (s : Rehydration)
        → is_passed_over day name ≡ false
        → contains names name ≡ true
        → movable downloads name (rehydrate_files downloads day date_dir names s).db ≡ 0
    unfolding rehydrate_files
    movable_after [] name s p h = absurd (false≢true h)
    movable_after (n ∷ names) name s p h = elim (text_eq.dec name n) [
      | yes same ↦
          subst
            (λ x.
              movable downloads name (rehydrate_files downloads day date_dir (x ∷ names) s).db ≡ 0)
            same
            (rw (p, rehydrate_files)
              (omega (
                arith,
                movable-rehydrate_files names name (rehydrate_file downloads date_dir name s),
                movable-rehydrate_file_self name s,
              )))
      | no other ↦ movable_after names name _ p (ground arith)
    ]

    left_behind-rehydrate_files :
        (names : List Text) (s : Rehydration)
        → left_behind downloads (rehydrate_files downloads day date_dir names s).db
            + (rehydrate_files downloads day date_dir names s).stats.events_relocated
          ≡ left_behind downloads s.db + s.stats.events_relocated
    unfolding rehydrate_files
    left_behind-rehydrate_files [] s = refl
    left_behind-rehydrate_files (name ∷ names) s = elim (Bool-cases (is_passed_over day name)) [
      | inl p ↦ rw (p, rehydrate_files) (left_behind-rehydrate_files names s)
      | inr p ↦
          rw (p, rehydrate_files)
            (left_behind-rehydrate_files names (rehydrate_file downloads date_dir name s)
              ∙ left_behind-rehydrate_file name s)
    ]

-- The row of a day touches no event.
module _ (fs : Files) (icloud_dir day downloads : Text) where
  movable-rehydrate_row :
      (other : Text) (s : Rehydration)
      → movable downloads other (rehydrate_row fs icloud_dir day s).db
        ≡ movable downloads other s.db
  unfolding rehydrate_row movable
  movable-rehydrate_row other s = refl

  events_relocated-rehydrate_row :
      (s : Rehydration)
      → (rehydrate_row fs icloud_dir day s).stats.events_relocated ≡ s.stats.events_relocated
  unfolding rehydrate_row
  events_relocated-rehydrate_row s = elim (Bool-cases (sealed_flag fs icloud_dir day == 1)) [
    | inl p ↦ rw (p, rehydrate_row) refl
    | inr p ↦ rw (p, rehydrate_row) refl
  ]

  left_behind-rehydrate_row :
      (s : Rehydration)
      → left_behind downloads (rehydrate_row fs icloud_dir day s).db
          + (rehydrate_row fs icloud_dir day s).stats.events_relocated
        ≡ left_behind downloads s.db + s.stats.events_relocated
  left_behind-rehydrate_row s =
      rw events_relocated-rehydrate_row (unfold rehydrate_row left_behind in refl)

module _ (downloads : Text) (fs : Files) (icloud_dir : Text)
    (moves : (day : Text)
      → is_day_dir fs icloud_dir day ≡ true
      → path_join icloud_dir day ≢ downloads) where
  movable-rehydrate_day :
      (day other : Text) (s : Rehydration)
      → movable downloads other (rehydrate_day downloads fs icloud_dir day s).db
        ≤ movable downloads other s.db
  unfolding rehydrate_day
  movable-rehydrate_day day other s = elim (Bool-cases (is_day_dir fs icloud_dir day)) [
    | inl here ↦ rw here (
        omega (
          arith,
          movable-rehydrate_row fs icloud_dir day downloads other s,
          movable-rehydrate_files downloads (path_join icloud_dir day) (moves day here) day
              (sorted text_le (list_dir (path_join icloud_dir day) fs)) other
              (rehydrate_row fs icloud_dir day s),
        ))
    | inr gone ↦ rw gone (omega arith)
  ]

  movable-rehydrate_days :
      (days : List Text) (other : Text) (s : Rehydration)
      → movable downloads other (rehydrate_days downloads fs icloud_dir days s).db
        ≤ movable downloads other s.db
  unfolding rehydrate_days
  movable-rehydrate_days [] other s = omega arith
  movable-rehydrate_days (day ∷ days) other s = omega (
    arith,
    movable-rehydrate_days days other (rehydrate_day downloads fs icloud_dir day s),
    movable-rehydrate_day day other s,
  )

  left_behind-rehydrate_day :
      (day : Text) (s : Rehydration)
      → left_behind downloads (rehydrate_day downloads fs icloud_dir day s).db
          + (rehydrate_day downloads fs icloud_dir day s).stats.events_relocated
        ≡ left_behind downloads s.db + s.stats.events_relocated
  unfolding rehydrate_day
  left_behind-rehydrate_day day s = elim (Bool-cases (is_day_dir fs icloud_dir day)) [
    | inl here ↦
        rw (here, rehydrate_day)
          (left_behind-rehydrate_files downloads (path_join icloud_dir day) (moves day here) day
              (sorted text_le (list_dir (path_join icloud_dir day) fs))
              (rehydrate_row fs icloud_dir day s)
            ∙ left_behind-rehydrate_row fs icloud_dir day downloads s)
    | inr gone ↦ rw (gone, rehydrate_day) refl
  ]

  left_behind-rehydrate_days :
      (days : List Text) (s : Rehydration)
      → left_behind downloads (rehydrate_days downloads fs icloud_dir days s).db
          + (rehydrate_days downloads fs icloud_dir days s).stats.events_relocated
        ≡ left_behind downloads s.db + s.stats.events_relocated
  unfolding rehydrate_days
  left_behind-rehydrate_days [] s = refl
  left_behind-rehydrate_days (day ∷ days) s =
      left_behind-rehydrate_days days (rehydrate_day downloads fs icloud_dir day s)
      ∙ left_behind-rehydrate_day day s

  -- Phase 2 reports as relocated exactly the events, of both tables, that no longer point to Downloads,
  -- provided that no day's directory is the Downloads directory itself.
  pub events_relocated_lem :
      (db : Db)
      → left_behind downloads (rehydrate_filesystem downloads fs icloud_dir db).db
          + (rehydrate_filesystem downloads fs icloud_dir db).stats.events_relocated
        ≡ left_behind downloads db
  unfolding rehydrate_filesystem
  events_relocated_lem db = elim (Bool-cases (is_dir icloud_dir fs)) [
    | inl h ↦
        rw (h, rehydrate_filesystem)
          (left_behind-rehydrate_days (sorted text_le (list_dir icloud_dir fs)) _ ∙ omega arith)
    | inr h ↦ rw (h, rehydrate_filesystem) (omega arith)
  ]

  module _ (day name : Text) (dated : is_day_dir fs icloud_dir day ≡ true)
      (listed : contains (list_dir (path_join icloud_dir day) fs) name ≡ true)
      (snapshot : is_passed_over day name ≡ false) where
    movable_after_day :
        (s : Rehydration)
        → movable downloads name (rehydrate_day downloads fs icloud_dir day s).db ≡ 0
    unfolding rehydrate_day
    movable_after_day s = rw dated (
        movable_after downloads (path_join icloud_dir day) (moves day dated) day
          (sorted text_le (list_dir (path_join icloud_dir day) fs)) name
          (rehydrate_row fs icloud_dir day s) snapshot
          (contains-sorted text_le name (list_dir (path_join icloud_dir day) fs) ∙ listed))

    movable_after_days :
        (days : List Text) (s : Rehydration)
        → contains days day ≡ true
        → movable downloads name (rehydrate_days downloads fs icloud_dir days s).db ≡ 0
    unfolding rehydrate_days
    movable_after_days [] s h = absurd (false≢true h)
    movable_after_days (d ∷ days) s h = elim (text_eq.dec day d) [
      | yes same ↦
          subst
            (λ x.
              movable downloads name (rehydrate_days downloads fs icloud_dir (x ∷ days) s).db ≡ 0)
            same
            (omega (
              arith,
              movable-rehydrate_days days name (rehydrate_day downloads fs icloud_dir day s),
              movable_after_day s,
            ))
      | no other ↦ movable_after_days days _ (ground arith)
    ]

    -- After phase 2 no event of either table with the name of a snapshot file that stands in the
    -- directory of a day points to Downloads any more, provided that no day's directory is the Downloads
    -- directory itself.
    pub rehydrate_leaves_nothing_behind :
        (db : Db)
        → is_dir icloud_dir fs ≡ true
        → contains (list_dir icloud_dir fs) day ≡ true
        → movable downloads name (rehydrate_filesystem downloads fs icloud_dir db).db ≡ 0
    unfolding rehydrate_filesystem
    rehydrate_leaves_nothing_behind db h c = rw h (
        movable_after_days (sorted text_le (list_dir icloud_dir fs)) _
          (contains-sorted text_le day (list_dir icloud_dir fs) ∙ c))

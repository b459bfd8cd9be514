-- ===== src/Rebuilder/Rehydrate/Sealed.antt =====
-- The `snapshots` rows that phase 2 leaves.
use browser_visit_logger.Base.{
  ◌≡◌, refl, ◌∙◌, Text, Bool, true, false, List, [], ◌∷◌, ◌++◌, arith, text_eq, nat_eq, All, ◌==◌,
  if◌then◌else◌, ℕ, Option, some, Bool-cases, inl, inr, contains,
}
use mathlib.Core.Option
use browser_visit_logger.Base.Table.{exists, first, update}
use browser_visit_logger.Database.{Snapshot, Db}
use browser_visit_logger.Rebuilder.Rehydrate.{
  rehydrate_files, note_sealed, Rehydration, rehydrate_days, sealed_flag, rehydrate_row,
  rehydrate_file, rehydrate_day, is_day_dir, is_passed_over, rehydrate_filesystem,
}
use browser_visit_logger.Files.{Files, is_dir, list_dir}
use browser_visit_logger.Base.Sorting.{sorted, All-contains, contains-sorted}
use browser_visit_logger.Base.Strings.{text_le}

abbrev pub snapshot_at : Text → List Snapshot → Option Snapshot
snapshot_at day = first (λ r. r.date == day)

abbrev with_flag : ℕ → Snapshot → Snapshot
with_flag flag r = record r { sealed = flag }

first-update_flag :
    (d e : Text) (flag : ℕ) (rows : List Snapshot)
    → snapshot_at d (update (λ r. r.date == e) (with_flag flag) rows)
      ≡ (if e == d then Option.map (with_flag flag) (snapshot_at d rows) else snapshot_at d rows)
unfolding first update
first-update_flag d e flag [] = ground arith
first-update_flag d e flag (r ∷ rows) = ground (arith, first-update_flag d e flag rows)

first-append_new :
    (d e : Text) (flag : ℕ) (rows : List Snapshot)
    → exists (λ r. r.date == e) rows ≡ false
    → snapshot_at d (rows ++ record { date = e; sealed = flag } ∷ [])
      ≡ (if e == d then some (record { date = e; sealed = flag }) else snapshot_at d rows)
unfolding first exists
first-append_new d e flag [] h = ground arith
first-append_new d e flag (r ∷ rows) h = ground (arith, first-append_new d e flag rows)

map-with_flag :
    (e : Text) (flag : ℕ) (rows : List Snapshot)
    → exists (λ r. r.date == e) rows ≡ true
    → Option.map (with_flag flag) (snapshot_at e rows) ≡ some (record { date = e; sealed = flag })
unfolding first exists
map-with_flag e flag [] h = ground arith
map-with_flag e flag (r ∷ rows) h = ground (arith, map-with_flag e flag rows)

-- `note_sealed` writes the row of its day and no other row.
pub snapshot_at-note_sealed :
    (d e : Text) (flag : ℕ) (rows : List Snapshot)
    → snapshot_at d (note_sealed e flag rows)
      ≡ (if e == d then some (record { date = e; sealed = flag }) else snapshot_at d rows)
unfolding note_sealed
snapshot_at-note_sealed d e flag rows = elim (Bool-cases (exists (λ r. r.date == e) rows)) [
  | inl there ↦
      rw there (first-update_flag d e flag rows ∙ ground (arith, map-with_flag e flag rows there))
  | inr absent ↦ rw absent (first-append_new d e flag rows absent)
]

module _ (downloads : Text) where
  snapshots-rehydrate_files :
      (day date_dir : Text) (names : List Text) (s : Rehydration)
      → (rehydrate_files downloads day date_dir names s).db.snapshots ≡ s.db.snapshots
  unfolding rehydrate_files
  snapshots-rehydrate_files day date_dir [] s = refl
  snapshots-rehydrate_files day date_dir (name ∷ names) s =
      snapshots-rehydrate_files day date_dir names _ ∙ one (is_passed_over day name)
    where
      one :
          (b : Bool)
          → (if b then s else rehydrate_file downloads date_dir name s).db.snapshots
            ≡ s.db.snapshots
      one true = refl
      one false = unfold rehydrate_file in ground arith

module _ (downloads : Text) (fs : Files) (icloud_dir : Text) where
  abbrev flag_of : Text → ℕ
  flag_of = sealed_flag fs icloud_dir

  -- The row of the day says whether its directory has a manifest.
  abbrev pub IsNoted : Text → Rehydration → Type 0
  IsNoted d s = snapshot_at d s.db.snapshots ≡ some (record { date = d; sealed = flag_of d })

  IsNoted-row :
      (d entry : Text) (s : Rehydration)
      → IsNoted d s
      → IsNoted d (rehydrate_row fs icloud_dir entry s)
  unfolding rehydrate_row
  IsNoted-row d entry s h =
      ground (arith, h, snapshot_at-note_sealed d entry (flag_of entry) s.db.snapshots)

  IsNoted-own_row : (d : Text) (s : Rehydration) → IsNoted d (rehydrate_row fs icloud_dir d s)
  unfolding rehydrate_row
  IsNoted-own_row d s = ground (arith, snapshot_at-note_sealed d d (flag_of d) s.db.snapshots)

  IsNoted-day :
      (d entry : Text) (s : Rehydration)
      → IsNoted d s
      → IsNoted d (rehydrate_day downloads fs icloud_dir entry s)
  unfolding rehydrate_day
  IsNoted-day d entry s h = elim (Bool-cases (is_day_dir fs icloud_dir entry)) [
    | inl here ↦ rw here (rw snapshots-rehydrate_files (IsNoted-row d entry s h))
    | inr other ↦ rw other h
  ]

  IsNoted-days :
      (d : Text) (entries : List Text) (s : Rehydration)
      → IsNoted d s
      → IsNoted d (rehydrate_days downloads fs icloud_dir entries s)
  unfolding rehydrate_days
  IsNoted-days d [] s h = h
  IsNoted-days d (entry ∷ entries) s h = IsNoted-days d entries _ (IsNoted-day d entry s h)

  All-IsNoted :
      (entries : List Text) (s : Rehydration)
      → All
          (λ d.
            is_day_dir fs icloud_dir d ≡ true
            → IsNoted d (rehydrate_days downloads fs icloud_dir entries s))
          entries
  unfolding rehydrate_days
  All-IsNoted [] s = tt
  All-IsNoted (entry ∷ entries) s = (
    λ here. IsNoted-days entry entries _ (own_day here),
    All-IsNoted entries (rehydrate_day downloads fs icloud_dir entry s),
  )
    where
      own_day :
          is_day_dir fs icloud_dir entry ≡ true
          → IsNoted entry (rehydrate_day downloads fs icloud_dir entry s)
      own_day here =
          unfold rehydrate_day in rw here (rw snapshots-rehydrate_files (IsNoted-own_row entry s))

  -- After phase 2 every day directory of the archive has its `snapshots` row, and the row is sealed
  -- exactly where the directory holds a manifest.
  pub rehydrate_notes_every_day :
      (db : Db) (day : Text)
      → is_dir icloud_dir fs ≡ true
      → contains (list_dir icloud_dir fs) day ≡ true
      → is_day_dir fs icloud_dir day ≡ true
      → IsNoted day (rehydrate_filesystem downloads fs icloud_dir db)
  unfolding rehydrate_filesystem
  rehydrate_notes_every_day db day h listed here =
      let entries = sorted text_le (list_dir icloud_dir fs) in
      rw h (
        All-contains _ day entries (All-IsNoted entries _)
          (contains-sorted text_le day (list_dir icloud_dir fs) ∙ listed) here)

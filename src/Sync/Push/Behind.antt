-- ===== src/Sync/Push/Behind.antt =====
-- Which lines stand behind a cursor, over all lines of all local logs at once.
use browser_visit_logger.Base.{
  ℕ, zero, suc, Text, List, [], ◌∷◌, ◌++◌, ◌+◌, ◌==◌, ◌&&◌, ◌||◌, Bool, true, false, not, Option,
  none, some, ◌≡◌, refl, ◌∙◌, ap, sym, keep, leb, if◌then◌else◌, text_eq, nat_eq, arith, is_empty,
}
use mathlib.Core.List.{flat_map}
use browser_visit_logger.Base.Strings.{file_lines, text_le}
use browser_visit_logger.Database.{Offset, before_first, at_line}
use browser_visit_logger.Files.{Files, content_of}
use browser_visit_logger.Names.{log_filename_for}
use browser_visit_logger.Paths.{path_join}
use browser_visit_logger.Sync.Cursors.{Cursor}
use browser_visit_logger.Sync.Push.{
  LogLine, list_local_log_dates, read_log_lines_after, lines_after, start_offset, lines_to_push,
  is_after, cursor_after,
}

-- The lines of a log with their numbers from `i`.
unfoldable pub numbered : Text → ℕ → List Text → List LogLine
numbered date i [] = []
numbered date i (raw ∷ rest) =
    record { date = date; line_offset = i; raw_line = raw } ∷ numbered date (i + 1) rest

unfoldable pub all_lines : Text → Files → List LogLine
all_lines log_dir fs =
    flat_map
      (λ d. numbered d 0 (file_lines (content_of (path_join log_dir (log_filename_for d)) fs)))
      (list_local_log_dates log_dir fs)

-- The number of the first line behind an offset.
unfoldable pub next_line : Offset → ℕ
next_line before_first = 0
next_line (at_line k) = suc k

-- A line of a later day, or a later line of the cursor's day.
unfoldable pub is_behind : Cursor → LogLine → Bool
is_behind (cur_date, cur_off) l =
    text_le cur_date l.date && (not (l.date == cur_date) || leb (next_line cur_off) l.line_offset)

unfoldable pub lines_behind : Text → Cursor → Files → List LogLine
lines_behind log_dir cursor fs = keep (is_behind cursor) (all_lines log_dir fs)

-- The cursor on the last of the lines.
unfoldable pub last_place : List LogLine → Cursor → Cursor
last_place [] c = c
last_place (l ∷ []) c = (l.date, at_line l.line_offset)
last_place (l ∷ m ∷ ls) c = last_place (m ∷ ls) c

is_after_lem : (o : Offset) (i : ℕ) → is_after o i ≡ leb (next_line o) i
unfolding next_line
is_after_lem before_first i = ground arith
is_after_lem (at_line k) i = ground arith

-- The lines of one day behind the cursor.
numbered_behind :
    (cur : Text) (off : Offset) (d : Text) (i : ℕ) (ls : List Text)
    → keep (is_behind (cur, off)) (numbered d i ls)
      ≡ (if text_le cur d then lines_after d (start_offset (cur, off) d) i ls else [])
unfolding numbered is_behind lines_after
numbered_behind cur off d i [] = ground arith
numbered_behind cur off d i (raw ∷ ls) =
    ground (arith, numbered_behind cur off d (i + 1) ls, is_after_lem off i)

pub keep-append {κ} :
    {B : Type κ} (p : B → Bool) (xs ys : List B) → keep p (xs ++ ys) ≡ keep p xs ++ keep p ys
keep-append p [] ys = refl
keep-append p (x ∷ xs) ys = ground (arith, keep-append p xs ys)

module _ {ℓ κ} {A : Type ℓ} {B : Type κ} where
  -- What is kept of the pieces is the pieces of what is kept.
  keep-flat_map :
      (p : B → Bool) (q : A → Bool) (f g : A → List B)
      → ((x : A) → keep p (f x) ≡ (if q x then g x else []))
      → (xs : List A) → keep p (flat_map f xs) ≡ flat_map g (keep q xs)
  unfolding flat_map
  keep-flat_map p q f g h [] = refl
  keep-flat_map p q f g h (x ∷ xs) =
      keep-append p (f x) (flat_map f xs)
      ∙ ap (λ r. r ++ keep p (flat_map f xs)) (h x)
      ∙ ap (λ r. (if q x then g x else []) ++ r) (keep-flat_map p q f g h xs)
      ∙ one (q x)
    where
      one :
          (b : Bool)
          → (if b then g x else []) ++ flat_map g (keep q xs)
            ≡ flat_map g (elim b [ true ↦ x ∷ keep q xs | false ↦ keep q xs ])
      one true = refl
      one false = refl

keep_days : (days : List Text) → keep (text_le []) days ≡ days
unfolding browser_visit_logger.Base.Strings.text_lt
keep_days [] = refl
keep_days ([] ∷ days) = ap (λ r. [] ∷ r) (keep_days days)
keep_days ((c ∷ d) ∷ days) = ap (λ r. (c ∷ d) ∷ r) (keep_days days)

all_days :
    (cur : Text) (days : List Text)
    → (if is_empty cur then days else keep (text_le cur) days) ≡ keep (text_le cur) days
all_days [] days = sym (keep_days days)
all_days (c ∷ cur) days = refl

-- The days and offsets of the code single out the lines behind the cursor.
pub lines_to_push_lem :
    (log_dir : Text) (c : Cursor) (fs : Files)
    → lines_to_push log_dir c fs ≡ lines_behind log_dir c fs
unfolding lines_to_push lines_behind all_lines read_log_lines_after
lines_to_push_lem log_dir (cur, off) fs =
    ap (flat_map (λ d. read_log_lines_after log_dir d (start_offset (cur, off) d) fs))
      (all_days cur (list_local_log_dates log_dir fs))
    ∙ sym (
        keep-flat_map (is_behind (cur, off)) (text_le cur) _ _ (λ d. numbered_behind cur off d 0 _)
          (list_local_log_dates log_dir fs))

last_place_first :
    (m : LogLine) (ls : List LogLine) (c d : Cursor) → last_place (m ∷ ls) c ≡ last_place (m ∷ ls) d
unfolding last_place
last_place_first m [] c d = refl
last_place_first m (l ∷ ls) c d = last_place_first l ls c d

pub cursor_after_lem : (ls : List LogLine) (c : Cursor) → cursor_after ls c ≡ last_place ls c
unfolding cursor_after last_place
cursor_after_lem [] c = refl
cursor_after_lem (l ∷ []) c = refl
cursor_after_lem (l ∷ m ∷ ls) c =
    cursor_after_lem (m ∷ ls) (l.date, at_line l.line_offset)
    ∙ last_place_first m ls (l.date, at_line l.line_offset) c

-- ===== src/Names.antt =====
-- The regular expressions by which the program recognises file names: `_DATE_DIR_RE`,
-- `_SNAPSHOT_FILENAME_RE` and `_LOG_FILENAME_RE` of browser-visit-snapshot-lib/snapshot_mover.py
-- (with the copies in visits_rebuilder.py, sync_client.py and reset.py), and `_UUID_RE` of
-- visits_rebuilder.py.
pub mod Laws
use browser_visit_logger.Base.{
  ℕ, zero, suc, ◌+◌, Text, Bool, true, false, ◌&&◌, ◌||◌, Option, none, some, List, [], ◌∷◌, ◌++◌,
  leb, ◌==◌, nat_eq, text_eq, if◌then◌else◌, length, All,
}
use browser_visit_logger.Base.Strings.{codes, newline}

-- The code points of the digits zero in Unicode; the other nine digits follow each.
abbrev zeros : List ℕ
zeros =
    48 ∷ 1632 ∷ 1776 ∷ 1984 ∷ 2406 ∷ 2534 ∷ 2662 ∷ 2790 ∷ 2918 ∷ 3046 ∷ 3174 ∷ 3302 ∷ 3430 ∷ 3558
    ∷ 3664 ∷ 3792 ∷ 3872 ∷ 4160 ∷ 4240 ∷ 6112 ∷ 6160 ∷ 6470 ∷ 6608 ∷ 6784 ∷ 6800 ∷ 6992 ∷ 7088
    ∷ 7232 ∷ 7248 ∷ 42528 ∷ 43216 ∷ 43264 ∷ 43472 ∷ 43504 ∷ 43600 ∷ 44016 ∷ 65296 ∷ 66720 ∷ 68912
    ∷ 69734 ∷ 69872 ∷ 69942 ∷ 70096 ∷ 70384 ∷ 70736 ∷ 70864 ∷ 71248 ∷ 71360 ∷ 71472 ∷ 71904 ∷ 72016
    ∷ 72784 ∷ 73040 ∷ 73120 ∷ 92768 ∷ 92864 ∷ 93008 ∷ 120782 ∷ 120792 ∷ 120802 ∷ 120812 ∷ 120822
    ∷ 123200 ∷ 123632 ∷ 125264 ∷ 130032 ∷ []

in_rows : ℕ → List ℕ → Bool
in_rows c [] = false
in_rows c (z ∷ zs) = let rest = in_rows c zs in if leb z c && leb c (z + 9) then true else rest

-- `\d`
unfoldable pub is_digit : ℕ → Bool
unfolding in_rows
is_digit c = in_rows c zeros

-- The parts of a pattern: `\d`, or a character that stands for itself.
pub data Part : Type 0 where
  digit : Part
  lit : ℕ → Part

unfoldable pub fits : Part → ℕ → Bool
unfolding is_digit nat_eq
fits digit c = is_digit c
fits (lit d) c = c == d

-- A match of the pattern at the start of the text: what it matched, and the rest.
unfoldable pub consume : List Part → Text → Option (Text × Text)
unfolding fits
consume [] s = some ([], s)
consume (p ∷ ps) [] = none
consume (p ∷ ps) (c ∷ s) =
    let rest = consume ps s in
    if fits p c then elim rest [ none ↦ none | some (m, r) ↦ some (c ∷ m, r) ] else none

abbrev pub lits : Text → List Part
lits [] = []
lits (c ∷ s) = lit c ∷ lits s

-- `\d{4}-\d{2}-\d{2}`
abbrev pub date_shape : List Part
date_shape =
    digit ∷ digit ∷ digit ∷ digit ∷ lit b'-' ∷ digit ∷ digit ∷ lit b'-' ∷ digit ∷ digit ∷ []

-- `T\d{2}-\d{2}-\d{2}Z-`
abbrev pub time_shape : List Part
time_shape =
    lit b'T'
    ∷ digit
    ∷ digit
    ∷ lit b'-'
    ∷ digit
    ∷ digit
    ∷ lit b'-'
    ∷ digit
    ∷ digit
    ∷ lit b'Z'
    ∷ lit b'-'
    ∷ []

-- `$` holds at the end, and before a newline that ends the text.
abbrev pub at_end : Text → Bool
at_end [] = true
at_end (c ∷ []) = c == newline
at_end (c ∷ d ∷ s) = false

-- `.+$`: `.` is any character but a newline.
unfoldable pub some_then_end : Text → Bool
unfolding nat_eq
some_then_end [] = false
some_then_end (c ∷ []) = if c == newline then false else true
some_then_end (c ∷ d ∷ s) =
    let rest = some_then_end (d ∷ s) in if c == newline then false else at_end (d ∷ s) || rest

-- `_DATE_DIR_RE.match(name)`, as a test
unfoldable pub is_date_dir : Text → Bool
unfolding consume nat_eq
is_date_dir name = elim (consume date_shape name) [ none ↦ false | some (m, rest) ↦ at_end rest ]

-- `_LOG_FILENAME_RE.match(name)` and its group 1
unfoldable pub log_date : Text → Option Text
unfolding consume nat_eq
log_date name = elim (consume (lits (codes "browser-visits-")) name) [
  | none ↦ none
  | some (m, s) ↦ elim (consume date_shape s) [
    | none ↦ none
    | some (date, t) ↦ elim (consume (lits (codes ".log")) t) [
      | none ↦ none
      | some (l, rest) ↦ if at_end rest then some date else none
    ]
  ]
]

-- `_SNAPSHOT_FILENAME_RE.match(name)`, as a test
unfoldable pub is_snapshot_name : Text → Bool
unfolding consume nat_eq some_then_end
is_snapshot_name name = elim (consume (date_shape ++ time_shape) name) [
  | none ↦ false
  | some (m, rest) ↦ some_then_end rest
]

-- `[0-9a-f]`
is_hex : ℕ → Bool
is_hex c = (leb b'0' c && leb c b'9') || (leb b'a' c && leb c b'f')

all_hex : ℕ → Text → Bool
unfolding is_hex
all_hex zero [] = true
all_hex (suc n) [] = false
all_hex zero (c ∷ s) = false
all_hex (suc n) (c ∷ s) = is_hex c && all_hex n s

-- `_looks_like_uuid`: exactly 32 characters
unfoldable pub looks_like_uuid : Text → Bool
unfolding all_hex
looks_like_uuid field = all_hex 32 field

-- `_log_filename_for(date)`
abbrev pub log_filename_for : Text → Text
log_filename_for date = codes "browser-visits-" ++ (date ++ codes ".log")

-- ===== src/ReadingList/Markdown/Cells.antt =====
-- What a title can do to a row of the table.
use browser_visit_logger.Base.{
  Text, ℕ, [], ◌∷◌, nat_eq, true, false, Bool, not, ◌||◌, ◌&&◌, ◌==◌, ◌≡◌, arith, refl,
}
use browser_visit_logger.Base.Strings.{replace, codes, newline, tab, carriage_return}
use browser_visit_logger.Base.Strings.Laws.{Lacks, Lacks-replace, Lacks-replaced}
use browser_visit_logger.ReadingList.Strip.{left_strip, right_strip, strip}
use browser_visit_logger.ReadingList.Markdown.{escape_cell}

abbrev backslash : ℕ
backslash = b'\\'

-- Each `m` of a text behind the character `prev` has a backslash directly before it.
unfoldable pub guarded : ℕ → ℕ → Text → Bool
guarded m prev [] = true
guarded m prev (c ∷ s) = (not (c == m) || prev == backslash) && guarded m c s

replace-guarded :
    (m prev : ℕ) (s : Text)
    → backslash == m ≡ false
    → guarded m prev (replace m (backslash ∷ m ∷ []) s) ≡ true
unfolding guarded replace nat_eq
replace-guarded m prev [] h = refl
replace-guarded m prev (c ∷ s) h = ground (arith, replace-guarded m m s h, replace-guarded m c s h)

-- Escaping another character keeps it so,
replace_other-guarded :
    (m x prev : ℕ) (s : Text)
    → backslash == m ≡ false
    → x == m ≡ false
    → guarded m prev s ≡ true
    → guarded m prev (replace x (backslash ∷ x ∷ []) s) ≡ true
unfolding guarded replace nat_eq
replace_other-guarded m x prev [] h k g = refl
replace_other-guarded m x prev (c ∷ s) h k g = ground (arith, replace_other-guarded m x c s h k)

-- and so does stripping, since a backslash is no space.
left_strip-guarded :
    (m prev : ℕ) (s : Text)
    → prev == backslash ≡ false
    → guarded m prev s ≡ true
    → guarded m 0 (left_strip s) ≡ true
unfolding guarded left_strip nat_eq
left_strip-guarded m prev [] h g = refl
left_strip-guarded m prev (c ∷ s) h g = ground (arith, left_strip-guarded m c s)

right_strip-guarded :
    (m prev : ℕ) (s : Text) → guarded m prev s ≡ true → guarded m prev (right_strip s) ≡ true
unfolding guarded right_strip nat_eq
right_strip-guarded m prev [] g = refl
right_strip-guarded m prev (c ∷ s) g = ground (arith, right_strip-guarded m c s)

left_strip-Lacks : (c : ℕ) (s : Text) → Lacks c s → Lacks c (left_strip s)
unfolding left_strip
left_strip-Lacks c [] h = h
left_strip-Lacks c (d ∷ s) h = ground (arith, left_strip-Lacks c s)

right_strip-Lacks : (c : ℕ) (s : Text) → Lacks c s → Lacks c (right_strip s)
unfolding right_strip
right_strip-Lacks c [] h = h
right_strip-Lacks c (d ∷ s) h = ground (arith, right_strip-Lacks c s)

strip-Lacks : (c : ℕ) (s : Text) → Lacks c s → Lacks c (strip s)
unfolding strip
strip-Lacks c s h = right_strip-Lacks c (left_strip s) (left_strip-Lacks c s h)

-- The characters that end a cell, a label or a row.
pub data IsDelimiter : ℕ → Type 0 where
  bar : IsDelimiter b'|'
  open_bracket : IsDelimiter b'['
  close_bracket : IsDelimiter b']'

pub data IsBreak : ℕ → Type 0 where
  a_newline : IsBreak newline
  a_return : IsBreak carriage_return
  a_tab : IsBreak tab

unbroken : Text → Text
unbroken s =
    replace tab (codes " ") (replace newline (codes " ") (replace carriage_return (codes " ") s))

escaped-guarded :
    (m : ℕ) (s : Text)
    → IsDelimiter m
    → guarded m 0
        (replace b']' (codes "\\]") (replace b'[' (codes "\\[") (replace b'|' (codes "\\|") s)))
      ≡ true
unfolding nat_eq
escaped-guarded m s bar =
    replace_other-guarded b'|' b']' 0 (replace b'[' (codes "\\[") (replace b'|' (codes "\\|") s))
      refl refl
      (replace_other-guarded b'|' b'[' 0 (replace b'|' (codes "\\|") s) refl refl
        (replace-guarded b'|' 0 s refl))
escaped-guarded m s open_bracket =
    replace_other-guarded b'[' b']' 0 (replace b'[' (codes "\\[") (replace b'|' (codes "\\|") s))
      refl refl (replace-guarded b'[' 0 (replace b'|' (codes "\\|") s) refl)
escaped-guarded m s close_bracket =
    replace-guarded b']' 0 (replace b'[' (codes "\\[") (replace b'|' (codes "\\|") s)) refl

unbroken-Lacks : (c : ℕ) (s : Text) → IsBreak c → Lacks c (unbroken s)
unfolding unbroken nat_eq
unbroken-Lacks c s a_newline =
    Lacks-replace newline tab (codes " ") _ refl (Lacks-replaced newline (codes " ") _ refl)
unbroken-Lacks c s a_return = Lacks-replace carriage_return tab (codes " ") _ refl (
    Lacks-replace carriage_return newline (codes " ") _ refl
      (Lacks-replaced carriage_return (codes " ") s refl))
unbroken-Lacks c s a_tab = Lacks-replaced tab (codes " ") _ refl

escaped-Lacks :
    (c : ℕ) (s : Text)
    → Lacks c (codes "\\]")
    → Lacks c (codes "\\[")
    → Lacks c (codes "\\|")
    → Lacks c s
    → Lacks c
        (replace b']' (codes "\\]") (replace b'[' (codes "\\[") (replace b'|' (codes "\\|") s)))
escaped-Lacks c s h k n g =
    Lacks-replace c b']' (codes "\\]") _ h
      (Lacks-replace c b'[' (codes "\\[") _ k (Lacks-replace c b'|' (codes "\\|") s n g))

escape_cell-Lacks : (c : ℕ) (s : Text) → IsBreak c → Lacks c (escape_cell s)
unfolding escape_cell unbroken nat_eq
escape_cell-Lacks c s a_newline =
    strip-Lacks newline _
      (escaped-Lacks newline (unbroken s) refl refl refl (unbroken-Lacks newline s a_newline))
escape_cell-Lacks c s a_return = strip-Lacks carriage_return _ (
    escaped-Lacks carriage_return (unbroken s) refl refl refl
      (unbroken-Lacks carriage_return s a_return))
escape_cell-Lacks c s a_tab =
    strip-Lacks tab _ (escaped-Lacks tab (unbroken s) refl refl refl (unbroken-Lacks tab s a_tab))

strip-guarded : (m : ℕ) (s : Text) → guarded m 0 s ≡ true → guarded m 0 (strip s) ≡ true
unfolding strip nat_eq
strip-guarded m s h = right_strip-guarded m 0 (left_strip s) (left_strip-guarded m 0 s refl h)

-- Whatever a title holds, in the cell made of it each `|`, `[` and `]` has a backslash directly
-- before it, and there is no newline, carriage return or tab.
pub escape_cell-guarded :
    (s : Text)
    → ((m : ℕ) → IsDelimiter m → guarded m 0 (escape_cell s) ≡ true)
      × ((c : ℕ) → IsBreak c → Lacks c (escape_cell s))
unfolding escape_cell unbroken
escape_cell-guarded s =
    (λ m h. strip-guarded m _ (escaped-guarded m (unbroken s) h), λ c h. escape_cell-Lacks c s h)

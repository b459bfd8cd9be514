-- ===== src/Base/Strings.antt =====
-- Python's `str` methods, over the code points of a text.
pub mod Laws
use Prim.Native.Char.{code}
use Prim.Native.String.{String}
use Prim.Native.Nat.{ℕ, compare, Ordering, ◌+◌}
use mathlib.Core.Path.{◌≡◌, refl}
use mathlib.Core.Bool.{Bool, true, false, not, ◌&&◌, ◌||◌}
use mathlib.Core.Option.{Option, none, some}
use mathlib.Core.List.{List, [], ◌∷◌, ◌++◌, reverse}
use browser_visit_logger.Base.Equality.{Text, ◌==◌, nat_eq, text_eq, contains, if◌then◌else◌}
use browser_visit_logger.Base.Numbers.{ltb, leb}
use browser_visit_logger.Base.Lists.{take, is_empty}
use browser_visit_logger.Base.{suc, ◌/◌, ◌%◌, zero}

-- A literal of the source. `String` has its own `[]` and `∷`.
abbrev pub codes : String → Text
codes String.[] = []
codes (String.◌∷◌ c s) = code c ∷ codes s

abbrev pub tab : ℕ
tab = 9

abbrev pub newline : ℕ
newline = 10

abbrev pub carriage_return : ℕ
carriage_return = 13

-- Puts a character before the first part.
abbrev pub onto_first : ℕ → List Text → List Text
onto_first c [] = (c ∷ []) ∷ []
onto_first c (part ∷ parts) = (c ∷ part) ∷ parts

-- `s.split(sep)` at one character; never the empty list.
unfoldable pub split : ℕ → Text → List Text
unfolding nat_eq
split sep [] = [] ∷ []
split sep (c ∷ s) = let rest = split sep s in if c == sep then [] ∷ rest else onto_first c rest

-- `sep.join(parts)`
unfoldable pub join : Text → List Text → Text
join sep [] = []
join sep (part ∷ []) = part
join sep (part ∷ next ∷ parts) = part ++ (sep ++ join sep (next ∷ parts))

-- `s.replace(old, new)` for a text `old` of one character
unfoldable pub replace : ℕ → Text → Text → Text
unfolding nat_eq
replace old new [] = []
replace old new (c ∷ s) = (if c == old then new else c ∷ []) ++ replace old new s

-- What follows the prefix, where the text starts with it.
unfoldable pub after_prefix : Text → Text → Option Text
unfolding nat_eq
after_prefix [] s = some s
after_prefix (p ∷ prefix) [] = none
after_prefix (p ∷ prefix) (c ∷ s) =
    let rest = after_prefix prefix s in if c == p then rest else none

abbrev pub found : Option Text → Bool
found none = false
found (some rest) = true

-- `s.startswith(prefix)`
abbrev pub starts_with : Text → Text → Bool
starts_with s prefix = found (after_prefix prefix s)

-- `part in s`
unfoldable pub has_part : Text → Text → Bool
unfolding after_prefix
has_part part [] = is_empty part
has_part part (c ∷ s) = starts_with (c ∷ s) part || has_part part s

-- `s < t`: by code points, a proper prefix first
unfoldable pub text_lt : Text → Text → Bool
text_lt [] [] = false
text_lt [] (d ∷ t) = true
text_lt (c ∷ s) [] = false
text_lt (c ∷ s) (d ∷ t) =
    let rest = text_lt s t in
    elim (compare c d) [ Ordering.lt ↦ true | Ordering.eq ↦ rest | Ordering.gt ↦ false ]

abbrev pub text_le : Text → Text → Bool
text_le s t = not (text_lt t s)

abbrev drop_while : ℕ → Text → Text
drop_while c [] = []
drop_while c (d ∷ s) = let rest = drop_while c s in if d == c then rest else d ∷ s

-- `s.rstrip(c)`
unfoldable pub rstrip : ℕ → Text → Text
unfolding nat_eq
rstrip c s = reverse (drop_while c (reverse s))

-- Text mode reads "\r\n" and "\r" as "\n".
unfoldable pub universal_newlines : Text → Text
unfolding nat_eq
universal_newlines [] = []
universal_newlines (c ∷ []) = (if c == carriage_return then newline else c) ∷ []
universal_newlines (c ∷ d ∷ s) =
    let rest = universal_newlines (d ∷ s) in
    if c == carriage_return then (if d == newline then rest else newline ∷ rest) else c ∷ rest

-- The lines that iterating over a file gives, each without its newline.
abbrev pub drop_last_empty : List Text → List Text
drop_last_empty [] = []
drop_last_empty ([] ∷ []) = []
drop_last_empty (part ∷ parts) = part ∷ drop_last_empty parts

unfoldable pub file_lines : Text → List Text
unfolding split universal_newlines
file_lines content = drop_last_empty (split newline (universal_newlines content))

-- `str(n)`; a number has at most `n + 1` digits.
decimal_digits : ℕ → ℕ → Text
decimal_digits zero n = []
decimal_digits (suc fuel) n =
    let more = decimal_digits fuel (n / 10) in
    if ltb n 10 then (48 + n) ∷ [] else more ++ (48 + n % 10) ∷ []

unfoldable pub decimal : ℕ → Text
unfolding decimal_digits
decimal n = decimal_digits (suc n) n

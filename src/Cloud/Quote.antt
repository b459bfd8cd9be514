-- ===== src/Cloud/Quote.antt =====
-- `shlex.quote`, and how a shell reads a line that is made of quoted words.
pub mod Laws
use browser_visit_logger.Base.{
  ℕ, Text, Bool, true, false, not, ◌&&◌, ◌||◌, Option, none, some, List, [], ◌∷◌, ◌++◌,
  if◌then◌else◌, ◌==◌, nat_eq, leb, contains, is_empty, map,
}
use browser_visit_logger.Base.Strings.{codes, replace, join}

-- The characters that `shlex.quote` leaves as they are
unfoldable pub is_plain : ℕ → Bool
unfolding nat_eq
is_plain c =
    (leb b'a' c && leb c b'z')
    || (leb b'A' c && leb c b'Z')
    || (leb b'0' c && leb c b'9')
    || contains (codes "_@%+=:,./-") c

unfoldable pub all_plain : Text → Bool
all_plain [] = true
all_plain (c ∷ s) = is_plain c && all_plain s

abbrev pub single_quote : ℕ
single_quote = b'\''

abbrev pub double_quote : ℕ
double_quote = b'"'

-- `shlex.quote`
unfoldable pub quote : Text → Text
unfolding all_plain
quote s =
    if is_empty s
    then codes "''"
    else if all_plain s
    then s
    else single_quote ∷ (replace single_quote (codes "'\"'\"'") s ++ single_quote ∷ [])

-- `' '.join(shlex.quote(a) for a in argv)`
abbrev pub quoted : List Text → Text
quoted argv = join (b' ' ∷ []) (map quote argv)

-- Where a shell stands in a line.
pub data Quoting : Type 0 where
  unquoted in_single in_double : Quoting

-- The characters that a shell expands in double quotes
abbrev pub is_expanded : ℕ → Bool
is_expanded c = contains (codes "$`\\!") c

abbrev pub begun : Option Text → Text
begun none = []
begun (some word) = word

abbrev pub ended_word : Option Text → Option (List Text) → Option (List Text)
ended_word word none = none
ended_word none (some words) = some words
ended_word (some word) (some words) = some (word ∷ words)

-- The words of a line, with the word that has begun; none where a character has a meaning of its own
-- or a quotation does not end. Blanks and quotes are read as POSIX says.
unfoldable pub words : Quoting → Option Text → Text → Option (List Text)
unfolding nat_eq
words unquoted word [] = ended_word word (some [])
words in_single word [] = none
words in_double word [] = none
words unquoted word (c ∷ s) =
    let next = words unquoted none s in
    let single = words in_single (some (begun word)) s in
    let double = words in_double (some (begun word)) s in
    let more = words unquoted (some (begun word ++ c ∷ [])) s in
    if c == b' '
    then ended_word word next
    else if c == single_quote
    then single
    else if c == double_quote
    then double
    else if is_plain c
    then more
    else none
words in_single word (c ∷ s) =
    let closed = words unquoted word s in
    let more = words in_single (some (begun word ++ c ∷ [])) s in
    if c == single_quote then closed else more
words in_double word (c ∷ s) =
    let closed = words unquoted word s in
    let more = words in_double (some (begun word ++ c ∷ [])) s in
    if c == double_quote then closed else if is_expanded c then none else more

-- ===== src/QueryServer/Comments.antt =====
-- `_strip_comments`: the two patterns `--[^\n]*` and `/\*.*?\*/`.
pub mod Laws
use browser_visit_logger.Base.{
  Text, ℕ, List, [], ◌∷◌, Bool, true, false, if◌then◌else◌, ◌==◌, nat_eq,
}
use browser_visit_logger.Base.Strings.{newline, has_part, codes, starts_with}

-- `_LINE_COMMENT.sub('', sql)`; the flag is on inside a comment, which ends before the newline.
unfoldable pub line_comments : Bool → Text → Text
line_comments inside [] = []
line_comments true (c ∷ s) =
    let outside = line_comments false s in
    let rest = line_comments true s in if c == newline then c ∷ outside else rest
line_comments false (c ∷ s) =
    let rest = line_comments true s in
    let outside = line_comments false s in
    if starts_with (c ∷ s) (codes "--") then rest else c ∷ outside

-- `_BLOCK_COMMENT.sub(' ', sql)`. Where the parser is in a comment: outside, behind its `/`, or in it,
-- and then what the last character was. A comment that nothing closes is no match.
pub data Place : Type 0 where
  outside : Place
  opening : Place
  inside : Place
  closing : Place

abbrev pub after_first : Text → Text
after_first [] = []
after_first (d ∷ t) = t

unfoldable pub block_comments : Place → Text → Text
block_comments place [] = []
block_comments outside (c ∷ s) =
    let rest = block_comments opening s in
    let kept = block_comments outside s in
    if starts_with (c ∷ s) (codes "/*")
    then (if has_part (codes "*/") (after_first s) then b' ' ∷ rest else c ∷ kept)
    else c ∷ kept
block_comments opening (c ∷ s) = block_comments inside s
block_comments inside (c ∷ s) =
    let rest = block_comments inside s in
    let last = block_comments closing s in if starts_with (c ∷ s) (codes "*/") then last else rest
block_comments closing (c ∷ s) = block_comments outside s

-- `_strip_comments`
unfoldable pub strip_comments : Text → Text
strip_comments sql = block_comments outside (line_comments false sql)

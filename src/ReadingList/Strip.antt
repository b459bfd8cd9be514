-- ===== src/ReadingList/Strip.antt =====
-- `str.strip`.
use browser_visit_logger.Base.{
  Text, ℕ, List, [], ◌∷◌, nat_eq, Bool, if◌then◌else◌, is_empty, leb, ◌&&◌, ◌||◌, contains,
}

abbrev spaces : List ℕ
spaces = 0x85 ∷ 0xa0 ∷ 0x1680 ∷ 0x2028 ∷ 0x2029 ∷ 0x202f ∷ 0x205f ∷ 0x3000 ∷ []

-- The white space that `str.strip` removes.
abbrev pub is_space : ℕ → Bool
is_space c =
    (leb 9 c && leb c 13)
    || (leb 28 c && leb c 32)
    || contains spaces c
    || (leb 0x2000 c && leb c 0x200a)

unfoldable pub left_strip : Text → Text
left_strip [] = []
left_strip (c ∷ s) = let rest = left_strip s in if is_space c then rest else c ∷ s

unfoldable pub right_strip : Text → Text
right_strip [] = []
right_strip (c ∷ s) =
    let rest = right_strip s in if is_empty rest && is_space c then [] else c ∷ rest

-- `str.strip`
unfoldable pub strip : Text → Text
unfolding left_strip right_strip
strip s = right_strip (left_strip s)

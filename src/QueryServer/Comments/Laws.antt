-- ===== src/QueryServer/Comments/Laws.antt =====
-- What is left of a text holds no comment.
use browser_visit_logger.Base.{
  Text, ℕ, [], ◌∷◌, Bool, true, false, ◌==◌, nat_eq, ◌≡◌, ◌&&◌, ◌||◌, arith, refl, ap, ◌∙◌,
}
use browser_visit_logger.Base.Strings.{has_part, codes, starts_with, after_prefix}
use browser_visit_logger.QueryServer.Comments.{
  line_comments, block_comments, strip_comments, after_first, Place, outside, opening, inside,
  closing,
}

unfoldable begins : ℕ → Text → Bool
begins c [] = false
begins c (d ∷ s) = d == c

unfoldable pair_at : ℕ → ℕ → Text → Bool
unfolding begins
pair_at a b [] = false
pair_at a b (c ∷ s) = c == a && begins b s

starts_with_pair : (a b : ℕ) (s : Text) → starts_with s (a ∷ b ∷ []) ≡ pair_at a b s
unfolding after_prefix pair_at begins nat_eq
starts_with_pair a b [] = refl
starts_with_pair a b (c ∷ []) = ground arith
starts_with_pair a b (c ∷ d ∷ s) = ground arith

has_pair : ℕ → ℕ → Text → Bool
has_pair a b s = has_part (a ∷ b ∷ []) s

abbrev dash : ℕ
dash = b'-'

-- A comment's end leaves a newline in front, if anything.
in_comment-begins : (s : Text) → begins dash (line_comments true s) ≡ false
unfolding begins line_comments nat_eq
in_comment-begins [] = refl
in_comment-begins (c ∷ s) = ground (arith, in_comment-begins s)

line_comments-begins :
    (s : Text) → begins dash s ≡ false → begins dash (line_comments false s) ≡ false
unfolding begins line_comments
line_comments-begins [] h = refl
line_comments-begins (d ∷ s) h = ground (arith, in_comment-begins s)

no_line_comment : (b : Bool) (s : Text) → has_part (codes "--") (line_comments b s) ≡ false
unfolding has_part line_comments begins pair_at nat_eq
no_line_comment b [] = refl
no_line_comment true (c ∷ s) = ground (
  arith,
  no_line_comment true s,
  no_line_comment false s,
  starts_with_pair dash dash (c ∷ line_comments false s),
)
no_line_comment false (c ∷ s) = ground (
  arith,
  no_line_comment true s,
  no_line_comment false s,
  starts_with_pair dash dash (c ∷ s),
  starts_with_pair dash dash (c ∷ line_comments false s),
  line_comments-begins s,
)

-- Nothing is taken out of a text without one.
line_comments_none : (s : Text) → has_part (codes "--") s ≡ false → line_comments false s ≡ s
unfolding has_part line_comments
line_comments_none [] h = refl
line_comments_none (c ∷ s) h = ground (arith, line_comments_none s)

-- Block comments.
block_comments-begins :
    (c : ℕ) (s : Text)
    → c == b' ' ≡ false
    → begins c s ≡ false
    → begins c (block_comments outside s) ≡ false
unfolding begins block_comments nat_eq
block_comments-begins c [] n h = refl
block_comments-begins c (d ∷ s) n h = ground arith

after_first_lacks :
    (s : Text) → has_part (codes "*/") s ≡ false → has_part (codes "*/") (after_first s) ≡ false
unfolding has_part
after_first_lacks [] h = refl
after_first_lacks (c ∷ s) h = ground arith

block_comments_none : (s : Text) → has_part (codes "*/") s ≡ false → block_comments outside s ≡ s
unfolding has_part block_comments
block_comments_none [] h = refl
block_comments_none (c ∷ s) h = ground (arith, block_comments_none s, after_first_lacks s)

block_comments-dashes :
    (place : Place) (s : Text)
    → has_part (codes "--") s ≡ false
    → has_part (codes "--") (block_comments place s) ≡ false
unfolding has_part block_comments begins pair_at nat_eq
block_comments-dashes place [] h = refl
block_comments-dashes outside (c ∷ s) h = ground (
  arith,
  block_comments-dashes outside s,
  block_comments-dashes opening s,
  starts_with_pair dash dash (c ∷ s),
  starts_with_pair dash dash (c ∷ block_comments outside s),
  starts_with_pair dash dash (b' ' ∷ block_comments opening s),
  block_comments-begins dash s refl,
)
block_comments-dashes opening (c ∷ s) h = ground (arith, block_comments-dashes inside s)
block_comments-dashes inside (c ∷ s) h =
    ground (arith, block_comments-dashes inside s, block_comments-dashes closing s)
block_comments-dashes closing (c ∷ s) h = ground (arith, block_comments-dashes outside s)

-- A comment that is closed.
closed : Text → Bool
closed [] = false
closed (c ∷ s) =
    (starts_with (c ∷ s) (codes "/*") && has_part (codes "*/") (after_first s)) || closed s

closed_none : (s : Text) → closed s ≡ false → block_comments outside s ≡ s
unfolding closed block_comments
closed_none [] h = refl
closed_none (c ∷ s) h = ground (arith, closed_none s)

unclosed : (s : Text) → has_part (codes "*/") s ≡ false → closed s ≡ false
unfolding closed has_part
unclosed [] h = refl
unclosed (c ∷ s) h = ground (arith, unclosed s, after_first_lacks s)

still_open :
    (s : Text)
    → begins b'*' s ≡ true
    → has_part (codes "*/") (after_first s) ≡ false
    → has_part (codes "*/") (after_first (block_comments outside s)) ≡ false
unfolding begins pair_at block_comments nat_eq
still_open [] h k = k
still_open (c ∷ s) h k = ground (arith, block_comments_none s, starts_with_pair b'/' b'*' (c ∷ s))

no_block_comment : (place : Place) (s : Text) → closed (block_comments place s) ≡ false
unfolding closed block_comments begins pair_at nat_eq
no_block_comment place [] = refl
no_block_comment outside (c ∷ s) = ground (
  arith,
  no_block_comment outside s,
  no_block_comment opening s,
  starts_with_pair b'/' b'*' (c ∷ s),
  starts_with_pair b'/' b'*' (c ∷ block_comments outside s),
  starts_with_pair b'/' b'*' (b' ' ∷ block_comments opening s),
  block_comments-begins b'*' s refl,
  still_open s,
)
no_block_comment opening (c ∷ s) = no_block_comment inside s
no_block_comment inside (c ∷ s) =
    ground (arith, no_block_comment inside s, no_block_comment closing s)
no_block_comment closing (c ∷ s) = no_block_comment outside s

-- Stripping comments leaves none: stripping what is left changes nothing.
pub strip_comments_again : (sql : Text) → strip_comments (strip_comments sql) ≡ strip_comments sql
unfolding strip_comments
strip_comments_again sql =
    let plain = no_line_comment false sql in
    ap (block_comments outside)
      (line_comments_none _ (block_comments-dashes outside (line_comments false sql) plain))
    ∙ closed_none _ (no_block_comment outside (line_comments false sql))

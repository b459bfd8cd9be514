-- ===== src/Names/Laws.antt =====
-- What the file name patterns accept.
use browser_visit_logger.Base.{
  ◌≡◌, refl, Text, true, false, some, List, [], ◌∷◌, ◌++◌, arith, nat_eq,
}
use browser_visit_logger.Base.Strings.{codes}
use browser_visit_logger.Names.{
  Part, fits, consume, lits, is_date_dir, log_date, is_snapshot_name, looks_like_uuid,
}

-- A match and its rest spell the text, and the pattern matches the match with anything behind it.
pub consume_sound :
    (ps : List Part) (s m rest : Text) → consume ps s ≡ some (m, rest) → m ++ rest ≡ s
unfolding consume
consume_sound [] s m rest h = ground arith
consume_sound (p ∷ ps) [] m rest h = ground arith
consume_sound (p ∷ ps) (c ∷ s) [] rest h = ground arith
consume_sound (p ∷ ps) (c ∷ s) (d ∷ m) rest h = ground (arith, consume_sound ps s m rest)

pub consume_again :
    (ps : List Part) (s m rest more : Text)
    → consume ps s ≡ some (m, rest)
    → consume ps (m ++ more) ≡ some (m, more)
unfolding consume
consume_again [] s m rest more h = ground arith
consume_again (p ∷ ps) [] m rest more h = ground arith
consume_again (p ∷ ps) (c ∷ s) [] rest more h = ground arith
consume_again (p ∷ ps) (c ∷ s) (d ∷ m) rest more h = ground (arith, consume_again ps s m rest more)

pub consume-lits : (l rest : Text) → consume (lits l) (l ++ rest) ≡ some (l, rest)
unfolding consume fits
consume-lits [] rest = refl
consume-lits (c ∷ l) rest = ground (arith, consume-lits l rest)

date_test : log_date (codes "browser-visits-2026-04-30.log") ≡ some (codes "2026-04-30")
unfolding log_date
date_test = refl

dir_tests : (is_date_dir (codes "2026-04-30") ≡ true) × (is_date_dir (codes "2026-4-30") ≡ false)
unfolding is_date_dir
dir_tests = (refl, refl)

snapshot_test : is_snapshot_name (codes "2026-04-30T14-35-22Z-abc123.mhtml") ≡ true
unfolding is_snapshot_name
snapshot_test = refl

uuid_tests :
    (looks_like_uuid (codes "0123456789abcdef0123456789abcdef") ≡ true)
    × (looks_like_uuid (codes "0123456789abcdef0123456789abcdeg") ≡ false)
unfolding looks_like_uuid
uuid_tests = (refl, refl)

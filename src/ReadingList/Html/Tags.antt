-- ===== src/ReadingList/Html/Tags.antt =====
-- What a visit's title and url can do to the page.
use browser_visit_logger.Base.{
  Text, ℕ, [], ◌∷◌, nat_eq, if◌then◌else◌, ◌++◌, ◌≡◌, ◌==◌, arith, ◌+◌, refl,
}
use browser_visit_logger.ReadingList.Html.{format_link_html, escape_html, escape_code, html_label}
use browser_visit_logger.Base.Strings.{codes, replace}

-- How often a character occurs.
unfoldable pub occurrences : ℕ → Text → ℕ
occurrences c [] = 0
occurrences c (d ∷ s) = (if d == c then 1 else 0) + occurrences c s

occurrences-append :
    (c : ℕ) (s t : Text) → occurrences c (s ++ t) ≡ occurrences c s + occurrences c t
unfolding occurrences
occurrences-append c [] t = omega arith
occurrences-append c (d ∷ s) t = omega (arith, occurrences-append c s t)

-- The characters that open, close and delimit tags.
data IsMarkup : ℕ → Type 0 where
  opening : IsMarkup b'<'
  closing : IsMarkup b'>'
  quote : IsMarkup b'"'

escape_code-markup : (m c : ℕ) → IsMarkup m → occurrences m (escape_code c) ≡ 0
unfolding occurrences
escape_code-markup m c opening = ground arith
escape_code-markup m c closing = ground arith
escape_code-markup m c quote = ground arith

escape_html-markup : (m : ℕ) (s : Text) → IsMarkup m → occurrences m (escape_html s) ≡ 0
unfolding escape_html occurrences
escape_html-markup m [] h = refl
escape_html-markup m (c ∷ s) h = omega (
  arith,
  occurrences-append m (escape_code c) (escape_html s),
  escape_code-markup m c h,
  escape_html-markup m s h,
)

link_markup :
    (m : ℕ) (title url : Text)
    → IsMarkup m
    → occurrences m (format_link_html title url)
      ≡ occurrences m (codes "<a href=\"")
        + (occurrences m (codes "\">") + occurrences m (codes "</a>"))
unfolding format_link_html
link_markup m title url h =
    let href = escape_html (replace b' ' (codes "%20") url) in
    let label = escape_html (html_label title url) in
    omega (
      arith,
      occurrences-append m (codes "<a href=\"") (href ++ (codes "\">" ++ (label ++ codes "</a>"))),
      occurrences-append m href (codes "\">" ++ (label ++ codes "</a>")),
      occurrences-append m (codes "\">") (label ++ codes "</a>"),
      occurrences-append m label (codes "</a>"),
      escape_html-markup m (replace b' ' (codes "%20") url) h,
      escape_html-markup m (html_label title url) h,
    )

-- Whatever the title and the url of a visit hold, its link is an `a` element with one attribute: it
-- has the two `<`, the two `>` and the two `"` of the template and no other.
pub format_link_html_tags :
    (title url : Text)
    → (occurrences b'<' (format_link_html title url) ≡ 2)
      × (occurrences b'>' (format_link_html title url) ≡ 2)
      × (occurrences b'"' (format_link_html title url) ≡ 2)
unfolding occurrences nat_eq
format_link_html_tags title url = (
  link_markup b'<' title url opening,
  link_markup b'>' title url closing,
  link_markup b'"' title url quote,
)

-- ===== src/Cloud/Quote/Laws.antt =====
-- A shell reads the quoted words back.
use browser_visit_logger.Base.{
  ℕ, Text, true, false, Option, none, some, List, [], ◌∷◌, ◌++◌, ◌==◌, nat_eq, ◌≡◌, refl, arith,
  append_assoc, append-nil, ◌∙◌, ap, sym, Bool-cases, inl, inr,
}
use mathlib.Core.Path.{subst}
use browser_visit_logger.Base.Strings.{codes, replace, join}
use browser_visit_logger.Cloud.Quote.{
  is_plain, all_plain, quote, quoted, words, unquoted, in_single, single_quote, double_quote, begun,
  ended_word,
}

plain-ne : (c d : ℕ) → is_plain d ≡ false → is_plain c ≡ true → (c == d) ≡ false
plain-ne c d nd pc = elim (nat_eq.dec c d) [
  | yes same ↦ absurd (differ (subst (λ x. is_plain x ≡ false) (sym same) nd))
  | no other ↦ ground arith
]
  where
    differ : is_plain c ≡ false → ⊥
    differ h = cc

not_plain :
    (is_plain b' ' ≡ false) × (is_plain single_quote ≡ false) × (is_plain double_quote ≡ false)
unfolding is_plain
not_plain = (refl, refl, refl)

-- A plain character goes to the word.
words-plain_code :
    (word : Option Text) (c : ℕ) (s : Text)
    → is_plain c ≡ true
    → words unquoted word (c ∷ s) ≡ words unquoted (some (begun word ++ c ∷ [])) s
unfolding words
words-plain_code word c s p = ground (
  arith,
  plain-ne c b' ' not_plain.0,
  plain-ne c single_quote not_plain.1,
  plain-ne c double_quote not_plain.2,
)

-- Plain characters go to the word that has begun.
words-plain :
    (acc s rest : Text)
    → all_plain s ≡ true
    → words unquoted (some acc) (s ++ rest) ≡ words unquoted (some (acc ++ s)) rest
unfolding all_plain
words-plain acc [] rest h = rw append-nil
words-plain acc (c ∷ s) rest h =
    words-plain_code (some acc) c (s ++ rest) (ground arith)
    ∙ words-plain (acc ++ c ∷ []) s rest (ground arith)
    ∙ ap (λ t. words unquoted (some t) rest) (append_assoc acc (c ∷ []) s)

-- The replacement of a quote ends the quotation, quotes the quote and begins it again.
words-requote :
    (acc rest : Text)
    → words in_single (some acc) (codes "'\"'\"'" ++ rest)
      ≡ words in_single (some (acc ++ single_quote ∷ [])) rest
unfolding words is_plain
words-requote acc rest = refl

replace-here :
    (s : Text)
    → replace single_quote (codes "'\"'\"'") (single_quote ∷ s)
      ≡ codes "'\"'\"'" ++ replace single_quote (codes "'\"'\"'") s
unfolding replace
replace-here s = refl

-- So do all characters in single quotes.
words-single :
    (acc s rest : Text)
    → words in_single (some acc) (replace single_quote (codes "'\"'\"'") s ++ (single_quote ∷ rest))
      ≡ words unquoted (some (acc ++ s)) rest
unfolding words replace nat_eq
words-single acc [] rest = rw append-nil
words-single acc (c ∷ s) rest = elim (nat_eq.dec c single_quote) [
  | yes same ↦
      subst
        (λ x.
          words in_single (some acc)
            (replace single_quote (codes "'\"'\"'") (x ∷ s) ++ (single_quote ∷ rest))
          ≡ words unquoted (some (acc ++ x ∷ s)) rest)
        (sym same)
        (words-requote acc (replace single_quote (codes "'\"'\"'") s ++ (single_quote ∷ rest))
          ∙ words-single (acc ++ single_quote ∷ []) s rest
          ∙ ap (λ t. words unquoted (some t) rest) (append_assoc acc (single_quote ∷ []) s))
  | no other ↦ ground (arith, words-single (acc ++ c ∷ []) s rest, append_assoc acc (c ∷ []) s)
]

words-quote : (s rest : Text) → words unquoted none (quote s ++ rest) ≡ words unquoted (some s) rest
unfolding quote words
words-quote [] rest = refl
words-quote (c ∷ s) rest = elim (Bool-cases (all_plain (c ∷ s))) [
  | inl plain ↦
      let here : is_plain c ≡ true = ground arith in
      let behind : all_plain s ≡ true = ground arith in
      rw plain (words-plain_code none c (s ++ rest) here ∙ words-plain (c ∷ []) s rest behind)
  | inr other ↦ rw other (rw append_assoc (words-single [] (c ∷ s) rest))
]

-- A shell reads from the quoted words of a command line the words as they are, whatever they hold.
pub words-quoted : (argv : List Text) → words unquoted none (quoted argv) ≡ some argv
unfolding words join
words-quoted [] = refl
words-quoted (arg ∷ []) =
    ap (words unquoted none) (sym (append-nil (quote arg))) ∙ words-quote arg []
words-quoted (arg ∷ next ∷ argv) =
    words-quote arg (b' ' ∷ quoted (next ∷ argv))
    ∙ ap (ended_word (some arg)) (words-quoted (next ∷ argv))

-- ===== src/DbDiff/Rows.antt =====
-- When two rows have the same key and agree, apart from the tests of the queries.
use browser_visit_logger.Base.{
  Text, Bool, true, false, not, List, [], ◌∷◌, ◌≡◌, ◌⊎◌, ◌↔◌, ◌&&◌, inl, inr, refl, ap, arith, All,
  sym, contains, nat_eq, text_eq, ◌∙◌, Bool-cases,
}
use mathlib.Core.Bool.{false≢true}
use browser_visit_logger.DbDiff.{
  Value, null, integer, string, is_same, joins, coalesce, agrees, all_pairs, has_row, same_columns,
  select, rows_differ,
}
use browser_visit_logger.Base.Table.{exists}

pub is_same_lem : (v u : Value) → is_same v u ≡ true → v ≡ u
unfolding is_same
is_same_lem null null h = refl
is_same_lem null (integer n) h = cc
is_same_lem null (string t) h = cc
is_same_lem (integer m) null h = cc
is_same_lem (integer m) (integer n) h = ground arith
is_same_lem (integer m) (string t) h = cc
is_same_lem (string s) null h = cc
is_same_lem (string s) (integer n) h = cc
is_same_lem (string s) (string t) h = ground arith

is_same_refl : (v : Value) → is_same v v ≡ true
unfolding is_same
is_same_refl null = refl
is_same_refl (integer n) = ground arith
is_same_refl (string t) = ground arith

is_same_eq : (v u : Value) → v ≡ u → is_same v u ≡ true
is_same_eq v u e = sym (ap (is_same v) e) ∙ is_same_refl v

pub same_row_lem : (r s : List Value) → all_pairs is_same r s ≡ true → r ≡ s
unfolding all_pairs
same_row_lem [] [] h = refl
same_row_lem [] (u ∷ us) h = cc
same_row_lem (v ∷ vs) [] h = cc
same_row_lem (v ∷ vs) (u ∷ us) h = ground (arith, is_same_lem v u, same_row_lem vs us)

same_row_refl : (r : List Value) → all_pairs is_same r r ≡ true
unfolding all_pairs
same_row_refl [] = refl
same_row_refl (v ∷ vs) = ground (arith, is_same_refl v, same_row_refl vs)

abbrev pub IsIn : List Value → List (List Value) → Type 0
IsIn k [] = ⊥
IsIn k (r ∷ rows) = (k ≡ r) ⊎ IsIn k rows

has_row-IsIn : (k : List Value) (rows : List (List Value)) → has_row rows k ≡ true → IsIn k rows
unfolding exists
has_row-IsIn k [] h = absurd (false≢true h)
has_row-IsIn k (r ∷ rows) h = elim (Bool-cases (all_pairs is_same k r)) [
  | inl same ↦ inl (same_row_lem k r same)
  | inr differ ↦ inr (has_row-IsIn k rows (ground arith))
]

IsIn-has_row : (k : List Value) (rows : List (List Value)) → IsIn k rows → has_row rows k ≡ true
unfolding exists
IsIn-has_row k [] h = absurd h
IsIn-has_row k (r ∷ rows) (inl same) =
    let hit : all_pairs is_same k r ≡ true =
      sym (ap (all_pairs is_same k) same) ∙ same_row_refl k in
    ground (arith, hit)
IsIn-has_row k (r ∷ rows) (inr h) = ground (arith, IsIn-has_row k rows h)

-- Every row of the first list is in the second.
abbrev pub Included : List (List Value) → List (List Value) → Type 0
Included rows other = All (λ k. IsIn k other) rows

pub Included-lem :
    (rows other : List (List Value)) → All (λ r. has_row other r ≡ true) rows ↔ Included rows other
Included-lem [] other = ((λ h. tt), λ h. tt)
Included-lem (r ∷ rows) other =
    let rest = Included-lem rows other in
    (
      (λ (here, h). (has_row-IsIn r other here, rest.0 h)),
      λ (here, h). (IsIn-has_row r other here, rest.1 h),
    )

abbrev NotNull : Value → Type 0
NotNull null = ⊥
NotNull (integer n) = Unit
NotNull (string t) = Unit

-- Equal values in every column, none of them NULL.
abbrev pub Joined : List Value → List Value → Type 0
Joined [] [] = Unit
Joined (v ∷ vs) (u ∷ us) = ((v ≡ u) × NotNull v) × Joined vs us
Joined _ _ = ⊥

abbrev IsBlank : Value → Type 0
IsBlank null = Unit
IsBlank (integer n) = ⊥
IsBlank (string []) = Unit
IsBlank (string (c ∷ t)) = ⊥

-- Equal values in every column, where NULL and the empty text count as one value.
abbrev pub Alike : List Value → List Value → Type 0
Alike [] [] = Unit
Alike (v ∷ vs) (u ∷ us) = ((v ≡ u) ⊎ (IsBlank v × IsBlank u)) × Alike vs us
Alike _ _ = ⊥

joins_sound : (v u : Value) → joins v u ≡ true → (v ≡ u) × NotNull v
unfolding joins
joins_sound null u h = absurd (false≢true h)
joins_sound (integer n) u h = (is_same_lem (integer n) u h, tt)
joins_sound (string t) u h = (is_same_lem (string t) u h, tt)

joins_complete : (v u : Value) → (v ≡ u) × NotNull v → joins v u ≡ true
unfolding joins
joins_complete null u (e, h) = absurd h
joins_complete (integer n) u (e, h) = is_same_eq (integer n) u e
joins_complete (string t) u (e, h) = is_same_eq (string t) u e

Joined-lem : (vs us : List Value) → (all_pairs joins vs us ≡ true) ↔ Joined vs us
unfolding all_pairs
Joined-lem [] [] = ((λ h. tt), λ h. refl)
Joined-lem [] (u ∷ us) = ((λ h. absurd (false≢true h)), λ h. absurd h)
Joined-lem (v ∷ vs) [] = ((λ h. absurd (false≢true h)), λ h. absurd h)
Joined-lem (v ∷ vs) (u ∷ us) =
    let rest = Joined-lem vs us in
    (
      (λ h. (joins_sound v u (ground arith), rest.0 (ground arith))),
      λ (here, h). ground (arith, joins_complete v u here, rest.1 h),
    )

agrees_sound : (v u : Value) → agrees v u ≡ true → (v ≡ u) ⊎ (IsBlank v × IsBlank u)
unfolding is_same
agrees_sound null null h = inl refl
agrees_sound null (integer n) h = absurd (false≢true h)
agrees_sound null (string []) h = inr (tt, tt)
agrees_sound null (string (c ∷ t)) h = absurd (ground arith)
agrees_sound (integer m) null h = absurd (false≢true h)
agrees_sound (integer m) (integer n) h = inl (is_same_lem (integer m) (integer n) h)
agrees_sound (integer m) (string t) h = absurd (false≢true h)
agrees_sound (string []) null h = inr (tt, tt)
agrees_sound (string (c ∷ t)) null h = absurd (ground arith)
agrees_sound (string t) (integer n) h = absurd (false≢true h)
agrees_sound (string s) (string t) h = inl (is_same_lem (string s) (string t) h)

blank_lem : (v : Value) → IsBlank v → coalesce v ≡ string []
blank_lem null h = refl
blank_lem (integer n) h = absurd h
blank_lem (string []) h = refl
blank_lem (string (c ∷ t)) h = absurd h

agrees_complete : (v u : Value) → (v ≡ u) ⊎ (IsBlank v × IsBlank u) → agrees v u ≡ true
agrees_complete v u (inl e) = is_same_eq (coalesce v) (coalesce u) (ap coalesce e)
agrees_complete v u (inr (h, k)) =
    is_same_eq (coalesce v) (coalesce u) (blank_lem v h ∙ sym (blank_lem u k))

Alike-lem : (vs us : List Value) → (all_pairs agrees vs us ≡ true) ↔ Alike vs us
unfolding all_pairs
Alike-lem [] [] = ((λ h. tt), λ h. refl)
Alike-lem [] (u ∷ us) = ((λ h. absurd (false≢true h)), λ h. absurd h)
Alike-lem (v ∷ vs) [] = ((λ h. absurd (false≢true h)), λ h. absurd h)
Alike-lem (v ∷ vs) (u ∷ us) =
    let rest = Alike-lem vs us in
    (
      (λ h. (agrees_sound v u (ground arith), rest.0 (ground arith))),
      λ (here, h). ground (arith, agrees_complete v u here, rest.1 h),
    )

pub same_columns-lem : (cs ds : List Text) → (same_columns cs ds ≡ true) ↔ (cs ≡ ds)
same_columns-lem [] [] = ((λ h. refl), λ h. refl)
same_columns-lem [] (d ∷ ds) = ((λ h. absurd (false≢true h)), λ h. absurd (cc))
same_columns-lem (c ∷ cs) [] = ((λ h. absurd (false≢true h)), λ h. absurd (cc))
same_columns-lem (c ∷ cs) (d ∷ ds) =
    let rest = same_columns-lem cs ds in
    ((λ h. ground (arith, rest.0 (ground arith))), λ h. ground (arith, rest.1 (ground arith)))

module _ (columns key ignored : List Text) where
  -- Rows with the same key have like values in the columns outside the key that are not ignored.
  abbrev pub RowsAgree : List Value → List Value → Type 0
  RowsAgree r s =
      Joined (select (contains key) columns r) (select (contains key) columns s)
      → Alike (select (λ c. not (contains key c) && not (contains ignored c)) columns r)
          (select (λ c. not (contains key c) && not (contains ignored c)) columns s)

  RowsAgree-lem : (r s : List Value) → (rows_differ columns key ignored r s ≡ false) ↔ RowsAgree r s
  unfolding rows_differ
  RowsAgree-lem r s =
      let same = Joined-lem (select (contains key) columns r) (select (contains key) columns s) in
      let like =
        Alike-lem (select (λ c. not (contains key c) && not (contains ignored c)) columns r)
          (select (λ c. not (contains key c) && not (contains ignored c)) columns s) in
      ((λ h k. like.0 (forth _ _ h (same.1 k))), λ h. back _ _ (λ k. like.1 (h (same.0 k))))
    where
      forth : (a b : Bool) → (a && not b) ≡ false → a ≡ true → b ≡ true
      forth a b h k = ground arith

      back : (a b : Bool) → (a ≡ true → b ≡ true) → (a && not b) ≡ false
      back true b f = ground (arith, f refl)
      back false b f = refl

  row_agrees :
      (r : List Value) (rows : List (List Value))
      → All (λ s. rows_differ columns key ignored r s ≡ false) rows ↔ All (RowsAgree r) rows
  row_agrees r [] = ((λ h. tt), λ h. tt)
  row_agrees r (s ∷ rows) =
      let rest = row_agrees r rows in
      (
        (λ (here, h). ((RowsAgree-lem r s).0 here, rest.0 h)),
        λ (here, h). ((RowsAgree-lem r s).1 here, rest.1 h),
      )

  pub rows_agree :
      (rows other : List (List Value))
      → All (λ r. All (λ s. rows_differ columns key ignored r s ≡ false) other) rows
        ↔ All (λ r. All (RowsAgree r) other) rows
  rows_agree [] other = ((λ h. tt), λ h. tt)
  rows_agree (r ∷ rows) other =
      let rest = rows_agree rows other in
      (
        (λ (here, h). ((row_agrees r other).0 here, rest.0 h)),
        λ (here, h). ((row_agrees r other).1 here, rest.1 h),
      )

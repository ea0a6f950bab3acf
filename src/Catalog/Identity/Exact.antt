-- ===== src/Catalog/Identity/Exact.antt =====
-- Exact names: the row that `_style_identity` and `_exact_row_identity` return for one.
-- The first row that the query names.
use mathlib.Core.List.{Mem}
use package.true.Catalog.Domain.{Row}
use package.true.Catalog.Identity.{
  Candidate, choose, chosen, exact_row_identity, folded, is_named, only_one, scan, style_fields,
  style_identity, token_set,
}
use package.true.Prelude.{
  All, All-Mem, AllSome, Bool, Bool-cases, List, Option, Option-cases, [], ap, false, inl, inr,
  none, refl, select, select-All, some, true, ◌∷◌, ◌≡◌,
}
use package.true.Sort.{sort_desc}
use package.true.Text.{Text}

abbrev pub first_named : List Text → Text → List Row → Option Row
first_named fields name [] = none
first_named fields name (row ∷ rows) = elim (is_named fields name row) [
  | true ↦ some row
  | false ↦ first_named fields name rows
]

scan-named :
    (allow : Bool) (name : Text) (query_tokens : List Text) (rows : List Row)
    (found : List Candidate) (row : Row)
    → first_named style_fields name rows ≡ some row
    → scan allow name query_tokens rows found ≡ inl row
unfolding scan
scan-named allow name q [] found row h = absurd (cc)
scan-named allow name q (r ∷ rows) found row h = elim (Bool-cases (is_named style_fields name r)) [
  | inl e ↦ let k : some r ≡ some row = rw (e, first_named) at h in rw (e, scan) (cc k)
  | inr e ↦
      let k : first_named style_fields name rows ≡ some row = rw (e, first_named) at h in
      rw (e, scan) (scan-named allow name q rows _ row k)
]

-- A style that the query names exactly is found, whatever rows stand before it and whether or not
-- contained names are allowed: the first such row is returned.
pub style_identity-named :
    (rows : List Row) (query : Text) (allow_contained : Bool) (row : Row)
    → first_named style_fields (folded query) rows ≡ some row
    → style_identity rows query allow_contained ≡ some row
unfolding style_identity
style_identity-named rows query allow row h =
    ap chosen (scan-named allow (folded query) (token_set (folded query)) rows [] row h)

scan-unnamed :
    (name : Text) (query_tokens : List Text) (rows : List Row)
    → first_named style_fields name rows ≡ none
    → scan false name query_tokens rows [] ≡ inr []
unfolding scan
scan-unnamed name q [] h = refl
scan-unnamed name q (r ∷ rows) h = elim (Bool-cases (is_named style_fields name r)) [
  | inl e ↦ let k : some r ≡ none = rw (e, first_named) at h in absurd (cc)
  | inr e ↦
      let k : first_named style_fields name rows ≡ none = rw (e, first_named) at h in
      rw (e, scan) (scan-unnamed name q rows k)
]

-- Where contained names are not allowed, nothing but an exact name is found.
pub style_identity-exact :
    (rows : List Row) (query : Text)
    → style_identity rows query false ≡ first_named style_fields (folded query) rows
unfolding style_identity choose sort_desc
style_identity-exact rows query =
    let name = folded query in
    elim (Option-cases (first_named style_fields name rows)) [
      | inl e ↦ rw e (rw (scan-unnamed name (token_set name) rows e))
      | inr (row, e) ↦ rw e (rw (scan-named false name (token_set name) rows [] row e))
    ]

only_one-P : (P : Row → Type 0) (rows : List Row) → All P rows → AllSome P (only_one rows)
unfolding only_one
only_one-P P [] h = tt
only_one-P P (row ∷ []) h = h.0
only_one-P P (row ∷ other ∷ rows) h = tt

-- The row of an exact name is one of the rows.
pub exact_row_identity-Mem :
    (rows : List Row) (query : Text) (fields : List Text)
    → AllSome (λ row. Mem row rows) (exact_row_identity rows query fields)
unfolding exact_row_identity
exact_row_identity-Mem rows query fields =
    only_one-P (λ row. Mem row rows) (select (is_named fields (folded query)) rows)
      (select-All (λ row. Mem row rows) (λ row. Mem row rows) (is_named fields (folded query)) rows
        (λ _ _ m. m) (All-Mem (λ row. Mem row rows) rows (λ _ m. m)))

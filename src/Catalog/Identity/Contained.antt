-- ===== src/Catalog/Identity/Contained.antt =====
-- What supports a row that `_style_identity` returns.
-- The query names the row, or holds all tokens of one of its identities.
use mathlib.Core.List.{Mem}
use mathlib.Core.Path.{subst}
use package.true.Catalog.Domain.{Row}
use package.true.Catalog.Identity.{
  Candidate, best_candidate, candidates_of, choose, chosen, folded, is_contained, is_named,
  less_telling, only_value, row_identities, rows_by_id, scan, style_fields, style_identity, ties,
  token_set,
}
use package.true.Dict.{Dict, get_or, put, put-All}
use package.true.Prelude.{
  All, All-Mem, All-append, AllSome, Bool, Bool-cases, List, Option-cases, [], any, if◌then◌else◌,
  inl, inr, select, select-All, some, true, ◌++◌, ◌∷◌, ◌≡◌, ◌⊎◌,
}
use package.true.Sort.{sort_desc, sort_desc-All}
use package.true.Text.{Text, lit, lower}

abbrev pub Supports : Text → Row → Type 0
Supports name row =
    (is_named style_fields name row ≡ true)
    ⊎ (any (λ i. is_contained (token_set name) (token_set (lower i)))
          (row_identities row style_fields)
        ≡ true)

module _ (P : Row → Type 0) where
  rows_by_id-All :
      (seen : Dict Row) (cs : List Candidate)
      → All (λ (k, row). P row) seen
      → All (λ c. P c.row) cs
      → All (λ (k, row). P row) (rows_by_id seen cs)
  unfolding rows_by_id
  rows_by_id-All seen [] h k = h
  rows_by_id-All seen (c ∷ cs) h k =
      rows_by_id-All (put seen (get_or c.row (lit "Style ID") []) c.row) cs
        (put-All P seen (get_or c.row (lit "Style ID") []) c.row h k.0) k.1

  only_value-P :
      (d : Dict Row) (row : Row) → All (λ (k, r). P r) d → only_value d ≡ some row → P row
  unfolding only_value
  only_value-P [] row h e = absurd (cc)
  only_value-P ((k, r) ∷ []) row h e = let same : r ≡ row = cc in subst P same h.0
  only_value-P ((k, r) ∷ other ∷ d) row h e = absurd (cc)

  best_candidate-P :
      (cs : List Candidate) (row : Row)
      → All (λ c. P c.row) cs
      → best_candidate cs ≡ some row
      → P row
  unfolding best_candidate
  best_candidate-P [] row h e = absurd (cc)
  best_candidate-P (c ∷ cs) row h e =
      only_value-P (rows_by_id [] (select (ties c) (c ∷ cs))) row
        (rows_by_id-All [] (select (ties c) (c ∷ cs)) tt
          (select-All (λ c. P c.row) (λ c. P c.row) (ties c) (c ∷ cs) (λ _ _ p. p) h))
        e

  choose-P :
      (cs : List Candidate) (row : Row) → All (λ c. P c.row) cs → choose cs ≡ some row → P row
  unfolding choose
  choose-P cs row h e =
      best_candidate-P (sort_desc less_telling cs) row
        (sort_desc-All less_telling (λ c. P c.row) cs h) e

candidates-All :
    (P : Row → Type 0) (q : List Text) (row : Row) (ids : List Text)
    → (any (λ i. is_contained q (token_set (lower i))) ids ≡ true → P row)
    → All (λ c. P c.row) (candidates_of q row ids)
unfolding candidates_of
candidates-All P q row [] f = tt
candidates-All P q row (i ∷ ids) f = elim (Bool-cases (is_contained q (token_set (lower i)))) [
  | inl e ↦ rw (e, candidates_of) (f (rw e), candidates-All P q row ids (λ h. f (rw e)))
  | inr e ↦ rw (e, candidates_of) (candidates-All P q row ids (λ h. f (rw (e, any) h)))
]

module _ (P : Row → Type 0) (allow : Bool) (name : Text) where
  more-All :
      (r : Row) (found : List Candidate)
      → (any
              (λ i. is_contained (token_set name) (token_set (lower i)))
              (row_identities r style_fields)
            ≡ true
          → P r)
      → All (λ c. P c.row) found
      → All
          (λ c. P c.row)
          (if allow
            then found ++ candidates_of (token_set name) r (row_identities r style_fields)
            else found)
  more-All r found f k = elim (Bool-cases allow) [
    | inl e ↦ rw e (
        All-append (λ c. P c.row) found
          (candidates_of (token_set name) r (row_identities r style_fields)) k
          (candidates-All P (token_set name) r (row_identities r style_fields) f))
    | inr e ↦ rw e k
  ]

  scan-P :
      (rows : List Row) (found : List Candidate) (row : Row)
      → All (λ r. Supports name r → P r) rows
      → All (λ c. P c.row) found
      → chosen (scan allow name (token_set name) rows found) ≡ some row
      → P row
  unfolding scan chosen
  scan-P [] found row h k e = choose-P P found row k e
  scan-P (r ∷ rows) found row h k e = elim (Bool-cases (is_named style_fields name r)) [
    | inl f ↦
        let g : some r ≡ some row = rw (f, scan) at e in
        let same : r ≡ row = cc in subst P same (h.0 (inl f))
    | inr f ↦
        let more =
          if allow
          then found ++ candidates_of (token_set name) r (row_identities r style_fields)
          else found in
        let g : chosen (scan allow name (token_set name) rows more) ≡ some row =
          rw (f, scan) at e in
        scan-P rows more row h.1 (more-All r found (λ g. h.0 (inr g)) k) g
  ]

-- The row that `_style_identity` returns is one of the rows, and the query names it or contains one
-- of its identities: all tokens of the identity are in the query, one of them of four characters.
pub style_identity-supported :
    (rows : List Row) (query : Text) (allow_contained : Bool) (row : Row)
    → style_identity rows query allow_contained ≡ some row
    → Mem row rows × Supports (folded query) row
unfolding style_identity
style_identity-supported rows query allow row e =
    scan-P (λ r. Mem r rows × Supports (folded query) r) allow (folded query) rows [] row
      (All-Mem (λ r. Supports (folded query) r → Mem r rows × Supports (folded query) r) rows
        (λ r m s. (m, s)))
      tt e

pub style_identity-Mem :
    (rows : List Row) (query : Text) (allow_contained : Bool)
    → AllSome (λ row. Mem row rows) (style_identity rows query allow_contained)
style_identity-Mem rows query allow = elim (Option-cases (style_identity rows query allow)) [
  | inl e ↦ rw e tt
  | inr (row, e) ↦ rw e (style_identity-supported rows query allow row e).0
]

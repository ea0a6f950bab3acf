-- ===== src/Catalog/Detailed/Rows.antt =====
-- Where the results of `_search_csv_detailed` come from.
-- The result is the projection of a row of the file that passes the filter.
use mathlib.Core.List.{Mem}
use mathlib.Core.Path.{subst}
use package.true.Catalog.Bm25.{fit, score, vocabulary}
use package.true.Catalog.Detailed.{
  File, Found, Request, abstains, documents_of, holds, load_rows_or_empty, missing, nothing_found,
  project_row, ranked_rows, search_csv_detailed, take_rows, unreadable,
}
use package.true.Catalog.Domain.{Row}
use package.true.Catalog.Rewrite.{rewrite_query}
use package.true.Dict.{Dict}
use package.true.Floats.{Floats}
use package.true.Prelude.{
  All, All-Mem, Bool, Bool-cases, List, Option-cases, [], arith, false, get_elem?, if◌then◌else◌,
  inl, inr, length, length-take-le, not, refl, select, select-All, some, suc, take, true, zero, ℕ,
  ◌∷◌, ◌≡◌, ◌≢◌, ◌≤◌,
}
use package.true.Text.{Text}

abbrev pub IsProjection : List Row → (Row → Bool) → List Text → Row → Type 0
IsProjection rows keeps cols result =
    (row : Row) × ((Mem row rows × (keeps row ≡ true)) × (result ≡ project_row row cols))

pub get_elem?-P :
    (P : Row → Type 0) (rows : List Row) (i : ℕ) (row : Row)
    → All P rows
    → get_elem? rows i ≡ some row
    → P row
get_elem?-P P [] i row h e = absurd (cc)
get_elem?-P P (r ∷ rows) zero row h e = let same : r ≡ row = cc in subst P same h.0
get_elem?-P P (r ∷ rows) (suc i) row h e = get_elem?-P P rows i row h.1 e

module _ (fl : Floats) (P : Row → Type 0) (rows : List Row) (cols : List Text) where
  take_rows-All :
      (ranked : List (ℕ × fl.Float))
      → All P rows
      → All
          (λ result. (row : Row) × (P row × (result ≡ project_row row cols)))
          (take_rows fl rows cols ranked)
  unfolding take_rows
  take_rows-All [] h = tt
  take_rows-All ((idx, s) ∷ ranked) h = elim (Bool-cases (fl.at_most s (fl.whole 0))) [
    | inl e ↦ rw (e, take_rows) (take_rows-All ranked h)
    | inr e ↦ elim (Option-cases (get_elem? rows idx)) [
      | inl f ↦ rw (e, take_rows) (rw f (take_rows-All ranked h))
      | inr (row, f) ↦
          rw (e, take_rows)
            (rw f ((row, (get_elem?-P P rows idx row h f, refl)), take_rows-All ranked h))
    ]
  ]

  length-take_rows-le :
      (ranked : List (ℕ × fl.Float)) → length (take_rows fl rows cols ranked) ≤ length ranked
  unfolding take_rows
  length-take_rows-le [] = omega arith
  length-take_rows-le ((idx, s) ∷ ranked) = elim (Bool-cases (fl.at_most s (fl.whole 0))) [
    | inl e ↦ rw (e, take_rows) (omega (arith, length-take_rows-le ranked))
    | inr e ↦ elim (Option-cases (get_elem? rows idx)) [
      | inl f ↦ rw (e, take_rows) (rw f (omega (arith, length-take_rows-le ranked)))
      | inr (row, f) ↦ rw (e, take_rows) (rw f (omega (arith, length-take_rows-le ranked)))
    ]
  ]

-- What a search in a file promises of its results.
abbrev pub AreResults : (fl : Floats) → Request fl → List Row → Found fl → Type 0
AreResults fl r rows found =
    All (IsProjection rows r.row_filter r.output_cols) found.results
    × ((length found.results ≤ r.max_results)
        × (found.diagnostic.abstained ≢ some false → found.results ≡ []))

module _ (fl : Floats) (keywords : Dict (List Text)) (r : Request fl) where
  taken :
      (abstain : Bool) (all_rows kept : List Row) (ranked : List (ℕ × fl.Float))
      → All (λ row. Mem row all_rows × (r.row_filter row ≡ true)) kept
      → let results =
          if not abstain then take_rows fl kept r.output_cols (take r.max_results ranked) else [] in
        All (IsProjection all_rows r.row_filter r.output_cols) results
        × ((length results ≤ r.max_results) × (some abstain ≢ some false → results ≡ []))
  taken true all_rows kept ranked h = (tt, (omega arith, λ _. refl))
  taken false all_rows kept ranked h = (
    take_rows-All fl (λ row. Mem row all_rows × (r.row_filter row ≡ true)) kept r.output_cols
        (take r.max_results ranked) h,
    (
      omega (
        arith,
        length-take_rows-le fl (λ row. Mem row all_rows × (r.row_filter row ≡ true)) kept
            r.output_cols (take r.max_results ranked),
        length-take-le r.max_results ranked,
      ),
      λ ne. absurd (ne refl),
    ),
  )

  ranked_rows-AreResults :
      (all_rows kept : List Row)
      → All (λ row. Mem row all_rows × (r.row_filter row ≡ true)) kept
      → AreResults fl r all_rows (ranked_rows fl keywords r kept)
  unfolding ranked_rows nothing_found
  ranked_rows-AreResults all_rows [] h = (tt, (omega arith, λ _. refl))
  ranked_rows-AreResults all_rows (row ∷ rows) h =
      let index = fit fl (documents_of r.search_cols (row ∷ rows)) in
      let query = (rewrite_query keywords r.query r.routing_domain (vocabulary fl index)).0 in
      taken (abstains fl index query r.threshold) all_rows (row ∷ rows) (score fl index query) h

  -- Each result is the projection of a row of the file that passes the filter; there are at most as
  -- many as were asked for, and none where the search abstains or does not come to a ranking.
  pub search_csv_detailed-AreResults :
      (file : File)
      → AreResults fl r (load_rows_or_empty file) (search_csv_detailed fl keywords r file)
  unfolding search_csv_detailed nothing_found load_rows_or_empty
  search_csv_detailed-AreResults missing = (tt, (omega arith, λ _. refl))
  search_csv_detailed-AreResults unreadable = (tt, (omega arith, λ _. refl))
  search_csv_detailed-AreResults (holds rows) =
      ranked_rows-AreResults rows (select r.row_filter rows) (
        select-All (λ row. Mem row rows) (λ row. Mem row rows × (r.row_filter row ≡ true))
          r.row_filter rows (λ _ e m. (m, e)) (All-Mem (λ row. Mem row rows) rows (λ _ m. m)))

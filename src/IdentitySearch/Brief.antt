-- ===== src/IdentitySearch/Brief.antt =====
-- Where the parts of a brief come from.
use mathlib.Core.List.{Mem}
use package.true.Catalog.Detailed.{project_row}
use package.true.Catalog.Domain.{Row}
use package.true.Dict.{get_or}
use package.true.Floats.{Floats}
use package.true.IdentitySearch.{
  chosen_style, cip_config, cip_domain_of, cip_file_results, cip_search, deliverables_of,
  first_or_empty, get_cip_brief, results_or_none,
}
use package.true.Prelude.{
  All, All-append, All-imp, List, Option, Option-cases, [], arith, inl, inr, length, length-append,
  length-take-le, pos, refl, some, take, take-All, ℤ, ◌∷◌, ◌≡◌, ◌≤◌, ◌⊎◌,
}
use package.true.SlideSearch.Search.{search_slides}
use package.true.SlideSearch.Search.Results.{search_slides-AreShown}
use package.true.Text.{Text, lit}
use package.true.Text.Cut.{words}

-- The row is the projection of a row of the file of the domain.
abbrev pub IsFrom : (Text → Option (List Row)) → Text → Row → Type 0
IsFrom files domain result =
    (rows : List Row) × (files (cip_config domain).file ≡ some rows)
    × (row : Row) × Mem row rows
    × (result ≡ project_row row (cip_config domain).output_cols)

module _ (fl : Floats) (files : Text → Option (List Row)) where
  cip_search-All :
      (query domain : Text) (n : ℤ)
      → All
          (IsFrom files domain)
          (results_or_none fl files (cip_search fl files query (some domain) n))
  unfolding cip_search cip_file_results cip_domain_of results_or_none
  cip_search-All query domain n = elim (Option-cases (files (cip_config domain).file)) [
    | inl e ↦ rw e tt
    | inr (rows, e) ↦
        let shown = search_slides-AreShown fl rows (cip_config domain) query n in
        rw e (
          All-imp
            (λ (result : Row)
                (h : (row : Row) × Mem row rows
                  × (result ≡ project_row row (cip_config domain).output_cols)).
              (rows, e, h.0, h.1, h.2))
            (search_slides fl rows (cip_config domain) query n) shown.0)
  ]

  deliverables_of-All :
      (ds : List Text)
      → All (IsFrom files (lit "deliverable")) (deliverables_of fl files ds)
        × (length (deliverables_of fl files ds) ≤ length ds)
  unfolding deliverables_of
  deliverables_of-All [] = (tt, omega arith)
  deliverables_of-All (d ∷ ds) =
      let found =
        results_or_none fl files (cip_search fl files d (some (lit "deliverable")) (pos 1)) in
      let good = cip_search-All d (lit "deliverable") (pos 1) in
      let (rest, less) = deliverables_of-All ds in
      (
        All-append (IsFrom files (lit "deliverable")) (take 1 found) (deliverables_of fl files ds)
            (take-All (IsFrom files (lit "deliverable")) 1 found good) rest,
        omega (
          arith,
          less,
          length-append (take 1 found) (deliverables_of fl files ds),
          length-take-le 1 found,
        ),
      )

  first-P :
      (P : Row → Type 0) (rows : List Row)
      → All P rows
      → (first_or_empty rows ≡ []) ⊎ P (first_or_empty rows)
  unfolding first_or_empty
  first-P P [] h = inl refl
  first-P P (row ∷ rows) h = inr h.0

  -- The industry and the style of a brief are empty or show a row of their file, and it recommends
  -- at most five deliverables, each of which shows a row of the file of deliverables.
  pub get_cip_brief-IsFrom :
      (brand_name industry_query : Text) (style_query : Option Text)
      → let brief = get_cip_brief fl files brand_name industry_query style_query in
        ((brief.industry ≡ []) ⊎ IsFrom files (lit "industry") brief.industry)
        × ((brief.style ≡ []) ⊎ IsFrom files (lit "style") brief.style)
        × All (IsFrom files (lit "deliverable")) brief.recommended_deliverables
        × (length brief.recommended_deliverables ≤ 5)
  unfolding get_cip_brief
  get_cip_brief-IsFrom brand industry_query style_query =
      let found =
        results_or_none fl files
          (cip_search fl files industry_query (some (lit "industry")) (pos 1)) in
      let industry = first_or_empty found in
      let style = chosen_style style_query industry in
      let wanted = words (get_or industry (lit "Key Deliverables") []) in
      let (good, few) = deliverables_of-All (take 5 wanted) in
      (
        first-P (IsFrom files (lit "industry")) found
            (cip_search-All industry_query (lit "industry") (pos 1)),
        first-P (IsFrom files (lit "style"))
            (results_or_none fl files (cip_search fl files style (some (lit "style")) (pos 1)))
            (cip_search-All style (lit "style") (pos 1)),
        good,
        omega (arith, few, length-take-le 5 wanted),
      )

-- ===== src/SlideSearch/Search/Results.antt =====
-- What `search_all` of the slide databases finds.
use mathlib.Core.List.{Mem}
use package.true.Catalog.Bm25.{dict_keys}
use package.true.Catalog.Config.{Config}
use package.true.Catalog.Detailed.{documents_of, project_row}
use package.true.Catalog.Detailed.Rows.{get_elem?-P}
use package.true.Catalog.Domain.{Row}
use package.true.Dict.{get_or}
use package.true.Floats.{Floats}
use package.true.Prelude.{
  All, All-Mem, AllSome, Bool-cases, List, Option, Option-cases, [], arith, get_elem?, if-P_of, inl,
  inr, length, length-map, length-take-le, ltb, map, negsuc, none, pos, refl, slice_end, slice_to,
  some, ℕ, ℤ, ◌<◌, ◌∷◌, ◌≡◌, ◌≤◌,
}
use package.true.SlideSearch.Index.{slide_fit, slide_score}
use package.true.SlideSearch.Index.Counts.{length-slide_score-le}
use package.true.SlideSearch.Search.{
  SlideResults, domain_or_detected, search_domains, search_slides, shown_rows, slide_config,
  slide_csv_config, slide_search, slide_search_all, with_results,
}
use package.true.Text.{Text, lit}
use package.true.Text.Cut.{join}

-- Some rows of a file, projected, and no more than `[:n]` leaves of as many as the file has.
abbrev pub AreShown : List Row → List Text → ℤ → List Row → Type 0
AreShown rows cols n results =
    All (λ result. (row : Row) × Mem row rows × (result ≡ project_row row cols)) results
    × (length results ≤ slice_end n (length rows))

module _ (fl : Floats) (P : Row → Type 0) (rows : List Row) (cols : List Text) where
  shown_rows-All :
      (ranked : List (ℕ × fl.Float))
      → All P rows
      → All
          (λ result. (row : Row) × P row × (result ≡ project_row row cols))
          (shown_rows fl rows cols ranked)
  unfolding shown_rows
  shown_rows-All [] h = tt
  shown_rows-All ((idx, s) ∷ ranked) h = elim (Bool-cases (fl.less (fl.whole 0) s)) [
    | inl e ↦ elim (Option-cases (get_elem? rows idx)) [
      | inl f ↦ rw (e, shown_rows) (rw f (shown_rows-All ranked h))
      | inr (row, f) ↦
          rw (e, shown_rows)
            (rw f ((row, get_elem?-P P rows idx row h f, refl), shown_rows-All ranked h))
    ]
    | inr e ↦ rw (e, shown_rows) (shown_rows-All ranked h)
  ]

  length-shown_rows-le :
      (ranked : List (ℕ × fl.Float)) → length (shown_rows fl rows cols ranked) ≤ length ranked
  unfolding shown_rows
  length-shown_rows-le [] = omega arith
  length-shown_rows-le ((idx, s) ∷ ranked) = elim (Bool-cases (fl.less (fl.whole 0) s)) [
    | inl e ↦ elim (Option-cases (get_elem? rows idx)) [
      | inl f ↦ rw (e, shown_rows) (rw f (omega (arith, length-shown_rows-le ranked)))
      | inr (row, f) ↦ rw (e, shown_rows) (rw f (omega (arith, length-shown_rows-le ranked)))
    ]
    | inr e ↦ rw (e, shown_rows) (omega (arith, length-shown_rows-le ranked))
  ]

length-documents_of :
    (cols : List Text) (rows : List Row) → length (documents_of cols rows) ≡ length rows
unfolding documents_of
length-documents_of cols rows =
    length-map (λ row. join (lit " ") (map (λ col. get_or row col []) cols)) rows

slice_bound :
    (n : ℤ) (shown ranked rows : ℕ)
    → shown ≤ slice_end n ranked
    → ranked ≤ rows
    → shown ≤ slice_end n rows
unfolding slice_end
slice_bound (pos n) shown ranked rows h k = h
slice_bound (negsuc n) shown ranked rows h k = omega (arith, h, k)

module _ (fl : Floats) where
  pub search_slides-AreShown :
      (rows : List Row) (config : Config) (query : Text) (n : ℤ)
      → AreShown rows config.output_cols n (search_slides fl rows config query n)
  unfolding search_slides slice_to
  search_slides-AreShown rows config query n =
      let documents = documents_of config.search_cols rows in
      let ranked = slide_score fl (slide_fit fl documents) query in
      (
        shown_rows-All fl (λ row. Mem row rows) rows config.output_cols (slice_to n ranked)
            (All-Mem (λ row. Mem row rows) rows (λ _ m. m)),
        slice_bound n (length (shown_rows fl rows config.output_cols (slice_to n ranked)))
            (length ranked) (length rows)
            (omega (
              arith,
              length-shown_rows-le fl (λ row. Mem row rows) rows config.output_cols
                  (slice_to n ranked),
              length-take-le (slice_end n (length ranked)) ranked,
            ))
            (omega (
              arith,
              length-slide_score-le fl documents query,
              length-documents_of config.search_cols rows,
            )),
      )

  -- The results of one domain are from the file of that domain.
  abbrev pub IsFromFile : (Text → Option (List Row)) → ℤ → SlideResults fl → Type 0
  IsFromFile files n r =
      (rows : List Row) × (files (slide_config r.domain).file ≡ some rows)
      × AreShown rows (slide_config r.domain).output_cols n r.results

  slide_search-IsFromFile :
      (files : Text → Option (List Row)) (query domain : Text) (n : ℤ)
      → AllSome (IsFromFile files n) (slide_search fl files query (some domain) n)
  unfolding slide_search domain_or_detected
  slide_search-IsFromFile files query domain n =
      elim (Option-cases (files (slide_config domain).file)) [
        | inl e ↦ rw (e, slide_search) tt
        | inr (rows, e) ↦
            rw (e, slide_search)
              (rows, e, search_slides-AreShown rows (slide_config domain) query n)
      ]

  with_results-All :
      (files : Text → Option (List Row)) (n : ℤ) (found : Option (SlideResults fl))
      (rest : List (SlideResults fl))
      → AllSome (IsFromFile files n) found
      → All (λ r. (0 < length r.results) × IsFromFile files n r) rest
      → All (λ r. (0 < length r.results) × IsFromFile files n r) (with_results fl found rest)
  unfolding with_results
  with_results-All files n none rest h k = k
  with_results-All files n (some r) rest h k =
      if-P_of (All (λ r. (0 < length r.results) × IsFromFile files n r)) (ltb 0 (length r.results))
        (λ f. ((ground (arith, f), h), k)) (λ _. k)

  search_domains-All :
      (files : Text → Option (List Row)) (query : Text) (n : ℤ) (domains : List Text)
      → All
          (λ r. (0 < length r.results) × IsFromFile files n r)
          (search_domains fl files query n domains)
  unfolding search_domains
  search_domains-All files query n [] = tt
  search_domains-All files query n (domain ∷ domains) =
      with_results-All files n (slide_search fl files query (some domain) n)
        (search_domains fl files query n domains) (slide_search-IsFromFile files query domain n)
        (search_domains-All files query n domains)

  -- Whatever whole number of results is asked for, each domain that the search over all domains
  -- reports has results, which are rows of the file of that domain, projected to its columns: no more
  -- than the number, or, where it is negative, than the rows of the file less that many.
  pub slide_search_all-All :
      (files : Text → Option (List Row)) (query : Text) (max_results : ℤ)
      → All
          (λ r. (0 < length r.results) × IsFromFile files max_results r)
          (slide_search_all fl files query max_results)
  unfolding slide_search_all
  slide_search_all-All files query n = search_domains-All files query n (dict_keys slide_csv_config)

-- ===== src/SlideSearch/Search.antt =====
-- `search` and `search_all` of slide_search_core.py.
pub mod Results
use package.true.Catalog.Bm25.{dict_keys}
use package.true.Catalog.Config.{Config, config}
use package.true.Catalog.Detailed.{documents_of, project_row}
use package.true.Catalog.Domain.{Row}
use package.true.Dict.{Dict, get_or}
use package.true.Floats.{Floats}
use package.true.Prelude.{
  List, Option, [], get_elem?, if◌then◌else◌, length, ltb, map, none, select, slice_to, some, ℕ, ℤ,
  ◌∷◌,
}
use package.true.SlideSearch.Index.{slide_fit, slide_score}
use package.true.Text.{Text, lit, lower}
use package.true.Text.Cut.{has}

-- CSV_CONFIG
unfoldable pub slide_csv_config : Dict Config
slide_csv_config =
    (
      lit "strategy",
      config "slide-strategies.csv"
          ("strategy_name" ∷ "keywords" ∷ "goal" ∷ "audience" ∷ "narrative_arc" ∷ [])
          ("strategy_name" ∷ "keywords" ∷ "slide_count" ∷ "structure" ∷ "goal" ∷ "audience" ∷ "tone"
            ∷ "narrative_arc" ∷ "sources" ∷ []),
    )
    ∷ (
      lit "layout",
      config "slide-layouts.csv" ("layout_name" ∷ "keywords" ∷ "use_case" ∷ "recommended_for" ∷ [])
          ("layout_name" ∷ "keywords" ∷ "use_case" ∷ "content_zones" ∷ "visual_weight"
            ∷ "cta_placement" ∷ "recommended_for" ∷ "avoid_for" ∷ "css_structure" ∷ []),
    )
    ∷ (
      lit "copy",
      config "slide-copy.csv"
          ("formula_name" ∷ "keywords" ∷ "use_case" ∷ "emotion_trigger" ∷ "slide_type" ∷ [])
          ("formula_name" ∷ "keywords" ∷ "components" ∷ "use_case" ∷ "example_template"
            ∷ "emotion_trigger" ∷ "slide_type" ∷ "source" ∷ []),
    )
    ∷ (
      lit "chart",
      config "slide-charts.csv"
          ("chart_type" ∷ "keywords" ∷ "best_for" ∷ "when_to_use" ∷ "slide_context" ∷ [])
          ("chart_type" ∷ "keywords" ∷ "best_for" ∷ "data_type" ∷ "when_to_use" ∷ "when_to_avoid"
            ∷ "max_categories" ∷ "slide_context" ∷ "css_implementation" ∷ "accessibility_notes"
            ∷ []),
    )
    ∷ []

-- domain_keywords of `detect_domain`
unfoldable pub slide_keywords : Dict (List Text)
slide_keywords =
    (
      lit "strategy",
      map lit (
          "pitch" ∷ "deck" ∷ "investor" ∷ "yc" ∷ "seed" ∷ "series" ∷ "demo" ∷ "sales" ∷ "webinar"
          ∷ "conference" ∷ "board" ∷ "qbr" ∷ "all-hands" ∷ "duarte" ∷ "kawasaki" ∷ "structure"
          ∷ []),
    )
    ∷ (
      lit "layout",
      map lit (
          "slide" ∷ "layout" ∷ "grid" ∷ "column" ∷ "title" ∷ "hero" ∷ "section" ∷ "cta"
          ∷ "screenshot" ∷ "quote" ∷ "timeline" ∷ "comparison" ∷ "pricing" ∷ "team" ∷ []),
    )
    ∷ (
      lit "copy",
      map lit (
          "headline" ∷ "copy" ∷ "formula" ∷ "aida" ∷ "pas" ∷ "hook" ∷ "cta" ∷ "benefit"
          ∷ "objection" ∷ "proof" ∷ "testimonial" ∷ "urgency" ∷ "scarcity" ∷ []),
    )
    ∷ (
      lit "chart",
      map lit (
          "chart" ∷ "graph" ∷ "bar" ∷ "line" ∷ "pie" ∷ "funnel" ∷ "metrics" ∷ "data"
          ∷ "visualization" ∷ "kpi" ∷ "trend" ∷ "comparison" ∷ "heatmap" ∷ "gauge" ∷ []),
    )
    ∷ []

-- scores
unfoldable pub slide_scores : Text → Dict ℕ
slide_scores query =
    map (λ (domain, keywords). (domain, length (select (λ kw. has kw query) keywords)))
      slide_keywords

-- max(scores, key=scores.get): the first of the greatest
unfoldable pub first_best : Text × ℕ → Dict ℕ → Text × ℕ
first_best best [] = best
first_best best (item ∷ items) = first_best (if ltb best.1 item.1 then item else best) items

unfoldable pub best_domain : Dict ℕ → Text
unfolding first_best
best_domain [] = lit "strategy"
best_domain (item ∷ items) =
    let (domain, points) = first_best item items in if ltb 0 points then domain else lit "strategy"

-- `detect_domain`
unfoldable pub slide_domain : Text → Text
unfolding best_domain
slide_domain query = best_domain (slide_scores (lower query))

-- CSV_CONFIG.get(domain, CSV_CONFIG["strategy"])
unfoldable pub slide_config : Text → Config
slide_config domain = get_or slide_csv_config domain (
    get_or slide_csv_config (lit "strategy")
      (record { file = []; search_cols = []; output_cols = [] }))

-- `if domain is None: domain = detect_domain(query)`
unfoldable pub domain_or_detected : Text → Option Text → Text
domain_or_detected query none = slide_domain query
domain_or_detected query (some domain) = domain

module _ (fl : Floats) where
  open fl use {Float, whole, less}

  -- the loop over the best scores, ranked[:max_results]
  shown_rows : List Row → List Text → List (ℕ × Float) → List Row
  shown_rows rows cols [] = []
  shown_rows rows cols ((idx, s) ∷ ranked) =
      let rest = shown_rows rows cols ranked in
      if less (whole 0) s
      then elim (get_elem? rows idx) [ none ↦ rest | some row ↦ project_row row cols ∷ rest ]
      else rest

  -- `_search_csv`, on the rows of the file
  unfoldable pub search_slides : List Row → Config → Text → ℤ → List Row
  unfolding shown_rows slice_to
  search_slides rows config query max_results =
      let index = slide_fit fl (documents_of config.search_cols rows) in
      shown_rows rows config.output_cols (slice_to max_results (slide_score fl index query))

  pub record SlideResults : Type 0 where
    pub domain : Text
    pub file : Text
    pub results : List Row

  -- `search`, with the rows of each file that exists; `none` is the error of a missing file
  unfoldable pub slide_search :
      (Text → Option (List Row)) → Text → Option Text → ℤ → Option SlideResults
  slide_search files query domain max_results =
      let name = domain_or_detected query domain in
      let config = slide_config name in
      elim (files config.file) [
        | none ↦ none
        | some rows ↦ some (record {
          domain = name;
          file = config.file;
          results = search_slides rows config query max_results;
        })
      ]

  with_results : Option SlideResults → List SlideResults → List SlideResults
  with_results none rest = rest
  with_results (some r) rest = if ltb 0 (length r.results) then r ∷ rest else rest

  search_domains : (Text → Option (List Row)) → Text → ℤ → List Text → List SlideResults
  unfolding with_results
  search_domains files query max_results [] = []
  search_domains files query max_results (domain ∷ domains) =
      with_results (slide_search files query (some domain) max_results)
        (search_domains files query max_results domains)

  -- `search_all`
  unfoldable pub slide_search_all : (Text → Option (List Row)) → Text → ℤ → List SlideResults
  unfolding search_domains
  slide_search_all files query max_results =
      search_domains files query max_results (dict_keys slide_csv_config)

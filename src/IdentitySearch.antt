-- ===== src/IdentitySearch.antt =====
-- The search over the databases of corporate identity: .agents/skills/design/scripts/cip/core.py.
-- Its class BM25 and its `_search_csv` are the same text as those of slide_search_core.py, so that
-- the models of the slide search serve for both.
pub mod Brief
mod Tests
use package.true.Catalog.Bm25.{dict_keys}
use package.true.Catalog.Config.{Config, config}
use package.true.Catalog.Domain.{Row}
use package.true.Dict.{Dict, get_or}
use package.true.Floats.{Floats}
use package.true.Prelude.{
  List, Option, [], if◌then◌else◌, is_empty, length, ltb, map, none, pos, select, some, take, ℕ, ℤ,
  ◌++◌, ◌∷◌,
}
use package.true.SlideSearch.Search.{first_best, search_slides}
use package.true.Text.{Text, lit, lower}
use package.true.Text.Cut.{has, words}

-- CSV_CONFIG
unfoldable pub cip_csv_config : Dict Config
cip_csv_config =
    (
      lit "deliverable",
      config "deliverables.csv"
          ("Deliverable" ∷ "Category" ∷ "Keywords" ∷ "Description" ∷ "Mockup Context" ∷ [])
          ("Deliverable" ∷ "Category" ∷ "Keywords" ∷ "Description" ∷ "Dimensions" ∷ "File Format"
            ∷ "Logo Placement" ∷ "Color Usage" ∷ "Typography Notes" ∷ "Mockup Context"
            ∷ "Best Practices" ∷ "Avoid" ∷ []),
    )
    ∷ (
      lit "style",
      config "styles.csv" ("Style Name" ∷ "Category" ∷ "Keywords" ∷ "Description" ∷ "Mood" ∷ []) (
          "Style Name" ∷ "Category" ∷ "Keywords" ∷ "Description" ∷ "Primary Colors"
          ∷ "Secondary Colors" ∷ "Typography" ∷ "Materials" ∷ "Finishes" ∷ "Mood" ∷ "Best For"
          ∷ "Avoid For" ∷ []),
    )
    ∷ (
      lit "industry",
      config "industries.csv" ("Industry" ∷ "Keywords" ∷ "CIP Style" ∷ "Mood" ∷ []) (
          "Industry" ∷ "Keywords" ∷ "CIP Style" ∷ "Primary Colors" ∷ "Secondary Colors"
          ∷ "Typography" ∷ "Key Deliverables" ∷ "Mood" ∷ "Best Practices" ∷ "Avoid" ∷ []),
    )
    ∷ (
      lit "mockup",
      config "mockup-contexts.csv"
          ("Context Name" ∷ "Category" ∷ "Keywords" ∷ "Scene Description" ∷ [])
          ("Context Name" ∷ "Category" ∷ "Keywords" ∷ "Scene Description" ∷ "Lighting"
            ∷ "Environment" ∷ "Props" ∷ "Camera Angle" ∷ "Background" ∷ "Style Notes" ∷ "Best For"
            ∷ "Prompt Modifiers" ∷ []),
    )
    ∷ []

-- domain_keywords of `detect_domain`
unfoldable pub cip_keywords : Dict (List Text)
cip_keywords =
    (
      lit "deliverable",
      map lit (
          "card" ∷ "letterhead" ∷ "envelope" ∷ "folder" ∷ "shirt" ∷ "cap" ∷ "badge" ∷ "signage"
          ∷ "vehicle" ∷ "car" ∷ "van" ∷ "stationery" ∷ "uniform" ∷ "merchandise" ∷ "packaging"
          ∷ "banner" ∷ "booth" ∷ []),
    )
    ∷ (
      lit "style",
      map lit (
          "style" ∷ "minimal" ∷ "modern" ∷ "luxury" ∷ "vintage" ∷ "industrial" ∷ "elegant" ∷ "bold"
          ∷ "corporate" ∷ "organic" ∷ "playful" ∷ []),
    )
    ∷ (
      lit "industry",
      map lit (
          "tech" ∷ "finance" ∷ "legal" ∷ "healthcare" ∷ "hospitality" ∷ "food" ∷ "fashion"
          ∷ "retail" ∷ "construction" ∷ "logistics" ∷ []),
    )
    ∷ (
      lit "mockup",
      map lit (
          "mockup" ∷ "scene" ∷ "context" ∷ "photo" ∷ "shot" ∷ "lighting" ∷ "background" ∷ "studio"
          ∷ "lifestyle" ∷ []),
    )
    ∷ []

unfoldable pub best_or_deliverable : Dict ℕ → Text
best_or_deliverable [] = lit "deliverable"
best_or_deliverable (item ∷ items) =
    let (domain, points) = first_best item items in
    if ltb 0 points then domain else lit "deliverable"

-- `detect_domain`: the number of keywords of each domain, and the first of the best
unfoldable pub cip_domain : Text → Text
unfolding best_or_deliverable
cip_domain query = best_or_deliverable (
    map (λ (domain, keywords). (domain, length (select (λ kw. has kw (lower query)) keywords)))
      cip_keywords)

-- CSV_CONFIG.get(domain, CSV_CONFIG["deliverable"])
unfoldable pub cip_config : Text → Config
cip_config domain = get_or cip_csv_config domain (
    get_or cip_csv_config (lit "deliverable")
      (record { file = []; search_cols = []; output_cols = [] }))

cip_domain_of : Text → Option Text → Text
cip_domain_of query none = cip_domain query
cip_domain_of query (some domain) = domain

-- the first result, or {}
first_or_empty : List Row → Row
first_or_empty [] = []
first_or_empty (row ∷ rows) = row

-- `style_query or industry.get(…)`
chosen_style : Option Text → Row → Text
chosen_style none industry = get_or industry (lit "CIP Style") (lit "corporate minimal")
chosen_style (some query) industry =
    if is_empty query then get_or industry (lit "CIP Style") (lit "corporate minimal") else query

pub record CipBrief : Type 0 where
  pub brand_name : Text
  pub industry : Row
  pub style : Row
  pub recommended_deliverables : List Row
  pub primary_color : Text
  pub secondary_color : Text
  pub typography : Text
  pub materials : Text
  pub finishes : Text

module _ (fl : Floats) (files : Text → Option (List Row)) where
  cip_file_results : Option (List Row) → Config → Text → ℤ → Option (List Row)
  cip_file_results none config query max_results = none
  cip_file_results (some rows) config query max_results =
      some (search_slides fl rows config query max_results)

  -- `search`: the results, or `none` for the error of a missing file
  unfoldable pub cip_search : Text → Option Text → ℤ → Option (List Row)
  unfolding cip_file_results cip_domain_of
  cip_search query domain max_results =
      let config = cip_config (cip_domain_of query domain) in
      cip_file_results (files config.file) config query max_results

  -- result.get("results", []): an error has none
  results_or_none : Option (List Row) → List Row
  results_or_none none = []
  results_or_none (some results) = results

  with_domain : Text → List Row → Dict (List Row) → Dict (List Row)
  with_domain domain [] rest = rest
  with_domain domain (row ∷ rows) rest = (domain, row ∷ rows) ∷ rest

  cip_domains : Text → ℤ → List Text → Dict (List Row)
  unfolding with_domain results_or_none
  cip_domains query max_results [] = []
  cip_domains query max_results (domain ∷ domains) =
      with_domain domain (results_or_none (cip_search query (some domain) max_results))
        (cip_domains query max_results domains)

  -- `search_all`
  unfoldable pub cip_search_all : Text → ℤ → Dict (List Row)
  unfolding cip_domains
  cip_search_all query max_results = cip_domains query max_results (dict_keys cip_csv_config)

  -- the loop over the deliverables
  deliverables_of : List Text → List Row
  unfolding results_or_none
  deliverables_of [] = []
  deliverables_of (d ∷ ds) =
      take 1 (results_or_none (cip_search d (some (lit "deliverable")) (pos 1)))
      ++ deliverables_of ds

  -- `get_cip_brief`
  unfoldable pub get_cip_brief : Text → Text → Option Text → CipBrief
  unfolding first_or_empty chosen_style deliverables_of results_or_none
  get_cip_brief brand_name industry_query style_query =
      let industry =
        first_or_empty
          (results_or_none (cip_search industry_query (some (lit "industry")) (pos 1))) in
      let style = first_or_empty (
        results_or_none
          (cip_search (chosen_style style_query industry) (some (lit "style")) (pos 1))) in
      record {
        brand_name = brand_name;
        industry = industry;
        style = style;
        recommended_deliverables =
            deliverables_of (take 5 (words (get_or industry (lit "Key Deliverables") [])));
        primary_color =
            get_or style (lit "Primary Colors") (get_or industry (lit "Primary Colors") []);
        secondary_color =
            get_or style (lit "Secondary Colors") (get_or industry (lit "Secondary Colors") []);
        typography = get_or style (lit "Typography") (get_or industry (lit "Typography") []);
        materials = get_or style (lit "Materials") [];
        finishes = get_or style (lit "Finishes") [];
      }

-- ===== src/Catalog/Search.antt =====
-- `search`: the main search, with the detection of the domain.
-- An argument for `max_results`: `isinstance` tells the whole numbers from the rest.
pub mod Results
pub mod Routes
use package.true.Catalog.Config.{Config, config, csv_config}
use package.true.Catalog.Detailed.{
  Diagnostic, File, Found, Request, holds, load_rows_or_empty, missing, project_row,
  search_csv_detailed, search_threshold, unreadable,
}
use package.true.Catalog.Domain.{Row, contains_phrase, detect_domain, domain_keywords}
use package.true.Catalog.Identity.{
  Redirect, exact_row_identity, landing_fields, style_destination, style_identity,
}
use package.true.Catalog.Normalize.{normalize}
use package.true.Catalog.Stack.Legacy.{normalized_query}
use package.true.Catalog.Suggest.{suggest_identities, suggest_terms}
use package.true.Dict.{get_or, has_key}
use package.true.Floats.{Floats}
use package.true.Prelude.{
  Bool, List, Option, [], false, if◌then◌else◌, is_empty, is_none, leb, none, not, some, true, ℕ,
  ◌&&◌, ◌∷◌,
}
use package.true.Text.{Text, lit, lower, ◌==◌}

pub data Argument : Type 0 where
  natural : ℕ → Argument
  negative : Argument
  boolean : Bool → Argument
  no_number : Argument

-- `_valid_max_results`, with the number of a valid argument
unfoldable pub valid_max_results : Argument → Option ℕ
valid_max_results (natural n) = if leb 1 n && leb n 20 then some n else none
valid_max_results negative = none
valid_max_results (boolean b) = none
valid_max_results no_number = none

-- what `_load_product_keywords` reads
product_rows : File → Option (List Row)
product_rows missing = none
product_rows unreadable = none
product_rows (holds rows) = some rows

unfoldable pub is_active_style : Row → Bool
is_active_style row = get_or row (lit "Status") (lit "active") == lit "active"

-- domain if domain in CSV_CONFIG else "style"
unfoldable pub search_domain_of : Text → Text
search_domain_of domain = if has_key csv_config domain then domain else lit "style"

unfoldable pub config_of : Text → Config
config_of domain =
    get_or csv_config domain (record { file = []; search_cols = []; output_cols = [] })

-- Where a search has got to: a row that is named outright, and a redirect.
pub record Route : Type 0 where
  pub domain : Text
  pub runner_up : Option Text
  pub exact : Option Row
  pub redirect : Option Redirect

route : Text → Option Text → Option Row × Option Redirect → Route
route domain runner_up (exact, redirect) = record {
  domain = domain;
  runner_up = runner_up;
  exact = exact;
  redirect = redirect;
}

module _ (fl : Floats) (files : Text → File) where
  open fl use {Float, whole}

  -- The keys of an answer that need no diagnostics.
  pub record Answer : Type 0 where
    pub domain : Text
    pub auto_detected : Bool
    pub runner_up_domain : Option Text
    pub results : List Row
    pub redirect : Option Redirect
    pub error : Option Text
    pub suggestions : Option (List Text)
    pub diagnostic : Diagnostic fl

  pub data Response : Type 0 where
    bad_max_results : Response
    file_not_found : Text → Response
    answered : Answer → Response

  pub style_rows : List Row
  style_rows = load_rows_or_empty (files (config_of (lit "style")).file)

  unfoldable pub products : Option (List Row)
  unfolding product_rows
  products = product_rows (files (config_of (lit "product")).file)

  -- `if domain is None`
  detected : Text → Option Row → Route
  unfolding route products style_rows
  detected query none =
      let (domain, runner_up) = detect_domain products query in route domain runner_up (none, none)
  detected query (some row) = route (lit "style") none (style_destination style_rows (some row))

  pub first_route : Text → Option Text → Route
  unfolding detected route style_rows
  first_route query none = detected query (style_identity style_rows query false)
  first_route query (some domain) = route domain none (none, none)

  -- the second look for a name, in the file of the domain
  pub second_route : Text → Text → Route → Route
  unfolding route style_rows
  second_route query search_domain r =
      if search_domain == lit "style" && is_none r.exact && is_none r.redirect
      then route r.domain r.runner_up
          (style_destination style_rows (style_identity style_rows query true))
      else if search_domain == lit "landing"
      then route r.domain r.runner_up (
        exact_row_identity (load_rows_or_empty (files (config_of search_domain).file)) query
            landing_fields,
        r.redirect,
      )
      else r

  -- `_exact_match_diagnostic`
  unfoldable pub exact_match_diagnostic : Text → Text → Diagnostic fl
  exact_match_diagnostic query reason = record {
    reason = reason;
    error = none;
    normalized_query = some (normalize query);
    search_query = some query;
    rewrites = [];
    measures =
        some (record {
          top = whole 0;
          runner_up = whole 0;
          margin = whole 0;
          token_coverage = whole 1;
        });
    abstained = some false;
  }

  redirect_diagnostic : Text → Diagnostic fl
  redirect_diagnostic query = record {
    reason = lit "cross-domain-redirect";
    error = none;
    normalized_query = some (normalize query);
    search_query = some query;
    rewrites = [];
    measures = none;
    abstained = some true;
  }

  request_of : Text → Text → ℕ → Request fl
  request_of query search_domain max_results =
      let config = config_of search_domain in
      record {
        name = config.file;
        search_cols = config.search_cols;
        output_cols = config.output_cols;
        query = query;
        max_results = max_results;
        threshold = search_threshold fl search_domain;
        routing_domain = some search_domain;
        row_filter = λ row. if search_domain == lit "style" then is_active_style row else true;
      }

  -- the row that is named, or the redirect, or the search
  found_on : Text → Text → ℕ → Option Row → Option Redirect → Found fl
  unfolding redirect_diagnostic exact_match_diagnostic request_of products
  found_on query search_domain max_results (some row) redirect = record {
    results = project_row row (config_of search_domain).output_cols ∷ [];
    index = none;
    diagnostic = exact_match_diagnostic query (lit "exact-identity");
  }
  found_on query search_domain max_results none (some there) = record {
    results = [];
    index = none;
    diagnostic = redirect_diagnostic query;
  }
  found_on query search_domain max_results none none =
      search_csv_detailed fl (domain_keywords products) (request_of query search_domain max_results)
        (files (config_of search_domain).file)

  -- icons of another library are not searched
  without_lucide : Text → Text → Found fl → Found fl
  without_lucide query search_domain found =
      if search_domain == lit "icons" && contains_phrase (normalize (lower query)) (lit "lucide")
      then record {
        results = [];
        index = found.index;
        diagnostic = record {
          reason = lit "unsupported-library";
          error = found.diagnostic.error;
          normalized_query = found.diagnostic.normalized_query;
          search_query = found.diagnostic.search_query;
          rewrites = found.diagnostic.rewrites;
          measures = found.diagnostic.measures;
          abstained = some true;
        };
      }
      else found

  suggestions_of : Text → Text → Found fl → Option (List Text)
  suggestions_of query search_domain found =
      if not (is_empty found.results)
      then none
      else if search_domain == lit "landing"
      then some (
          suggest_identities fl (load_rows_or_empty (files (config_of search_domain).file)) query
            landing_fields 6)
      else some (suggest_terms fl found.index query 6 (some (search_threshold fl search_domain)))

  answer_of : Text → Text → Bool → Route → Found fl → Answer
  unfolding suggestions_of
  answer_of query search_domain auto_detected r found = record {
    domain = r.domain;
    auto_detected = auto_detected;
    runner_up_domain = r.runner_up;
    results = found.results;
    redirect = r.redirect;
    error = found.diagnostic.error;
    suggestions = suggestions_of query search_domain found;
    diagnostic = found.diagnostic;
  }

  unfoldable pub is_missing : File → Bool
  is_missing missing = true
  is_missing unreadable = false
  is_missing (holds rows) = false

  search_from : Text → ℕ → Bool → Route → Response
  unfolding is_missing second_route found_on without_lucide answer_of
  search_from query max_results auto_detected r =
      let search_domain = search_domain_of r.domain in
      let file = (config_of search_domain).file in
      let r2 = second_route query search_domain r in
      if is_missing (files file)
      then file_not_found file
      else answered (
          answer_of query search_domain auto_detected r2 (
            without_lucide query search_domain
              (found_on query search_domain max_results r2.exact r2.redirect)))

  -- `search`
  unfoldable pub search : Text → Option Text → Argument → Response
  unfolding search_from first_route
  search query domain max_results = elim (valid_max_results max_results) [
    | none ↦ bad_max_results
    | some n ↦ search_from query n (is_none domain) (first_route query domain)
  ]

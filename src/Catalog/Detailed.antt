-- ===== src/Catalog/Detailed.antt =====
-- `_search_csv_detailed`: the search in one file, with its thresholds and its diagnostic.
-- A file: it may not exist, or be no readable CSV file.
pub mod Thresholds
pub mod Rows
use package.true.Catalog.Bm25.{Index, fit, score, vocabulary}
use package.true.Catalog.Domain.{Row}
use package.true.Catalog.Normalize.{normalize}
use package.true.Catalog.Rewrite.{rewrite_query}
use package.true.Catalog.Tokens.{tokenize}
use package.true.Dict.{Dict, get_or, has_key}
use package.true.Floats.{Floats}
use package.true.Prelude.{
  Bool, List, Option, [], get_elem?, if◌then◌else◌, length, map, none, not, select, some, take, ℕ,
  ◌&&◌, ◌++◌, ◌||◌, ◌∷◌,
}
use package.true.Text.{Text, contains, lit, to_set, ◌==◌}
use package.true.Text.Cut.{join}

pub data File : Type 0 where
  missing : File
  unreadable : File
  holds : List Row → File

-- `_load_rows_or_empty`
unfoldable pub load_rows_or_empty : File → List Row
load_rows_or_empty missing = []
load_rows_or_empty unreadable = []
load_rows_or_empty (holds rows) = rows

-- `_project_row`
unfoldable pub project_row : Row → List Text → Row
project_row row [] = []
project_row row (col ∷ cols) =
    let rest = project_row row cols in
    if has_key row col then (col, get_or row col []) ∷ rest else rest

-- " ".join(str(row.get(column, "")) for column in search_cols), for each row
unfoldable pub documents_of : List Text → List Row → List Text
documents_of cols rows = map (λ row. join (lit " ") (map (λ col. get_or row col []) cols)) rows

module _ (fl : Floats) where
  open fl use {Float, whole, ratio, minus, over, less, at_most}

  pub record Threshold : Type 0 where
    pub min_score : Float
    pub min_margin : Float
    pub min_coverage : Float

  -- _NO_THRESHOLD, _STACK_THRESHOLD
  unfoldable pub no_threshold : Threshold
  no_threshold = record { min_score = whole 0; min_margin = whole 0; min_coverage = whole 0 }

  unfoldable pub stack_threshold : Threshold
  stack_threshold = record {
    min_score = ratio 18 5;
    min_margin = whole 0;
    min_coverage = over (whole 1) (whole 3);
  }

  -- _DOMAIN_SCORE_FLOORS
  unfoldable pub score_floors : Dict Float
  score_floors =
      (lit "style", ratio 43 10)
      ∷ (lit "landing", whole 4)
      ∷ (lit "product", whole 6)
      ∷ (lit "icons", ratio 29 5)
      ∷ (lit "react", ratio 33 10)
      ∷ []

  -- _SEARCH_THRESHOLDS[domain]
  unfoldable pub search_threshold : Text → Threshold
  search_threshold domain = record {
    min_score = get_or score_floors domain (whole 0);
    min_margin = whole 0;
    min_coverage = if domain == lit "landing" then ratio 1 2 else whole 0;
  }

  -- `_query_coverage`, of the tokens of the query
  coverage_of : List Text → List Text → Float
  coverage_of vocabulary [] = whole 0
  coverage_of vocabulary (token ∷ tokens) =
      over (whole (length (select (contains vocabulary) (token ∷ tokens))))
        (whole (length (token ∷ tokens)))

  unfoldable pub query_coverage : Index Float → Text → Float
  unfolding coverage_of
  query_coverage index query = coverage_of (vocabulary fl index) (to_set (tokenize query))

  unfoldable pub top_score : List (ℕ × Float) → Float
  top_score [] = whole 0
  top_score ((idx, s) ∷ ranked) = s

  unfoldable pub runner_up_score : List (ℕ × Float) → Float
  unfolding top_score
  runner_up_score [] = whole 0
  runner_up_score (best ∷ ranked) = top_score ranked

  -- abstain
  unfoldable pub abstains : Index Float → Text → Threshold → Bool
  unfolding top_score runner_up_score
  abstains index query threshold =
      let ranked = score fl index query in
      at_most (top_score ranked) threshold.min_score
      || less (query_coverage index query) threshold.min_coverage
      || (less (whole 0) threshold.min_margin
          && less (minus (top_score ranked) (runner_up_score ranked)) threshold.min_margin)

  -- `_passes_threshold`
  unfoldable pub passes_threshold : Index Float → Text → Threshold → Bool
  unfolding top_score runner_up_score
  passes_threshold index query threshold =
      let ranked = score fl index query in
      less threshold.min_score (top_score ranked)
      && at_most threshold.min_coverage (query_coverage index query)
      && (at_most threshold.min_margin (whole 0)
          || at_most threshold.min_margin (minus (top_score ranked) (runner_up_score ranked)))

  -- The keys of a diagnostic; `measures` holds those that a search sets beside its reason.
  pub record Measures : Type 0 where
    pub top : Float
    pub runner_up : Float
    pub margin : Float
    pub token_coverage : Float

  pub record Diagnostic : Type 0 where
    pub reason : Text
    pub error : Option Text
    pub normalized_query : Option Text
    pub search_query : Option Text
    pub rewrites : List Text
    pub measures : Option Measures
    pub abstained : Option Bool

  pub record Found : Type 0 where
    pub results : List Row
    pub index : Option (Index Float)
    pub diagnostic : Diagnostic

  -- the early returns
  nothing_found : Text → Option Text → Found
  nothing_found reason error = record {
    results = [];
    index = none;
    diagnostic = record {
      reason = reason;
      error = error;
      normalized_query = none;
      search_query = none;
      rewrites = [];
      measures = none;
      abstained = none;
    };
  }

  -- the loop over the best scores; a score belongs to a row of the data, so that data[idx] is one
  unfoldable pub take_rows : List Row → List Text → List (ℕ × Float) → List Row
  take_rows rows cols [] = []
  take_rows rows cols ((idx, s) ∷ ranked) =
      let rest = take_rows rows cols ranked in
      if at_most s (whole 0)
      then rest
      else elim (get_elem? rows idx) [ none ↦ rest | some row ↦ project_row row cols ∷ rest ]

  -- What a search in a file is called with.
  pub record Request : Type 0 where
    pub name : Text
    pub search_cols : List Text
    pub output_cols : List Text
    pub query : Text
    pub max_results : ℕ
    pub threshold : Threshold
    pub routing_domain : Option Text
    pub row_filter : Row → Bool

  ranked_rows : Dict (List Text) → Request → List Row → Found
  unfolding nothing_found take_rows abstains
  ranked_rows keywords r [] = nothing_found (lit "empty-data") none
  ranked_rows keywords r (row ∷ rows) =
      let data_rows = row ∷ rows in
      let index = fit fl (documents_of r.search_cols data_rows) in
      let (query, rewrites) =
        rewrite_query keywords r.query r.routing_domain (vocabulary fl index) in
      let ranked = score fl index query in
      let abstain = abstains index query r.threshold in
      record {
        results =
            if not abstain
            then take_rows data_rows r.output_cols (take r.max_results ranked)
            else [];
        index = some index;
        diagnostic = record {
          reason = if abstain then lit "low-confidence" else lit "matched";
          error = none;
          normalized_query = some (normalize r.query);
          search_query = some query;
          rewrites = rewrites;
          measures = some (record {
            top = top_score ranked;
            runner_up = runner_up_score ranked;
            margin = minus (top_score ranked) (runner_up_score ranked);
            token_coverage = query_coverage index query;
          });
          abstained = some abstain;
        };
      }

  -- `_search_csv_detailed`
  unfoldable pub search_csv_detailed : Dict (List Text) → Request → File → Found
  unfolding ranked_rows nothing_found
  search_csv_detailed keywords r missing = nothing_found (lit "missing-file") none
  search_csv_detailed keywords r unreadable =
      nothing_found (lit "read-error") (some (lit "Unable to read search data: " ++ r.name))
  search_csv_detailed keywords r (holds rows) = ranked_rows keywords r (select r.row_filter rows)

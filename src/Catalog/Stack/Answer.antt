-- ===== src/Catalog/Stack/Answer.antt =====
-- `search_stack`
-- The keys of an answer that need no diagnostics.
use package.true.Catalog.Config.{stack_config, stack_output_cols, stack_search_cols}
use package.true.Catalog.Detailed.{
  Diagnostic, File, Found, Request, Threshold, load_rows_or_empty, no_threshold, project_row,
  search_csv_detailed, stack_threshold,
}
use package.true.Catalog.Domain.{Row, domain_keywords}
use package.true.Catalog.Search.{
  Argument, exact_match_diagnostic, is_missing, products, valid_max_results,
}
use package.true.Catalog.Stack.Filter.{
  Generation, base_for, current_only, exact_stack_identifier, generation_of, legacy_only,
  legacy_successor_guidance, legacy_unavailable, non_legacy, stack_row_filter,
}
use package.true.Catalog.Suggest.{suggest_terms}
use package.true.Dict.{get}
use package.true.Floats.{Floats}
use package.true.Prelude.{
  Bool, List, Option, [], false, if◌then◌else◌, is_empty, is_none, none, some, true, ℕ, ◌&&◌, ◌∷◌,
}
use package.true.Text.{Text, lit}

module _ (fl : Floats) (files : Text → File) where
  open fl use {Float, whole}

  pub record StackAnswer : Type 0 where
    pub stack : Text
    pub file : Text
    pub results : List Row
    pub error : Option Text
    pub suggestions : Option (List Text)
    pub diagnostic : Diagnostic fl

  pub data StackResponse : Type 0 where
    bad_stack_results : Text → StackResponse
    unknown_stack : Text → StackResponse
    no_stack_file : Text → Text → StackResponse
    stack_answered : StackAnswer → StackResponse

  is_legacy_only : Generation → Bool
  is_legacy_only legacy_only = true
  is_legacy_only legacy_unavailable = false
  is_legacy_only current_only = false
  is_legacy_only non_legacy = false

  -- A variant with a base is not "legacy-only".
  unfoldable pub stack_search_threshold : List Row → Text → Text → Threshold fl
  unfolding is_legacy_only generation_of base_for no_threshold stack_threshold
  stack_search_threshold rows query stack =
      if is_legacy_only (generation_of rows query stack) && is_none (base_for query stack)
      then no_threshold fl
      else stack_threshold fl

  -- `_legacy_successor_guidance(...) or _exact_stack_identifier(...)`
  unfoldable pub exact_stack_row : List Row → Text → Text → Option Row
  unfolding legacy_successor_guidance exact_stack_identifier stack_row_filter
  exact_stack_row rows query stack =
      let keeps = stack_row_filter rows query stack in
      elim (legacy_successor_guidance rows query stack keeps) [
        | some row ↦ some row
        | none ↦ exact_stack_identifier rows query keeps
      ]

  unfoldable pub stack_request : List Row → Text → Text → Text → ℕ → Request fl
  unfolding stack_search_threshold stack_row_filter
  stack_request rows file query stack max_results = record {
    name = file;
    search_cols = stack_search_cols;
    output_cols = stack_output_cols;
    query = query;
    max_results = max_results;
    threshold = stack_search_threshold rows query stack;
    routing_domain = none;
    row_filter = stack_row_filter rows query stack;
  }

  unfoldable pub stack_found : Text → Text → Text → ℕ → Found fl
  unfolding exact_stack_row exact_match_diagnostic stack_request products search_csv_detailed
  stack_found file query stack max_results =
      let rows = load_rows_or_empty (files file) in
      elim (exact_stack_row rows query stack) [
        | some row ↦ record {
          results = project_row row stack_output_cols ∷ [];
          index = none;
          diagnostic = exact_match_diagnostic fl files query (lit "exact-identifier");
        }
        | none ↦
            search_csv_detailed fl (domain_keywords (products fl files))
              (stack_request rows file query stack max_results) (files file)
      ]

  unfoldable pub stack_suggestions : Text → Text → Text → Found fl → Option (List Text)
  unfolding suggest_terms stack_search_threshold
  stack_suggestions file query stack found =
      if is_empty found.results
      then some (
          suggest_terms fl found.index query 6
            (some (stack_search_threshold (load_rows_or_empty (files file)) query stack)))
      else none

  unfoldable pub stack_answer_of : Text → Text → Text → Found fl → StackAnswer
  unfolding stack_suggestions
  stack_answer_of file query stack found = record {
    stack = stack;
    file = file;
    results = found.results;
    error = found.diagnostic.error;
    suggestions = stack_suggestions file query stack found;
    diagnostic = found.diagnostic;
  }

  unfoldable pub in_stack_file : Text → Text → Text → ℕ → StackResponse
  unfolding stack_answer_of stack_found is_missing
  in_stack_file file query stack max_results =
      if is_missing fl files (files file)
      then no_stack_file file stack
      else stack_answered
          (stack_answer_of file query stack (stack_found file query stack max_results))

  -- `search_stack`
  unfoldable pub search_stack : Text → Text → Argument → StackResponse
  unfolding in_stack_file valid_max_results
  search_stack query stack max_results = elim (valid_max_results max_results) [
    | none ↦ bad_stack_results stack
    | some n ↦ elim (get stack_config stack) [
      | none ↦ unknown_stack stack
      | some file ↦ in_stack_file file query stack n
    ]
  ]

-- ===== src/Catalog/Stack/Coherent.antt =====
-- What `search_stack` answers with, on every branch.
use mathlib.Core.List.{Mem}
use package.true.Catalog.Config.{stack_config}
use package.true.Catalog.Detailed.{File, load_rows_or_empty, missing}
use package.true.Catalog.Domain.{Row}
use package.true.Catalog.Search.{Argument, valid_max_results}
use package.true.Catalog.Stack.Answer.{
  StackResponse, bad_stack_results, no_stack_file, stack_answered, unknown_stack,
}
use package.true.Catalog.Stack.Filter.{stack_row_filter}
use package.true.Catalog.Stack.Generation.{IsCoherent}
use package.true.Dict.{get}
use package.true.Floats.{Floats}
use package.true.Prelude.{List, length, none, some, true, ℕ, ◌≡◌, ◌≢◌, ◌≤◌}
use package.true.Text.{Text}

module _ (rows : List Row) (query stack : Text) where
  abbrev IsKept : Row → Type 0
  IsKept row = Mem row rows × (stack_row_filter rows query stack row ≡ true)

module _ (fl : Floats) (files : Text → File) where
  -- The rows are coherent, and at most as many as were asked for.
  abbrev IsFoundIn : Text → Text → Text → ℕ → List Row → Type 0
  IsFoundIn file query stack n results =
      IsCoherent (load_rows_or_empty (files file)) query stack results × (length results ≤ n)

  -- What an answer says of the arguments.
  abbrev pub IsStackResponse : Text → Text → Argument → StackResponse fl files → Type 0
  IsStackResponse query stack max_results (bad_stack_results s) =
      valid_max_results max_results ≡ none
  IsStackResponse query stack max_results (unknown_stack s) =
      (n : ℕ) × (valid_max_results max_results ≡ some n) × (get stack_config stack ≡ none)
  IsStackResponse query stack max_results (no_stack_file file s) =
      (n : ℕ) × (valid_max_results max_results ≡ some n)
      × (get stack_config stack ≡ some file)
      × (files file ≡ missing)
  IsStackResponse query stack max_results (stack_answered a) =
      (n : ℕ) × ((valid_max_results max_results ≡ some n) × (get stack_config stack ≡ some a.file))
      × (files a.file ≢ missing)
      × IsFoundIn a.file query stack n a.results

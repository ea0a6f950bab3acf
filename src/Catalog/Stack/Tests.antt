-- ===== src/Catalog/Stack/Tests.antt =====
-- Runs of the functions of `search_stack` on concrete inputs, and the property at one.
use package.true.Catalog.Detailed.{File, holds, missing}
use package.true.Catalog.Domain.{Row}
use package.true.Catalog.Normalize.{normalize}
use package.true.Catalog.Stack.Filter.{
  base_for, generation_of, has_status, kept_in, stack_row_filter, status_filter,
}
use package.true.Catalog.Stack.Legacy.{requests_legacy, stack_current_versions}
use package.true.Catalog.Stack.Versions.{
  number_at, stack_query_names, version_less, versions_in, word,
}
use package.true.Dict.{get, get_or}
use package.true.Prelude.{[], false, if◌then◌else◌, refl, select, true, ℕ_discrete, ◌∷◌, ◌≡◌}
use package.true.Text.{Text, Text-discrete, is_space, lit, ◌==◌}

parses_versions :
    versions_in (word "react") (lit "react 18, react v19.2 (react@17)")
    ≡ (18 ∷ []) ∷ (19 ∷ 2 ∷ []) ∷ (17 ∷ []) ∷ []
unfolding versions_in word lit number_at is_space
parses_versions = refl

asks_legacy : requests_legacy (lit "React 18 effects") (lit "react") ≡ true
unfolding requests_legacy stack_current_versions stack_query_names normalize is_space version_less
    lit Text-discrete ℕ_discrete get
asks_legacy = refl

migrates : requests_legacy (lit "migrate from React 18 to React 19") (lit "react") ≡ false
unfolding requests_legacy stack_current_versions stack_query_names normalize is_space version_less
    lit Text-discrete ℕ_discrete get
migrates = refl

asks_release : requests_legacy (lit "three r150 renderer") (lit "threejs") ≡ true
unfolding requests_legacy stack_current_versions stack_query_names normalize is_space version_less
    lit Text-discrete ℕ_discrete get
asks_release = refl

abbrev old_row : Row
old_row = (lit "Guideline", lit "Use classes") ∷ (lit "Status", lit "deprecated") ∷ []

abbrev new_row : Row
new_row = (lit "Guideline", lit "Use hooks") ∷ (lit "Status", lit "active") ∷ []

abbrev react_only : Text → File
react_only name = if name == lit "stacks/react.csv" then holds (old_row ∷ new_row ∷ []) else missing

keeps_old :
    select
      (stack_row_filter (old_row ∷ new_row ∷ []) (lit "React 18 effects") (lit "react"))
      (old_row ∷ new_row ∷ [])
    ≡ old_row ∷ []
unfolding stack_row_filter kept_in base_for status_filter generation_of has_status get_or
    requests_legacy stack_current_versions stack_query_names normalize is_space version_less lit
    Text-discrete ℕ_discrete get
keeps_old = refl

-- ===== src/Catalog/Stack/Legacy.antt =====
-- `_stack_query_requests_legacy`: whether a query asks for an older generation of a stack.
-- WEB_STACK_CURRENT_MAJORS, STACK_CURRENT_VERSIONS and LEGACY_ONLY_STACKS
use package.true.Catalog.Normalize.{normalize}
use package.true.Catalog.Stack.Versions.{
  Part, is_older, releases_in, stack_query_names, versions_in,
}
use package.true.Dict.{Dict, get}
use package.true.Prelude.{
  Bool, List, Option, [], all, any, false, if◌then◌else◌, map, none, not, some, true, ℕ, ◌&&◌, ◌++◌,
  ◌||◌, ◌∷◌,
}
use package.true.Text.{Text, contains, lit, lower, ◌==◌}
use package.true.Text.Cut.{starts_with, word_runs}

unfoldable pub stack_current_versions : Dict (List ℕ)
stack_current_versions =
    (lit "react", 19 ∷ [])
    ∷ (lit "nextjs", 16 ∷ [])
    ∷ (lit "vue", 3 ∷ [])
    ∷ (lit "svelte", 5 ∷ [])
    ∷ (lit "astro", 7 ∷ [])
    ∷ (lit "angular", 22 ∷ [])
    ∷ (lit "html-tailwind", 4 ∷ [])
    ∷ (lit "nuxtjs", 4 ∷ [])
    ∷ (lit "nuxt-ui", 4 ∷ [])
    ∷ (lit "react-native", 0 ∷ 86 ∷ [])
    ∷ (lit "flutter", 3 ∷ 44 ∷ [])
    ∷ (lit "swiftui", 16 ∷ [])
    ∷ (lit "jetpack-compose", 1 ∷ 11 ∷ [])
    ∷ (lit "avalonia", 12 ∷ [])
    ∷ (lit "winui", 3 ∷ [])
    ∷ (lit "javafx", 26 ∷ [])
    ∷ (lit "threejs", 0 ∷ 185 ∷ [])
    ∷ (lit "laravel", 13 ∷ [])
    ∷ []

unfoldable pub legacy_only_stacks : List Text
legacy_only_stacks = lit "uwp" ∷ []

-- A word of \b(?:migrat\w*|upgrad\w*|replac\w*|instead|modern|current)\b
is_migration_word : Text → Bool
unfolding starts_with
is_migration_word w =
    any (λ stem. starts_with stem w) (map lit ("migrat" ∷ "upgrad" ∷ "replac" ∷ []))
    || contains (map lit ("instead" ∷ "modern" ∷ "current" ∷ [])) w

unfoldable pub migration_intent : Text → Bool
unfolding is_migration_word word_runs
migration_intent t = any is_migration_word (word_runs t)

-- \b(?:legacy|deprecated)\b
unfoldable pub names_legacy : Text → Bool
unfolding word_runs
names_legacy t = any (contains (map lit ("legacy" ∷ "deprecated" ∷ []))) (word_runs t)

-- _normalize(str(query or "").casefold())
unfoldable pub normalized_query : Text → Text
unfolding lower
normalized_query query = normalize (lower query)

requested_versions : Part → Text → Text → List (List ℕ)
unfolding versions_in releases_in word_runs
requested_versions name stack t =
    versions_in name t ++ (if stack == lit "threejs" then releases_in (word_runs t) else [])

-- What the versions that are asked for say, and `none` where no version is.
judged : List ℕ → Bool → List (List ℕ) → Option Bool
unfolding is_older
judged current migrates [] = none
judged current migrates (v ∷ versions) =
    if migrates && any (λ requested. not (is_older current requested)) (v ∷ versions)
    then some false
    else some (all (is_older current) (v ∷ versions))

by_version : Text → Text → Option (List ℕ) → Option Part → Option Bool
unfolding judged requested_versions migration_intent
by_version stack t (some current) (some name) =
    judged current (migration_intent t) (requested_versions name stack t)
by_version stack t _ _ = none

-- `_stack_query_requests_legacy`
unfoldable pub requests_legacy : Text → Text → Bool
unfolding by_version normalized_query migration_intent names_legacy legacy_only_stacks
requests_legacy query stack =
    let t = normalized_query query in
    if contains legacy_only_stacks stack
    then true
    else elim (by_version stack t (get stack_current_versions stack)
        (get stack_query_names stack)) [
          | some answer ↦ answer
          | none ↦ if migration_intent t then false else names_legacy t
        ]

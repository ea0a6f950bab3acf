-- ===== src/Catalog/Stack/Filter.antt =====
-- `_stack_row_filter`, `_exact_stack_identifier` and `_legacy_successor_guidance`: the rows of a stack
-- that a query may have, and the one that it names.
-- The generation of the rows.
use package.true.Catalog.Domain.{Row}
use package.true.Catalog.Stack.Legacy.{
  legacy_only_stacks, normalized_query, requests_legacy, stack_current_versions,
}
use package.true.Dict.{get_or, has_key}
use package.true.Prelude.{
  Bool, List, Option, String, [], any, drop, eqb, false, if◌then◌else◌, is_empty, length, ltb, map,
  none, not, select, some, take, true, ◌&&◌, ◌||◌, ◌∷◌,
}
use package.true.Text.{Text, contains, is_space, is_word, lit, lower, ◌==◌}
use package.true.Text.Cut.{has, join, lstrip, split_on, starts_with, strip}
use package.true.Text.Phrase.{has_phrase}

pub data Generation : Type 0 where
  legacy_only legacy_unavailable current_only non_legacy : Generation

unfoldable pub has_status : String → List Row → Bool
has_status status rows =
    any (λ row. get_or row (lit "Status") (lit "unverified") == lit status) rows

-- which rows, and the name of the variant, before the base of a component library
unfoldable pub generation_of : List Row → Text → Text → Generation
generation_of rows query stack =
    let legacy = requests_legacy query stack in
    if has_status "deprecated" rows && legacy
    then legacy_only
    else if legacy && has_key stack_current_versions stack
    then legacy_unavailable
    else if has_status "active" rows
    then current_only
    else non_legacy

-- status_filter; row.get("Status") of a row without that column is no text of the source
unfoldable pub status_filter : Generation → Row → Bool
status_filter legacy_only row = get_or row (lit "Status") [] == lit "deprecated"
status_filter legacy_unavailable row = false
status_filter current_only row = get_or row (lit "Status") [] == lit "active"
status_filter non_legacy row =
    not (get_or row (lit "Status") (lit "unverified") == lit "deprecated")

-- the base that a query for shadcn names
requested_base : Text → Option Text
unfolding has
requested_base t =
    if has (lit "base ui") t
    then some (lit "base")
    else if has (lit "react aria") t
    then some (lit "aria")
    else if has (lit "radix") t || has (lit "aschild") t
    then some (lit "radix")
    else none

-- [^;]*
until_semicolon : Text → Text
until_semicolon [] = []
until_semicolon (c ∷ t) = elim (eqb c b';') [ true ↦ [] | false ↦ c ∷ until_semicolon t ]

-- the group of \bbase=([^;]+); the flag says that a word character stands before the text
base_group : Bool → Text → Text
unfolding starts_with until_semicolon
base_group inside [] = []
base_group inside (c ∷ t) =
    elim (not inside
      && starts_with (lit "base=") (c ∷ t)
      && not (is_empty (until_semicolon (drop 5 (c ∷ t))))) [
        | true ↦ until_semicolon (drop 5 (c ∷ t))
        | false ↦ base_group (is_word c) t
      ]

bases_of : Text → List Text
unfolding split_on
bases_of [] = []
bases_of (c ∷ t) = split_on b'|' (c ∷ t)

has_base : Text → Row → Bool
unfolding bases_of base_group lower
has_base base row =
    contains (bases_of (base_group false (lower (get_or row (lit "Applies To") [])))) base

unfoldable pub base_for : Text → Text → Option Text
unfolding requested_base normalized_query
base_for query stack =
    if stack == lit "shadcn" then requested_base (normalized_query query) else none

-- No row is kept where the generation is not available, whatever the base is.
unfoldable pub kept_in : Generation → Option Text → Row → Bool
unfolding has_base
kept_in generation none row = status_filter generation row
kept_in generation (some base) row = status_filter generation row && has_base base row

-- `_stack_row_filter`, the filter
unfoldable pub stack_row_filter : List Row → Text → Text → Row → Bool
stack_row_filter rows query stack = kept_in (generation_of rows query stack) (base_for query stack)

unfoldable pub the_only : List Row → Option Row
the_only [] = none
the_only (row ∷ []) = some row
the_only (row ∷ other ∷ rows) = none

-- the expression for an identifier, in any case of the letters, in a field of the row
unfoldable pub mentions : Text → Row → Bool
unfolding has_phrase lower
mentions identifier row =
    any (λ field. has_phrase (lower identifier) (lower (get_or row field [])))
      (map lit ("Guideline" ∷ "Description" ∷ "Do" ∷ "Don't" ∷ "Code Good" ∷ "Code Bad" ∷ []))

-- `_exact_stack_identifier`
unfoldable pub exact_stack_identifier : List Row → Text → (Row → Bool) → Option Row
unfolding the_only mentions strip
exact_stack_identifier rows query row_filter =
    let identifier = strip query in
    if ltb (length identifier) 6 || any is_space identifier
    then none
    else the_only (select (λ row. row_filter row && mentions identifier row) rows)

-- the word at the front of a text
leading_word : Text → Text
unfolding is_word
leading_word [] = []
leading_word (c ∷ t) = elim (is_word c) [ true ↦ c ∷ leading_word t | false ↦ [] ]

-- new\s+(?:app|application|project)\b at the front of a text
unfoldable pub new_app_here : Text → Bool
unfolding starts_with leading_word lstrip
new_app_here t =
    starts_with (lit "new") t
    && any is_space (take 1 (drop 3 t))
    && contains (map lit ("app" ∷ "application" ∷ "project" ∷ []))
        (leading_word (lstrip is_space (drop 3 t)))

-- A place of a text that a word begins at; the flag says that a word character stands before it.
unfoldable pub at_word : (Text → Bool) → Bool → Text → Bool
unfolding is_word
at_word p inside [] = false
at_word p inside (c ∷ t) = (not inside && is_word c && p (c ∷ t)) || at_word p (is_word c) t

-- new (?:apps?|projects?)\b at the front of a text
new_apps_here : Text → Bool
unfolding starts_with leading_word
new_apps_here t =
    starts_with (lit "new ") t
    && contains (map lit ("app" ∷ "apps" ∷ "project" ∷ "projects" ∷ [])) (leading_word (drop 4 t))

-- the rest of the line: `.` matches no line feed
rest_of_line : Text → Text
rest_of_line [] = []
rest_of_line (c ∷ t) = elim (eqb c 10) [ true ↦ [] | false ↦ c ∷ rest_of_line t ]

-- \b(?:prefer|choose|use)\b.*\bnew (?:apps?|projects?)\b at the front of a text
unfoldable pub prefers_here : Text → Bool
unfolding leading_word at_word new_apps_here rest_of_line
prefers_here t =
    let verb = leading_word t in
    contains (map lit ("prefer" ∷ "choose" ∷ "use" ∷ [])) verb
    && at_word new_apps_here true (rest_of_line (drop (length verb) t))

unfoldable pub guidance_text : Row → Text
unfolding lower join
guidance_text row = lower (
    join (lit " ")
      (map (λ column. get_or row column []) (map lit ("Guideline" ∷ "Description" ∷ "Do" ∷ []))))

-- `_legacy_successor_guidance`
unfoldable pub legacy_successor_guidance : List Row → Text → Text → (Row → Bool) → Option Row
unfolding the_only new_app_here at_word prefers_here guidance_text normalized_query
    legacy_only_stacks
legacy_successor_guidance rows query stack row_filter =
    if not (contains legacy_only_stacks stack)
      || not (at_word new_app_here false (normalized_query query))
    then none
    else the_only
        (select (λ row. row_filter row && at_word prefers_here false (guidance_text row)) rows)

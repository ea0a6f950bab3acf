-- ===== src/DesignSystem/Mode.antt =====
-- `_resolve_color_mode` and what has to agree with it: the palette and the anti-patterns.
pub mod Palette
pub mod AntiPatterns
use package.true.Catalog.Domain.{Row}
use package.true.DesignSystem.Colors.{derive_dark_palette, palette_is_dark}
use package.true.Dict.{get_or}
use package.true.Floats.{Floats}
use package.true.Prelude.{
  Bool, List, Option, [], any, false, if◌then◌else◌, is_empty, map, none, not, select, some, true,
  ◌&&◌, ◌++◌, ◌||◌, ◌∷◌,
}
use package.true.Text.{Text, lit, lower, ◌==◌}
use package.true.Text.Cut.{has, join, split_on, strip}

-- _DARK_PRIMARY_MARKERS, _DARK_QUERY_MARKERS, _DARK_ANTI_PATTERN_MARKERS
unfoldable pub dark_primary_markers : List Text
dark_primary_markers = map lit (
    "dark mode primary" ∷ "dark primary" ∷ "dark-only" ∷ "dark only" ∷ "dark preferred"
    ∷ "dark focused" ∷ "dark-first" ∷ "dark rich" ∷ "light mode only as exception" ∷ [])

unfoldable pub dark_query_markers : List Text
dark_query_markers = map lit (
    "dark mode" ∷ "dark theme" ∷ "dark ui" ∷ "dark-mode" ∷ "darkmode" ∷ "night mode" ∷ "midnight"
    ∷ "oled" ∷ [])

unfoldable pub dark_anti_pattern_markers : List Text
dark_anti_pattern_markers = map lit ("dark mode" ∷ "dark modes" ∷ "dark theme" ∷ [])

-- any(marker in text for marker in markers)
unfoldable pub has_marker : List Text → Text → Bool
has_marker markers t = any (λ marker. has marker t) markers

abbrev light_column : Text
light_column = lit "Light Mode ✓"

abbrev dark_column : Text
dark_column = lit "Dark Mode ✓"

declared_dark : Row → Bool
unfolding dark_primary_markers has_marker lower
declared_dark style =
    if get_or style light_column [] == lit "not-recommended"
      && get_or style dark_column [] == lit "supported"
    then true
    else has_marker dark_primary_markers
        (lower (get_or style light_column [] ++ (lit " " ++ get_or style dark_column [])))

-- `_style_is_dark_primary`
unfoldable pub style_is_dark_primary : Row → Bool
unfolding declared_dark strip lower
style_is_dark_primary [] = false
style_is_dark_primary (cell ∷ cells) =
    let style : Row = cell ∷ cells in
    let preferred = lower (strip (get_or style (lit "Preferred Mode") [])) in
    if preferred == lit "dark"
    then true
    else if preferred == lit "light"
    then false
    else declared_dark style

-- `_query_wants_dark`
unfoldable pub query_wants_dark : Text → Bool
unfolding has_marker dark_query_markers lower
query_wants_dark query = has_marker dark_query_markers (lower query)

-- `_resolve_color_mode`
unfoldable pub resolve_color_mode : Text → Row → Text
unfolding query_wants_dark style_is_dark_primary
resolve_color_mode query style =
    if query_wants_dark query || style_is_dark_primary style then lit "dark" else lit "light"

-- the first palette with the property
unfoldable pub first_row : (Row → Bool) → List Row → Option Row
first_row p [] = none
first_row p (row ∷ rows) = let rest = first_row p rows in if p row then some row else rest

unfoldable pub is_of_category : Text → Row → Bool
is_of_category category palette = get_or palette (lit "Product Type") [] == category

module _ (fl : Floats) where
  unfoldable pub adapted : Text → Row → Row
  adapted mode palette =
      if mode == lit "dark" && not (palette_is_dark fl palette)
      then derive_dark_palette fl palette
      else palette

  unfoldable pub dark_or_first : Text → Row → List Row → Row
  unfolding first_row
  dark_or_first mode palette palettes =
      if mode == lit "dark"
      then elim (first_row (palette_is_dark fl) (palette ∷ palettes)) [
        | none ↦ palette
        | some dark ↦ dark
      ]
      else palette

  -- `_select_palette_for_mode`, which `generate` calls with a category. Every row of colors.csv has
  -- its columns, so that `palette.get("Product Type")` is a text.
  unfoldable pub select_palette_for_mode : List Row → Text → Text → Row
  unfolding first_row adapted dark_or_first is_of_category
  select_palette_for_mode [] mode category = []
  select_palette_for_mode (palette ∷ palettes) mode category =
      elim (first_row (is_of_category category) (palette ∷ palettes)) [
        | some own ↦ adapted mode own
        | none ↦ dark_or_first mode palette palettes
      ]

-- [clause for clause in ... if not any(marker in clause.lower() for marker in ...)]
unfoldable pub keeps_clause : Text → Bool
unfolding has_marker dark_anti_pattern_markers lower
keeps_clause clause = not (has_marker dark_anti_pattern_markers (lower clause))

-- [clause.strip() for clause in clauses if clause.strip()]
unfoldable pub stripped_clauses : List Text → List Text
unfolding strip
stripped_clauses [] = []
stripped_clauses (clause ∷ clauses) =
    let rest = stripped_clauses clauses in
    if is_empty (strip clause) then rest else strip clause ∷ rest

-- `_filter_anti_patterns_for_mode`
unfoldable pub filter_anti_patterns_for_mode : Text → Text → Text
unfolding keeps_clause stripped_clauses split_on join
filter_anti_patterns_for_mode anti_patterns mode =
    if not (mode == lit "dark") || is_empty anti_patterns
    then anti_patterns
    else join (lit " + ") (stripped_clauses (select keeps_clause (split_on b'+' anti_patterns)))

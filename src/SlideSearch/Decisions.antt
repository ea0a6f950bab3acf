-- ===== src/SlideSearch/Decisions.antt =====
-- The decision tables of slide_search_core.py, each a file with a key column.
use package.true.Catalog.Domain.{Row}
use package.true.Dict.{Dict, get, get-put, get_or, put}
use package.true.Prelude.{
  Bool, List, Option, Option-cases, [], ap, if◌then◌else◌, inl, inr, is_empty, none, refl, some,
  ◌∙◌, ◌∷◌, ◌≡◌,
}
use package.true.Text.{Text, lit, ◌==◌}

-- DECISION_CSV_CONFIG: the file and the key column
unfoldable pub decision_config : Dict (Text × Text)
decision_config =
    (lit "layout-logic", (lit "slide-layout-logic.csv", lit "goal"))
    ∷ (lit "typography", (lit "slide-typography.csv", lit "content_type"))
    ∷ (lit "color-logic", (lit "slide-color-logic.csv", lit "emotion"))
    ∷ (lit "backgrounds", (lit "slide-backgrounds.csv", lit "slide_type"))
    ∷ []

-- {row[key_col]: row for row in data if key_col in row}
unfoldable pub keyed_rows : Text → Dict Row → List Row → Dict Row
keyed_rows key_col table [] = table
keyed_rows key_col table (row ∷ rows) =
    keyed_rows key_col (elim (get row key_col) [ none ↦ table | some key ↦ put table key row ]) rows

keyed_file : Text → Option (List Row) → Dict Row
keyed_file key_col none = []
keyed_file key_col (some rows) = keyed_rows key_col [] rows

-- A layout row, with the emotion of "_contrast_with" where "_pattern_break" is set.
pub record Layout : Type 0 where
  pub row : Row
  pub contrast_with : Option Text

unfoldable pub type_map : Dict Text
type_map =
    (lit "hero", lit "hero-statement")
    ∷ (lit "hook", lit "hero-statement")
    ∷ (lit "title", lit "title-only")
    ∷ (lit "problem", lit "subtitle-heavy")
    ∷ (lit "agitation", lit "metric-callout")
    ∷ (lit "solution", lit "subtitle-heavy")
    ∷ (lit "features", lit "feature-grid")
    ∷ (lit "proof", lit "metric-callout")
    ∷ (lit "traction", lit "data-insight")
    ∷ (lit "social", lit "quote-block")
    ∷ (lit "testimonial", lit "testimonial")
    ∷ (lit "pricing", lit "pricing")
    ∷ (lit "team", lit "team")
    ∷ (lit "cta", lit "cta-action")
    ∷ (lit "comparison", lit "comparison")
    ∷ (lit "timeline", lit "timeline")
    ∷ []

-- None and the empty text are no emotion
pub some_emotion : Option Text → Option Text
some_emotion none = none
some_emotion (some emotion) = if is_empty emotion then none else some emotion

module _ (files : Text → Option (List Row)) where
  -- `_load_decision_csv`
  unfoldable pub load_decision_csv : Text → Dict Row
  unfolding keyed_file
  load_decision_csv csv_type = elim (get decision_config csv_type) [
    | none ↦ []
    | some (file, key_col) ↦ keyed_file key_col (files file)
  ]

  -- `get_layout_for_goal`
  unfoldable pub get_layout_for_goal : Text → Option Text → Layout
  get_layout_for_goal goal previous_emotion =
      let layouts = load_decision_csv (lit "layout-logic") in
      let row = get_or layouts goal (get_or layouts (lit "features") []) in
      record {
        row = row;
        contrast_with =
            if get_or row (lit "break_pattern") [] == lit "true"
            then some_emotion previous_emotion
            else none;
      }

  -- `get_typography_for_slide`
  unfoldable pub get_typography_for_slide : Text → Bool → Bool → Row
  get_typography_for_slide slide_type has_metrics has_quote =
      let typography = load_decision_csv (lit "typography") in
      if has_metrics
      then get_or typography (lit "metric-callout") []
      else if has_quote
      then get_or typography (lit "quote-block") []
      else get_or typography (get_or type_map slide_type (lit "feature-grid")) []

  -- `get_color_for_emotion`
  unfoldable pub get_color_for_emotion : Text → Row
  get_color_for_emotion emotion =
      let colors = load_decision_csv (lit "color-logic") in
      get_or colors emotion (get_or colors (lit "clarity") [])

  -- `get_background_config`
  unfoldable pub get_background_config : Text → Row
  get_background_config slide_type = get_or (load_decision_csv (lit "backgrounds")) slide_type []

-- the last row that has the key
abbrev pub last_with : Text → Text → Option Row → List Row → Option Row
last_with key_col key found [] = found
last_with key_col key found (row ∷ rows) =
    last_with key_col key
      (elim (get row key_col) [ none ↦ found | some k ↦ if key == k then some row else found ]) rows

keyed_rows-last :
    (key_col key : Text) (table : Dict Row) (rows : List Row)
    → get (keyed_rows key_col table rows) key ≡ last_with key_col key (get table key) rows
unfolding keyed_rows
keyed_rows-last key_col key table [] = refl
keyed_rows-last key_col key table (row ∷ rows) = elim (Option-cases (get row key_col)) [
  | inl e ↦ rw (e, keyed_rows) (keyed_rows-last key_col key table rows)
  | inr (k, e) ↦
      rw (e, keyed_rows)
        (keyed_rows-last key_col key (put table k row) rows
          ∙ ap (λ found. last_with key_col key found rows) (get-put table k key row))
]

-- A decision table that is read from a file gives for each key the last row of the file with that
-- key in the key column, and nothing for a key that no row has.
pub load_decision_csv-last :
    (files : Text → Option (List Row)) (csv_type file key_col key : Text) (rows : List Row)
    → get decision_config csv_type ≡ some (file, key_col)
    → files file ≡ some rows
    → get (load_decision_csv files csv_type) key ≡ last_with key_col key none rows
unfolding load_decision_csv keyed_file get
load_decision_csv-last files csv_type file key_col key rows e f =
    rw (e, load_decision_csv) (rw f (keyed_rows-last key_col key [] rows))

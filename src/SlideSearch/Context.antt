-- ===== src/SlideSearch/Context.antt =====
-- `search_with_context`.
use package.true.Catalog.Domain.{Row}
use package.true.Dict.{Dict, get, get_or}
use package.true.Floats.{Floats}
use package.true.Prelude.{
  Bool, List, Option, String, [], false, if◌then◌else◌, none, pos, some, ℕ, ◌||◌, ◌∷◌,
}
use package.true.SlideSearch.Decisions.{
  get_background_config, get_color_for_emotion, get_layout_for_goal, get_typography_for_slide,
}
use package.true.SlideSearch.Deck.{calculate_pattern_break, should_use_full_bleed}
use package.true.SlideSearch.Search.{SlideResults, slide_domain, slide_search_all}
use package.true.Text.{Text, lit, lower, ◌==◌}
use package.true.Text.Cut.{has}

-- The keys of `context`; an Option is a key that may be absent.
pub record SlideContext : Type 0 where
  pub slide_position : ℕ
  pub total_slides : ℕ
  pub previous_emotion : Option Text
  pub inferred_goal : Text
  -- the layout pattern, the direction and the visual weight
  pub recommended_layout : Option (Option Text × (Option Text × Option Text))
  pub use_background_image : Bool
  -- the primary size, the secondary size and the weight contrast
  pub typography : Option (Option Text × (Option Text × Option Text))
  -- the background, the text color, the accent usage and the card style
  pub color_treatment : Option (Option Text × (Option Text × (Option Text × Option Text)))
  pub should_break_pattern : Bool
  pub full_bleed : Bool
  -- the image category, the overlay style and the search keywords
  pub background : Option (Option Text × (Option Text × Option Text))
  pub animation_class : Text

unfoldable pub animation_map : Dict Text
animation_map =
    (lit "hook", lit "animate-fade-up")
    ∷ (lit "problem", lit "animate-fade-up")
    ∷ (lit "agitation", lit "animate-count animate-stagger")
    ∷ (lit "solution", lit "animate-scale")
    ∷ (lit "features", lit "animate-stagger")
    ∷ (lit "traction", lit "animate-chart animate-count")
    ∷ (lit "proof", lit "animate-stagger-scale")
    ∷ (lit "social", lit "animate-fade-up")
    ∷ (lit "cta", lit "animate-pulse")
    ∷ []

-- the chain of tests that follows `detect_domain`
unfoldable pub inferred_goal_of : Text → Text
inferred_goal_of query =
    let q = lower query in
    if has (lit "problem") q
    then lit "problem"
    else if has (lit "solution") q
    then lit "solution"
    else if has (lit "cta") q || has (lit "call to action") q
    then lit "cta"
    else if has (lit "hook") q || has (lit "title") q
    then lit "hook"
    else if has (lit "traction") q || has (lit "metric") q
    then lit "traction"
    else slide_domain q

three_columns : Row → String → String → String → Option (Option Text × (Option Text × Option Text))
three_columns [] a b c = none
three_columns (cell ∷ cells) a b c =
    let row = cell ∷ cells in some (get row (lit a), (get row (lit b), get row (lit c)))

color_columns : Row → Option (Option Text × (Option Text × (Option Text × Option Text)))
color_columns [] = none
color_columns (cell ∷ cells) =
    let row = cell ∷ cells in
    some (
      get row (lit "background"),
      (get row (lit "text_color"), (get row (lit "accent_usage"), get row (lit "card_style"))),
    )

unfoldable pub context_of : (Text → Option (List Row)) → Text → ℕ → ℕ → Option Text → SlideContext
unfolding three_columns color_columns
context_of files query slide_position total_slides previous_emotion =
    let goal = inferred_goal_of query in
    let layout = (get_layout_for_goal files goal previous_emotion).row in
    let emotion = get_or layout (lit "emotion") (lit "clarity") in
    let use_image = get_or layout (lit "use_bg_image") [] == lit "true" in
    record {
      slide_position = slide_position;
      total_slides = total_slides;
      previous_emotion = previous_emotion;
      inferred_goal = goal;
      recommended_layout = three_columns layout "layout_pattern" "direction" "visual_weight";
      use_background_image = use_image;
      typography =
          three_columns (get_typography_for_slide files goal false false) "primary_size"
            "secondary_size" "weight_contrast";
      color_treatment = color_columns (get_color_for_emotion files emotion);
      should_break_pattern = calculate_pattern_break slide_position total_slides previous_emotion;
      full_bleed = should_use_full_bleed slide_position total_slides emotion;
      background =
          if use_image
          then three_columns (get_background_config files goal) "image_category" "overlay_style"
              "search_keywords"
          else none;
      animation_class = get_or animation_map goal (lit "animate-fade-up");
    }

-- `search_with_context`: the context and the results of all domains
unfoldable pub search_with_context :
    (fl : Floats)
    → (Text → Option (List Row))
    → Text
    → ℕ
    → ℕ
    → Option Text
    → SlideContext × List (SlideResults fl)
search_with_context fl files query slide_position total_slides previous_emotion = (
  context_of files query slide_position total_slides previous_emotion,
  slide_search_all fl files query (pos 2),
)

-- ===== src/SlideSearch/Deck.antt =====
-- Where a deck breaks its pattern: `should_use_full_bleed` and `calculate_pattern_break`.
use package.true.Prelude.{
  Bool, List, Option, [], arith, eqb, false, if◌then◌else◌, ltb, none, not, some, true, ℕ, ◌*◌, ◌+◌,
  ◌-◌, ◌/◌, ◌||◌, ◌∷◌, ◌≡◌, ◌≤◌,
}
use package.true.Text.{Text, contains, lit}

abbrev high_emotion_beats : List Text
high_emotion_beats = lit "hope" ∷ lit "urgency" ∷ lit "fear" ∷ lit "curiosity" ∷ []

-- slide_index in strategic_positions
unfoldable pub at_position : ℕ → List ℕ → Bool
at_position i [] = false
at_position i (p ∷ ps) = eqb i p || at_position i ps

unfoldable pub should_use_full_bleed : ℕ → ℕ → Text → Bool
unfolding at_position
should_use_full_bleed slide_index total_slides emotion =
    let third = total_slides / 3 in
    if not (contains high_emotion_beats emotion)
    then false
    else if ltb total_slides 3
    then false
    else at_position slide_index (1 ∷ third ∷ third * 2 ∷ (total_slides - 1) ∷ [])

-- the keys of contrasting_emotions
abbrev contrasting_emotions : List Text
contrasting_emotions = lit "frustration" ∷ lit "hope" ∷ lit "fear" ∷ []

contrasts : Option Text → Bool
contrasts none = false
contrasts (some emotion) = contains contrasting_emotions emotion

unfoldable pub calculate_pattern_break : ℕ → ℕ → Option Text → Bool
unfolding at_position contrasts
calculate_pattern_break slide_index total_slides previous_emotion =
    let third = total_slides / 3 in
    if ltb total_slides 5
    then false
    else if at_position slide_index (third ∷ third * 2 ∷ [])
    then true
    else contrasts previous_emotion

-- In a deck of nine slides or more, no two consecutive slides use a full bleed, whatever their
-- emotions.
pub full_bleed-apart :
    (slide_index total_slides : ℕ) (emotion next_emotion : Text)
    → 9 ≤ total_slides
    → should_use_full_bleed slide_index total_slides emotion ≡ true
    → should_use_full_bleed (slide_index + 1) total_slides next_emotion ≡ false
unfolding should_use_full_bleed at_position
full_bleed-apart i n e e' le h = ground arith

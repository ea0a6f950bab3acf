-- ===== src/Validation/Colors.antt =====
-- `_relative_luminance`, `contrast_ratio` and `_check_color_contract`. A message is a value that holds
-- what it quotes.
pub mod Agrees
pub mod Sound
mod Tests
use package.true.Catalog.Domain.{Row}
use package.true.DesignSystem.Colors.{Signed, hex_pair, hex_value, minus_of, plus_of}
use package.true.Dict.{Dict, get, get_or}
use package.true.Floats.{Floats}
use package.true.Prelude.{
  Bool, List, Option, String, [], drop, eqb, false, if◌then◌else◌, inl, inr, leb, none, some, take,
  ℕ, ◌&&◌, ◌++◌, ◌||◌, ◌∷◌, ◌⊎◌,
}
use package.true.Regex.{plus}
use package.true.Text.{Text, is_digit, lit}
use package.true.Text.Cut.{lstrip}
use package.true.Validation.Problems.{flag}

-- [0-9A-Fa-f]
unfoldable pub is_hex_digit : ℕ → Bool
unfolding is_digit
is_hex_digit c = is_digit c || (leb b'A' c && leb c b'F') || (leb b'a' c && leb c b'f')

-- HEX_COLOR.fullmatch
unfoldable pub is_hex_color : Text → Bool
unfolding is_hex_digit
is_hex_color (h ∷ a ∷ b ∷ c ∷ d ∷ e ∷ f ∷ []) =
    eqb h b'#'
    && (is_hex_digit a && is_hex_digit b)
    && (is_hex_digit c && is_hex_digit d)
    && (is_hex_digit e && is_hex_digit f)
is_hex_color _ = false

-- int(text, 16) of a slice of at most two characters
unfoldable pub hex_slice : Text → Option Signed
unfolding hex_value hex_pair
hex_slice (c ∷ []) = elim (hex_value c) [ none ↦ none | some n ↦ some (plus_of n) ]
hex_slice (c ∷ d ∷ []) = hex_pair c d
hex_slice _ = none

-- A foreground, its background, the role of the text and the least contrast.
pub record Pair {ℓ} (F : Type ℓ) : Type ℓ where
  pub foreground : Text
  pub background : Text
  pub role : Text
  pub minimum : F

pub data ColorFinding {ℓ} (F : Type ℓ) : Type ℓ where
  invalid_hex : Text → Text → ColorFinding F
  low_contrast : Text → Pair F → F → ColorFinding F
  muted_exceeds success_green : Text → ColorFinding F

module _ (fl : Floats) where
  open fl use {Float, whole, ratio, plus, times, minus, over, power, less, at_most}

  pair_of : String → String → String → Float → Pair Float
  pair_of foreground background role minimum = record {
    foreground = lit foreground;
    background = lit background;
    role = lit role;
    minimum = minimum;
  }

  -- COLOR_CONTRAST_PAIRS
  unfoldable pub color_contrast_pairs : List (Pair Float)
  unfolding pair_of
  color_contrast_pairs =
      pair_of "On Primary" "Primary" "normal-text" (ratio 9 2)
      ∷ pair_of "On Secondary" "Secondary" "normal-text" (ratio 9 2)
      ∷ pair_of "On Accent" "Accent" "normal-text" (ratio 9 2)
      ∷ pair_of "Foreground" "Background" "normal-text" (ratio 9 2)
      ∷ pair_of "Card Foreground" "Card" "normal-text" (ratio 9 2)
      ∷ pair_of "Muted Foreground" "Muted" "normal-text" (ratio 9 2)
      ∷ pair_of "On Destructive" "Destructive" "normal-text" (ratio 9 2)
      ∷ pair_of "Ring" "Background" "non-text-focus-indicator" (whole 3)
      ∷ []

  unfoldable pub float_of_signed : Signed → Float
  float_of_signed (plus_of n) = whole n
  float_of_signed (minus_of n) = minus (whole 0) (whole n)

  unfoldable pub linear_channel : Float → Float
  linear_channel c =
      if at_most c (ratio 809 20000)
      then over c (ratio 323 25)
      else power (over (plus c (ratio 11 200)) (ratio 211 200)) (ratio 12 5)

  -- int(value[index:index + 2], 16) / 255, for two digits of a hex colour, which have a value
  unfoldable pub digits_channel : ℕ → ℕ → Float
  unfolding float_of_signed hex_pair
  digits_channel c d = elim (hex_pair c d) [
    | none ↦ whole 0
    | some n ↦ over (float_of_signed n) (whole 255)
  ]

  unfoldable pub luminance_of_digits : Text → Float
  unfolding linear_channel digits_channel
  luminance_of_digits (h ∷ a ∷ b ∷ c ∷ d ∷ e ∷ f ∷ []) =
      plus
        (plus (times (ratio 1063 5000) (linear_channel (digits_channel a b)))
          (times (ratio 447 625) (linear_channel (digits_channel c d))))
        (times (ratio 361 5000) (linear_channel (digits_channel e f)))
  luminance_of_digits _ = whole 0

  -- `_relative_luminance`, or the value that its ValueError names
  unfoldable pub checked_luminance : Text → Text ⊎ Float
  unfolding is_hex_color luminance_of_digits
  checked_luminance value =
      if is_hex_color value then inr (luminance_of_digits value) else inl value

  unfoldable pub ratio_of : Float → Float → Float
  ratio_of a b =
      over (plus (if less a b then b else a) (ratio 1 20))
        (plus (if less b a then b else a) (ratio 1 20))

  -- `contrast_ratio`
  unfoldable pub checked_contrast : Text → Text → Text ⊎ Float
  unfolding checked_luminance ratio_of
  checked_contrast foreground background = elim (checked_luminance foreground) [
    | inl value ↦ inl value
    | inr a ↦ elim (checked_luminance background) [
      | inl value ↦ inl value
      | inr b ↦ inr (ratio_of a b)
    ]
  ]

  -- 1e-9
  abbrev pub tolerance : Float
  tolerance = ratio 1 1000000000

  unfoldable pub contrast_of_row : Row → Pair Float → Text ⊎ Float
  unfolding checked_contrast
  contrast_of_row row pair =
      checked_contrast (get_or row pair.foreground []) (get_or row pair.background [])

  -- one pair: the findings
  unfoldable pub pair_findings : Text → Row → Pair Float → List (ColorFinding Float)
  unfolding flag contrast_of_row
  pair_findings product row pair = elim (contrast_of_row row pair) [
    | inl value ↦ invalid_hex product value ∷ []
    | inr contrast ↦
        flag (less (plus contrast tolerance) pair.minimum) (low_contrast product pair contrast)
  ]

  unfoldable pub pairs_findings : Text → Row → List (Pair Float) → List (ColorFinding Float)
  unfolding pair_findings
  pairs_findings product row [] = []
  pairs_findings product row (pair ∷ pairs) =
      pair_findings product row pair ++ pairs_findings product row pairs

  -- the dict of the ratios
  unfoldable pub row_ratios : Row → List (Pair Float) → Dict Float
  unfolding contrast_of_row
  row_ratios row [] = []
  row_ratios row (pair ∷ pairs) =
      let rest = row_ratios row pairs in
      elim (contrast_of_row row pair) [
        | inl value ↦ rest
        | inr contrast ↦ (pair.foreground, contrast) ∷ rest
      ]

  unfoldable pub exceeds : Option Float → Option Float → Bool
  exceeds (some muted) (some primary) = less (plus primary tolerance) muted
  exceeds _ _ = false

  is_green : Option Signed → Option Signed → Option Signed → Bool
  unfolding float_of_signed
  is_green (some red) (some green) (some blue) =
      less (times (float_of_signed red) (ratio 11 10)) (float_of_signed green)
      && less (times (float_of_signed blue) (ratio 11 10)) (float_of_signed green)
  is_green _ _ _ = false

  unfoldable pub is_success_green : Text → Bool
  unfolding lstrip hex_slice is_green
  is_success_green value =
      let digits = lstrip (eqb b'#') value in
      is_green (hex_slice (take 2 digits)) (hex_slice (take 2 (drop 2 digits)))
        (hex_slice (take 2 (drop 4 digits)))

  unfoldable pub color_findings : Row → List (ColorFinding Float)
  unfolding flag pairs_findings row_ratios exceeds is_success_green color_contrast_pairs
  color_findings row =
      let product = get_or row (lit "Product Type") [] in
      let ratios = row_ratios row color_contrast_pairs in
      pairs_findings product row color_contrast_pairs
      ++ (flag (exceeds (get ratios (lit "Muted Foreground")) (get ratios (lit "Foreground")))
            (muted_exceeds product)
          ++ flag (is_success_green (get_or row (lit "Destructive") [])) (success_green product))

  -- `_check_color_contract`
  unfoldable pub check_color_contract : List Row → List (ColorFinding Float)
  unfolding color_findings
  check_color_contract [] = []
  check_color_contract (row ∷ rows) = color_findings row ++ check_color_contract rows

-- ===== src/DesignSystem/Colors.antt =====
-- The colours of a palette: `_relative_luminance`, `_contrast_ratio`, `_palette_is_dark` and
-- `_derive_dark_palette`. Channels and luminances are floats.
pub mod Derived
use package.true.Dict.{get, get_or, has_key, update}
use package.true.Floats.{Floats}
use package.true.Prelude.{
  Bool, List, Option, [], eqb, false, if◌then◌else◌, leb, none, some, true, ℕ, ◌&&◌, ◌*◌, ◌+◌, ◌-◌,
  ◌||◌, ◌∷◌, ◌≡◌,
}
use package.true.Regex.{plus}
use package.true.Text.{Text, is_digit, is_space, lit}
use package.true.Text.Cut.{lstrip, strip}
-- the digit of a character to the base 16
use package.true.Catalog.Domain.{Row}
use package.true.Dict.{get, get_or, has_key, update}
use package.true.Floats.{Floats}
use package.true.Prelude.{
  Bool, List, Option, [], eqb, false, if◌then◌else◌, leb, none, some, true, ℕ, ◌&&◌, ◌*◌, ◌+◌, ◌-◌,
  ◌||◌, ◌∷◌, ◌≡◌,
}
use package.true.Text.{Text, is_digit, is_space, lit}
use package.true.Text.Cut.{lstrip, strip}

unfoldable pub hex_value : ℕ → Option ℕ
unfolding is_digit
hex_value c =
    if is_digit c
    then some (c - b'0')
    else if leb b'a' c && leb c b'f'
    then some (c - b'a' + 10)
    else if leb b'A' c && leb c b'F'
    then some (c - b'A' + 10)
    else none

-- A whole number with its sign.
pub data Signed : Type 0 where
  plus_of : ℕ → Signed
  minus_of : ℕ → Signed

signed_digit : (ℕ → Signed) → ℕ → Option Signed
signed_digit sign d = elim (hex_value d) [ none ↦ none | some b ↦ some (sign b) ]

-- int(text, 16) of a text of two characters: a sign or white space may take the place of one digit
unfoldable pub hex_pair : ℕ → ℕ → Option Signed
unfolding signed_digit is_space hex_value
hex_pair c d = elim (hex_value c) [
  | some a ↦ elim (hex_value d) [
    | some b ↦ some (plus_of (16 * a + b))
    | none ↦ if is_space d then some (plus_of a) else none
  ]
  | none ↦
      if is_space c || eqb c b'+'
      then signed_digit plus_of d
      else if eqb c b'-'
      then signed_digit minus_of d
      else none
]

-- hex_color.strip().lstrip("#"), a short form written out
unfoldable pub hex_digits : Text → Text
unfolding strip lstrip
hex_digits color = elim (lstrip (eqb b'#') (strip color)) [
  | a ∷ b ∷ c ∷ [] ↦ a ∷ a ∷ b ∷ b ∷ c ∷ c ∷ []
  | other ↦ other
]

-- A column that is missing has no contrast, as an empty text has none.
unfoldable pub ring_candidates : Row → List Text
ring_candidates palette =
    get_or palette (lit "Ring") []
    ∷ get_or palette (lit "Accent") []
    ∷ get_or palette (lit "Primary") []
    ∷ lit "#60A5FA"
    ∷ []

-- what derived.update sets
unfoldable pub dark_surface : Text → List (Text × Text)
dark_surface ring =
    (lit "Background", lit "#0F172A")
    ∷ (lit "Foreground", lit "#F8FAFC")
    ∷ (lit "Card", lit "#111827")
    ∷ (lit "Card Foreground", lit "#F8FAFC")
    ∷ (lit "Muted", lit "#1E293B")
    ∷ (lit "Muted Foreground", lit "#CBD5E1")
    ∷ (lit "Border", lit "#334155")
    ∷ (lit "Ring", ring)
    ∷ (lit "_mode_derivation", lit "derived-dark")
    ∷ []

module _ (fl : Floats) where
  open fl use {Float, whole, ratio, plus, times, minus, over, power, less, at_most}

  -- int(...) / 255
  unfoldable pub channel_of : Signed → Float
  channel_of (plus_of n) = over (whole n) (whole 255)
  channel_of (minus_of n) = over (minus (whole 0) (whole n)) (whole 255)

  unfoldable pub channel : ℕ → ℕ → Option Float
  unfolding channel_of hex_pair
  channel c d = elim (hex_pair c d) [ none ↦ none | some n ↦ some (channel_of n) ]

  -- 0.04045, 12.92, 0.055, 1.055 and 2.4
  unfoldable pub linear : Float → Float
  linear c =
      if at_most c (ratio 809 20000)
      then over c (ratio 323 25)
      else power (over (plus c (ratio 11 200)) (ratio 211 200)) (ratio 12 5)

  -- 0.2126, 0.7152 and 0.0722
  unfoldable pub weighted : Float → Float → Float → Float
  weighted r g b =
      plus (plus (times (ratio 1063 5000) r) (times (ratio 447 625) g)) (times (ratio 361 5000) b)

  unfoldable pub luminance_of : Option Float → Option Float → Option Float → Option Float
  unfolding linear weighted
  luminance_of (some r) (some g) (some b) = some (weighted (linear r) (linear g) (linear b))
  luminance_of _ _ _ = none

  unfoldable pub channels : Text → Option Float
  unfolding channel luminance_of
  channels (a ∷ b ∷ c ∷ d ∷ e ∷ f ∷ []) = luminance_of (channel a b) (channel c d) (channel e f)
  channels _ = none

  -- `_relative_luminance`
  unfoldable pub relative_luminance : Text → Option Float
  unfolding channels hex_digits
  relative_luminance hex_color = channels (hex_digits hex_color)

  -- the darkest background luminance that is not dark: 0.18
  unfoldable pub is_dark_luminance : Option Float → Bool
  is_dark_luminance none = false
  is_dark_luminance (some luminance) = less luminance (ratio 9 50)

  -- `_palette_is_dark`
  unfoldable pub palette_is_dark : Row → Bool
  unfolding is_dark_luminance relative_luminance
  palette_is_dark palette =
      is_dark_luminance (relative_luminance (get_or palette (lit "Background") []))

  -- max(a, b) and min(a, b): the first where the order does not tell
  unfoldable pub larger : Float → Float → Float
  larger a b = if less a b then b else a

  unfoldable pub smaller : Float → Float → Float
  smaller a b = if less b a then b else a

  unfoldable pub contrast_of : Option Float → Option Float → Option Float
  unfolding larger smaller
  contrast_of (some a) (some b) =
      some (over (plus (larger a b) (ratio 1 20)) (plus (smaller a b) (ratio 1 20)))
  contrast_of _ _ = none

  -- `_contrast_ratio`
  unfoldable pub contrast_ratio : Text → Text → Option Float
  unfolding relative_luminance contrast_of
  contrast_ratio first second = contrast_of (relative_luminance first) (relative_luminance second)

  -- (_contrast_ratio(candidate, background) or 0) >= 3
  reaches_three : Option Float → Bool
  reaches_three none = false
  reaches_three (some contrast) = at_most (whole 3) contrast

  unfoldable pub stands_out : Text → Text → Bool
  unfolding reaches_three contrast_ratio
  stands_out background candidate = reaches_three (contrast_ratio candidate background)

  -- next(... for candidate in ring_candidates if ..., "#60A5FA")
  unfoldable pub first_ring : Text → List Text → Text
  unfolding stands_out
  first_ring background [] = lit "#60A5FA"
  first_ring background (candidate ∷ candidates) =
      let rest = first_ring background candidates in
      if stands_out background candidate then candidate else rest

  unfoldable pub ring_of : Row → Text
  unfolding first_ring
  ring_of palette = first_ring (lit "#0F172A") (ring_candidates palette)

  -- `_derive_dark_palette`
  unfoldable pub derive_dark_palette : Row → Row
  unfolding dark_surface ring_of
  derive_dark_palette palette = update palette (dark_surface (ring_of palette))

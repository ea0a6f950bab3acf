-- ===== src/Validation/Colors/Tests.antt =====
-- A palette that the contract accepts, with contrasts computed in thousandths.
use package.true.Catalog.Domain.{Row}
use package.true.Dict.{get_or, put}
use package.true.Floats.{Floats}
use package.true.Prelude.{All, [], false, leb, ltb, refl, ℕ, ◌*◌, ◌+◌, ◌-◌, ◌/◌, ◌∷◌, ◌≡◌}
use package.true.Text.{Text-discrete, lit}
use package.true.Validation.Colors.{
  check_color_contract, color_contrast_pairs, is_hex_color, low_contrast,
}
use package.true.Validation.Colors.Sound.{IsReadable, check_color_contract-IsReadable}

abbrev palette : Row
palette =
    (lit "Primary", lit "#0F172A")
    ∷ (lit "On Primary", lit "#F8FAFC")
    ∷ (lit "Secondary", lit "#0F172A")
    ∷ (lit "On Secondary", lit "#F8FAFC")
    ∷ (lit "Accent", lit "#0F172A")
    ∷ (lit "On Accent", lit "#F8FAFC")
    ∷ (lit "Background", lit "#0F172A")
    ∷ (lit "Foreground", lit "#F8FAFC")
    ∷ (lit "Card", lit "#0F172A")
    ∷ (lit "Card Foreground", lit "#F8FAFC")
    ∷ (lit "Muted", lit "#0F172A")
    ∷ (lit "Muted Foreground", lit "#F8FAFC")
    ∷ (lit "Destructive", lit "#7F1D1D")
    ∷ (lit "On Destructive", lit "#F8FAFC")
    ∷ (lit "Ring", lit "#F8FAFC")
    ∷ []

-- numbers in thousandths, with the square for every power
abbrev fixed_floats : Floats
fixed_floats = record {
  Float = ℕ;
  whole = λ n. 1000 * n;
  ratio = λ a b. 1000 * a / b;
  plus = λ a b. a + b;
  times = λ a b. a * b / 1000;
  minus = λ a b. a - b;
  over = λ a b. 1000 * a / b;
  log = λ a. a;
  power = λ a b. a * a / 1000;
  less = ltb;
  at_most = leb;
}

no_color_problem : check_color_contract fixed_floats (palette ∷ []) ≡ []
unfolding check_color_contract get_or Text-discrete lit
no_color_problem = refl

-- light text on a light background
low_found :
    check_color_contract fixed_floats (put palette (lit "Card") (lit "#F8FAFC") ∷ [])
    ≡ low_contrast []
        (record {
          foreground = lit "Card Foreground";
          background = lit "Card";
          role = lit "normal-text";
          minimum = 4500;
        })
        1000
      ∷ []
unfolding check_color_contract get_or Text-discrete lit put
low_found = refl

-- the short form is no colour of the catalogs
short_form : is_hex_color (lit "#fff") ≡ false
unfolding is_hex_color lit
short_form = refl

check_color_contract-IsReadable_example :
    All
      (λ row. All (IsReadable fixed_floats row) (color_contrast_pairs fixed_floats))
      (palette ∷ [])
check_color_contract-IsReadable_example =
    check_color_contract-IsReadable fixed_floats (palette ∷ []) no_color_problem

-- ===== src/DesignSystem/Mode/Palette.antt =====
-- The palette that `_select_palette_for_mode` picks agrees with the mode.
use package.true.Catalog.Domain.{Row}
use package.true.DesignSystem.Colors.{
  is_dark_luminance, palette_is_dark, relative_luminance, stands_out,
}
use package.true.DesignSystem.Colors.Derived.{derive_dark_palette-IsDarkVersion}
use package.true.DesignSystem.Mode.{
  adapted, dark_or_first, first_row, is_of_category, select_palette_for_mode,
}
use package.true.Floats.{Floats}
use package.true.Prelude.{
  Bool, List, Option-cases, [], any, arith, false, if-P_of, inl, inr, none, not, refl, some, true,
  ◌&&◌, ◌||◌, ◌∷◌, ◌≡◌,
}
use package.true.Text.{Text, lit, ◌==◌}

first_row-P :
    (p : Row → Bool) (rows : List Row) (row : Row) → first_row p rows ≡ some row → p row ≡ true
unfolding first_row
first_row-P p [] row h = absurd (cc)
first_row-P p (r ∷ rows) row h = ground (arith, first_row-P p rows row)

first_row-any : (p : Row → Bool) (rows : List Row) → first_row p rows ≡ none → any p rows ≡ false
unfolding first_row
first_row-any p [] h = refl
first_row-any p (r ∷ rows) h = ground (arith, first_row-any p rows)

module _ (fl : Floats) where
  adapted-IsDark :
      (palette : Row)
      → is_dark_luminance fl (relative_luminance fl (lit "#0F172A")) ≡ true
      → stands_out fl (lit "#0F172A") (lit "#60A5FA") ≡ true
      → palette_is_dark fl (adapted fl (lit "dark") palette) ≡ true
  unfolding adapted
  adapted-IsDark palette dark ring =
      let made = derive_dark_palette-IsDarkVersion fl palette dark ring in
      let is_mode : (lit "dark" == lit "dark") ≡ true = ground arith in
      if-P_of (λ (p : Row). palette_is_dark fl p ≡ true)
        (lit "dark" == lit "dark" && not (palette_is_dark fl palette)) (λ _. made.background)
        (λ e. ground (arith, e, is_mode))

  dark_or_first-IsDark :
      (p : Row) (palettes : List Row)
      → any (palette_is_dark fl) (p ∷ palettes) ≡ true
      → palette_is_dark fl (dark_or_first fl (lit "dark") p palettes) ≡ true
  unfolding dark_or_first
  dark_or_first-IsDark p palettes h =
      let is_mode : (lit "dark" == lit "dark") ≡ true = ground arith in
      elim (Option-cases (first_row (palette_is_dark fl) (p ∷ palettes))) [
        | inl e ↦ absurd (cc (first_row-any (palette_is_dark fl) (p ∷ palettes) e, h))
        | inr (row, e) ↦
            rw (is_mode, e, dark_or_first) (first_row-P (palette_is_dark fl) (p ∷ palettes) row e)
      ]

  -- In the dark mode the palette is dark if the list has a palette of the category, which is adapted
  -- where it is not dark, or a dark one; where the floats find "#0F172A" dark, and "#60A5FA" in a
  -- contrast of 3 or more with it.
  pub select_palette_for_mode-IsDark :
      (palettes : List Row) (category : Text)
      → is_dark_luminance fl (relative_luminance fl (lit "#0F172A")) ≡ true
      → stands_out fl (lit "#0F172A") (lit "#60A5FA") ≡ true
      → (any (is_of_category category) palettes || any (palette_is_dark fl) palettes) ≡ true
      → palette_is_dark fl (select_palette_for_mode fl palettes (lit "dark") category) ≡ true
  unfolding select_palette_for_mode
  select_palette_for_mode-IsDark [] category dark ring h = absurd (cc)
  select_palette_for_mode-IsDark (p ∷ palettes) category dark ring h =
      elim (Option-cases (first_row (is_of_category category) (p ∷ palettes))) [
        | inr (own, e) ↦ rw (e, select_palette_for_mode) (adapted-IsDark own dark ring)
        | inl none_own ↦
            rw (none_own, select_palette_for_mode)
              (dark_or_first-IsDark p palettes (
                ground (arith, h, first_row-any (is_of_category category) (p ∷ palettes) none_own)))
      ]

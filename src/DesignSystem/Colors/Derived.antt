-- ===== src/DesignSystem/Colors/Derived.antt =====
-- What `_derive_dark_palette` makes of a palette.
use mathlib.Core.Path.{subst}
use package.true.Catalog.Domain.{Row}
use package.true.DesignSystem.Colors.{
  dark_surface, derive_dark_palette, first_ring, is_dark_luminance, palette_is_dark,
  relative_luminance, ring_candidates, ring_of, stands_out,
}
use package.true.Dict.{
  NodupKeys, get, get-update, get-update_of_absent, get_or, get_or-get, has_key,
}
use package.true.Floats.{Floats}
use package.true.Prelude.{
  List, [], false, if-P_of, refl, some, sym, true, ℕ_discrete, ◌∙◌, ◌∷◌, ◌≡◌,
}
use package.true.Text.{Text, Text-discrete, lit}

module _ (fl : Floats) where
  -- Its background is dark, its ring stands out from it, and the other columns keep their values.
  pub record IsDarkVersion (palette derived : Row) : Type 0 where
    pub background : palette_is_dark fl derived ≡ true
    pub ring : stands_out fl (lit "#0F172A") (get_or derived (lit "Ring") []) ≡ true
    pub kept :
        (column : Text)
        → has_key (dark_surface []) column ≡ false
        → get derived column ≡ get palette column

  first_ring_lem :
      (background : Text) (candidates : List Text)
      → stands_out fl background (lit "#60A5FA") ≡ true
      → stands_out fl background (first_ring fl background candidates) ≡ true
  unfolding first_ring
  first_ring_lem background [] h = h
  first_ring_lem background (c ∷ candidates) h =
      if-P_of (λ ring. stands_out fl background ring ≡ true) (stands_out fl background c) (λ e. e)
        (λ _. first_ring_lem background candidates h)

  ring_of_lem :
      (palette : Row)
      → stands_out fl (lit "#0F172A") (lit "#60A5FA") ≡ true
      → stands_out fl (lit "#0F172A") (ring_of fl palette) ≡ true
  unfolding ring_of
  ring_of_lem palette h = first_ring_lem (lit "#0F172A") (ring_candidates palette) h

  -- The columns that are set do not depend on the ring.
  has_key-dark_surface :
      (ring column : Text) → has_key (dark_surface ring) column ≡ has_key (dark_surface []) column
  unfolding dark_surface has_key
  has_key-dark_surface ring column = refl

  dark_surface-NodupKeys : (ring : Text) → NodupKeys (dark_surface ring)
  unfolding dark_surface has_key lit Text-discrete ℕ_discrete
  dark_surface-NodupKeys ring =
      (refl, (refl, (refl, (refl, (refl, (refl, (refl, (refl, (refl, tt)))))))))

  surface_background :
      (ring : Text) → get (dark_surface ring) (lit "Background") ≡ some (lit "#0F172A")
  unfolding dark_surface get lit Text-discrete ℕ_discrete
  surface_background ring = refl

  surface_ring : (ring : Text) → get (dark_surface ring) (lit "Ring") ≡ some ring
  unfolding dark_surface get lit Text-discrete ℕ_discrete
  surface_ring ring = refl

  -- The palette that is derived for the dark mode has a dark background and a ring of contrast 3 or
  -- more with it, where the floats find "#0F172A" dark and "#60A5FA" in such a contrast with it; and
  -- every column that is not one of its nine surfaces keeps the value of the product's palette.
  pub derive_dark_palette-IsDarkVersion :
      (palette : Row)
      → is_dark_luminance fl (relative_luminance fl (lit "#0F172A")) ≡ true
      → stands_out fl (lit "#0F172A") (lit "#60A5FA") ≡ true
      → IsDarkVersion palette (derive_dark_palette fl palette)
  unfolding derive_dark_palette palette_is_dark
  derive_dark_palette-IsDarkVersion palette dark ring =
      let surface = dark_surface (ring_of fl palette) in
      let once = dark_surface-NodupKeys (ring_of fl palette) in
      let value = λ (column v : Text) (h : get surface column ≡ some v).
        sym (get_or-get _ column [] (get-update palette surface column once h)) in
      record {
        background =
            subst (λ (b : Text). is_dark_luminance fl (relative_luminance fl b) ≡ true)
              (value (lit "Background") (lit "#0F172A") (surface_background _)) dark;
        ring =
            subst (λ (r : Text). stands_out fl (lit "#0F172A") r ≡ true)
              (value (lit "Ring") (ring_of fl palette) (surface_ring _)) (ring_of_lem palette ring);
        kept = λ column h.
            get-update_of_absent palette surface column
              (has_key-dark_surface (ring_of fl palette) column ∙ h);
      }

-- ===== src/DesignSystem/Recommendation/Agrees.antt =====
-- The palette and the anti-patterns of a recommendation agree with its mode.
use mathlib.Core.Path.{subst}
use package.true.Catalog.Detailed.{File}
use package.true.Catalog.Domain.{Row}
use package.true.DecisionRules.Json.{Json, ok, returns-bind}
use package.true.DesignSystem.Colors.{
  is_dark_luminance, palette_is_dark, relative_luminance, stands_out,
}
use package.true.DesignSystem.Generator.{
  Choice, DesignSystemGenerator, Settings, choice_of, choose, chosen_mode, or_general,
  product_category,
}
use package.true.DesignSystem.Mode.{
  dark_anti_pattern_markers, filter_anti_patterns_for_mode, is_of_category, query_wants_dark,
  resolve_color_mode, select_palette_for_mode,
}
use package.true.DesignSystem.Mode.AntiPatterns.{filter_anti_patterns_for_mode-IsFreeOf}
use package.true.DesignSystem.Mode.Palette.{select_palette_for_mode-IsDark}
use package.true.DesignSystem.Reasoning.{Reasoning, apply_reasoning, found_in}
use package.true.DesignSystem.Recommendation.{Recommendation, assemble, color_keys, generate}
use package.true.Dict.{get, get_or, get_or-get, get_or-missing}
use package.true.Floats.{Floats}
use package.true.Prelude.{
  Bool, Option, Option-cases, [], any, ap, false, inl, inr, none, refl, some, sym, true, ℕ_discrete,
  ◌||◌, ◌∙◌, ◌≡◌,
}
use package.true.Text.{Text, Text-discrete, contains, lit, lower}
use package.true.Text.Cut.{has}

-- A colour that the floats find dark.
abbrev pub IsDarkColor : Floats → Text → Type 0
IsDarkColor fl color = is_dark_luminance fl (relative_luminance fl color) ≡ true

-- The colour results have a palette of the category, or a dark one.
abbrev pub has_dark_answer : Floats → Choice → Bool
has_dark_answer fl c =
    any (is_of_category (or_general c.category)) c.color_results
    || any (palette_is_dark fl) c.color_results

-- What a recommendation shows in the dark mode.
pub record IsDarkThroughout (fl : Floats) (c : Choice) (r : Recommendation) : Type 0 where
  pub background :
      has_dark_answer fl c ≡ true → IsDarkColor fl (get_or r.colors (lit "background") [])
  pub anti_patterns :
      (marker : Text)
      → contains dark_anti_pattern_markers marker ≡ true
      → has marker (lower r.anti_patterns) ≡ false

pub record Agrees (fl : Floats) (query : Text) (c : Choice) (r : Recommendation) : Type 0 where
  pub dark : c.mode ≡ lit "dark" → IsDarkThroughout fl c r
  pub asked :
      c.reasoning.preferred_mode ≡ none → query_wants_dark query ≡ true → c.mode ≡ lit "dark"

chosen_mode-asked :
    (query : Text) (preferred : Option Text) (style : Row)
    → preferred ≡ none
    → query_wants_dark query ≡ true
    → chosen_mode preferred query style ≡ lit "dark"
unfolding chosen_mode resolve_color_mode
chosen_mode-asked query none style h w = rw (w, resolve_color_mode) refl
chosen_mode-asked query (some t) style h w = absurd (cc)

background_key :
    (color : Row)
    → get_or (color_keys color) (lit "background") []
      ≡ get_or color (lit "Background") (lit "#F8FAFC")
unfolding color_keys get_or get lit Text-discrete ℕ_discrete
background_key color = refl

-- No text is no dark colour.
dark_nothing : (fl : Floats) → is_dark_luminance fl (relative_luminance fl []) ≡ false
unfolding relative_luminance is_dark_luminance
dark_nothing fl = refl

-- A dark palette has a background of its own, which is shown.
shown_background :
    (fl : Floats) (color : Row)
    → palette_is_dark fl color ≡ true
    → IsDarkColor fl (get_or (color_keys color) (lit "background") [])
unfolding palette_is_dark
shown_background fl color h = elim (Option-cases (get color (lit "Background"))) [
  | inl e ↦ absurd (
      cc (
        h,
        dark_nothing fl,
        ap (λ (t : Text). is_dark_luminance fl (relative_luminance fl t))
            (get_or-missing color (lit "Background") [] e),
      ))
  | inr (value, e) ↦
      subst (IsDarkColor fl)
        (get_or-get color (lit "Background") [] e
          ∙ sym (get_or-get color (lit "Background") (lit "#F8FAFC") e)
          ∙ sym (background_key color))
        h
]

module _ (fl : Floats) (files : Text → File) (loads : Text → Option Json) where
  choice_of-Agrees :
      (generator : DesignSystemGenerator) (query : Text) (settings : Settings)
      (product project_name : Option Text) (reasoning : Reasoning)
      → IsDarkColor fl (lit "#0F172A")
      → stands_out fl (lit "#0F172A") (lit "#60A5FA") ≡ true
      → let c = choice_of fl files loads generator query settings product reasoning in
        Agrees fl query c (assemble project_name query c)
  unfolding choice_of assemble
  choice_of-Agrees generator query settings product project_name reasoning dark ring =
      let c = choice_of fl files loads generator query settings product reasoning in
      record {
        dark = λ e. record {
          background = λ h. shown_background fl c.color (
              subst
                (λ (mode : Text).
                  palette_is_dark fl
                    (select_palette_for_mode fl c.color_results mode (or_general c.category))
                  ≡ true)
                (sym e)
                (select_palette_for_mode-IsDark fl c.color_results (or_general c.category) dark ring
                  h));
          anti_patterns = λ marker h.
              subst
                (λ (mode : Text).
                  has marker (lower (filter_anti_patterns_for_mode c.reasoning.anti_patterns mode))
                  ≡ false)
                (sym e) (filter_anti_patterns_for_mode-IsFreeOf c.reasoning.anti_patterns marker h);
        };
        asked = λ h w. chosen_mode-asked query reasoning.preferred_mode c.style h w;
      }

  choose-Agrees :
      (generator : DesignSystemGenerator) (query : Text) (project_name : Option Text)
      (settings : Settings) (c : Choice)
      → IsDarkColor fl (lit "#0F172A")
      → stands_out fl (lit "#0F172A") (lit "#60A5FA") ≡ true
      → choose fl files loads generator query settings ≡ ok c
      → Agrees fl query c (assemble project_name query c)
  unfolding choose
  choose-Agrees generator query project_name settings c dark ring h =
      let product = product_category (found_in fl files query (lit "product") 1) in
      let (reasoning, _, k) =
        returns-bind
          (apply_reasoning loads generator.reasoning_data generator.style_lookup
            (or_general product) query)
          (λ reasoning. ok (choice_of fl files loads generator query settings product reasoning))
          h in
      let made : choice_of fl files loads generator query settings product reasoning ≡ c = cc in
      subst (λ (c : Choice). Agrees fl query c (assemble project_name query c)) made
        (choice_of-Agrees generator query settings product project_name reasoning dark ring)

  -- A recommendation that `generate` returns is put together from a choice whose mode it agrees with.
  -- In the dark mode its background is dark, if the colour results have a palette of the category or
  -- a dark one, and its anti-patterns hold no marker of advice against the mode; and a query that
  -- asks for a dark theme has the dark mode, where no decision rule sets one. The floats find
  -- "#0F172A" dark, and "#60A5FA" in a contrast of 3 or more with it.
  pub generate-Agrees :
      (generator : DesignSystemGenerator) (query : Text) (project_name : Option Text)
      (settings : Settings) {r : Recommendation}
      → IsDarkColor fl (lit "#0F172A")
      → stands_out fl (lit "#0F172A") (lit "#60A5FA") ≡ true
      → generate fl files loads generator query project_name settings ≡ ok r
      → (c : Choice) × (choose fl files loads generator query settings ≡ ok c)
        × (r ≡ assemble project_name query c)
        × Agrees fl query c r
  unfolding generate
  generate-Agrees generator query project_name settings {r} dark ring h =
      let (c, e, f) =
        returns-bind (choose fl files loads generator query settings)
          (λ c. ok (assemble project_name query c)) h in
      let shown : assemble project_name query c ≡ r = cc in
      (
        c,
        e,
        sym shown,
        subst (λ (r : Recommendation). Agrees fl query c r) shown
            (choose-Agrees generator query project_name settings c dark ring e),
      )

-- ===== src/Styling/Tailwind/CommandLine.antt =====
-- `main` of tailwind_config_gen.py, up to the printing.
-- The arguments, each option with its list of specs.
use mathlib.Core.Path.{subst}
use package.true.Dict.{Dict, put}
use package.true.Prelude.{
  Bool, List, Option, Option-cases, [], ap, eqb, false, if◌then◌else◌, inl, inr, map, none, not,
  refl, some, sym, true, ℕ_discrete, ◌||◌, ◌∙◌, ◌∷◌, ◌≡◌,
}
use package.true.Regex.{fullmatch}
use package.true.Styling.Tailwind.{
  Generator, add_breakpoints, add_colors, add_fonts, add_plugins, add_spacing, add_to_section,
  append_plugins, before_newline, generator, is_name_char, is_path_char, is_valid_plugin,
  matches_before, plugin_name, plugin_requires, recommend_plugins, with_extend, with_plugins,
}
use package.true.Styling.Tailwind.Printing.{generate_config_string, written}
use package.true.Text.{
  Text, Text-discrete, is_digit, is_lower_letter, is_upper_letter, is_word, lit, ◌==◌,
}
use package.true.Text.Cut.{split_first, split_on, strip, strip_by}

pub record Arguments : Type 0 where
  pub framework : Text
  pub js : Bool
  pub colors : List Text
  pub fonts : List Text
  pub spacing : List Text
  pub breakpoints : List Text
  pub plugins : Bool

-- the loop over the specs: a spec without a colon ends the program
unfoldable pub read_specs : {A : Type 0} → (Text → A) → Dict A → List Text → Option (Dict A)
read_specs read found [] = some found
read_specs read found (spec ∷ specs) = elim (split_first b':' spec) [
  | none ↦ none
  | some (name, value) ↦ read_specs read (put found name (read value)) specs
]

-- f.strip().strip("'\"") for the families
families : Text → List Text
families value =
    map (λ f. strip_by (λ c. eqb c b'\'' || eqb c b'"') (strip f)) (split_on b',' value)

-- an option that is not given changes nothing
unfoldable pub with_specs :
    {A : Type 0}
    → (Text → A)
    → (Generator → Dict A → Generator)
    → List Text
    → Generator
    → Option Generator
with_specs read add [] g = some g
with_specs read add (spec ∷ specs) g = elim (read_specs read [] (spec ∷ specs)) [
  | none ↦ none
  | some found ↦ some (add g found)
]

infixl 5 ◌>>=◌
abbrev ◌>>=◌ : Option Generator → (Generator → Option Generator) → Option Generator
none >>= next = none
some g >>= next = next g

-- the configuration that `main` builds, or `none` where it ends with status 1
unfoldable pub configure : Arguments → Option Generator
unfolding families
configure a = do
  g₁ ← with_specs (λ v. v) add_colors a.colors (generator (not a.js) a.framework)
  g₂ ← with_specs families add_fonts a.fonts g₁
  g₃ ← with_specs (λ v. v) add_spacing a.spacing g₂
  g₄ ← with_specs (λ v. v) add_breakpoints a.breakpoints g₃
  some (if a.plugins then add_plugins g₄ (recommend_plugins g₄) else g₄)

then-some :
    (m : Option Generator) (next : Generator → Option Generator) (h : Generator)
    → (m >>= next) ≡ some h
    → (g : Generator) × (m ≡ some g) × (next g ≡ some h)
then-some none next h e = absurd (cc)
then-some (some g) next h e = (g, refl, e)

module _ {A : Type 0} (read : Text → A) (add : Generator → Dict A → Generator)
    (keeps : (g : Generator) (d : Dict A) → (add g d).plugins ≡ g.plugins) where
  with_specs-plugins :
      (specs : List Text) (g h : Generator)
      → with_specs read add specs g ≡ some h
      → h.plugins ≡ g.plugins
  unfolding with_specs
  with_specs-plugins [] g h e =
      let same : g ≡ h = cc in ap (λ (x : Generator). x.plugins) (sym same)
  with_specs-plugins (spec ∷ specs) g h e =
      elim (Option-cases (read_specs read [] (spec ∷ specs))) [
        | inl f ↦ let k : none ≡ some h = rw (f, with_specs) at e in absurd (cc)
        | inr (found, f) ↦
            let k : some (add g found) ≡ some h = rw (f, with_specs) at e in
            let same : add g found ≡ h = cc in
            ap (λ (x : Generator). x.plugins) (sym same) ∙ keeps g found
      ]

colors-plugins : (g : Generator) (d : Dict Text) → (add_colors g d).plugins ≡ g.plugins
unfolding add_colors add_to_section with_extend
colors-plugins g d = refl

fonts-plugins : (g : Generator) (d : Dict (List Text)) → (add_fonts g d).plugins ≡ g.plugins
unfolding add_fonts add_to_section with_extend
fonts-plugins g d = refl

spacing-plugins : (g : Generator) (d : Dict Text) → (add_spacing g d).plugins ≡ g.plugins
unfolding add_spacing add_to_section with_extend
spacing-plugins g d = refl

breakpoints-plugins : (g : Generator) (d : Dict Text) → (add_breakpoints g d).plugins ≡ g.plugins
unfolding add_breakpoints add_to_section with_extend
breakpoints-plugins g d = refl

-- the plugins that are recommended are valid
recommended_lem :
    (is_next : Bool)
    → (requires : List Text) × (plugin_requires (
          append_plugins [] (
            lit "tailwindcss-animate"
            ∷ (if is_next then lit "@tailwindcss/typography" ∷ [] else [])))
        ≡ inr requires)
unfolding plugin_requires append_plugins is_valid_plugin matches_before before_newline plugin_name
    fullmatch is_name_char is_path_char is_word is_lower_letter is_upper_letter is_digit lit
    Text-discrete ℕ_discrete
recommended_lem true = (_, refl)
recommended_lem false = (_, refl)

added-requires :
    (plugins : Bool) (g : Generator)
    → g.plugins ≡ []
    → (requires : List Text) × (plugin_requires
          (if plugins then add_plugins g (recommend_plugins g) else g).plugins
        ≡ inr requires)
unfolding add_plugins with_plugins recommend_plugins plugin_requires
added-requires true g e =
    let (requires, f) = recommended_lem (g.framework == lit "nextjs") in (requires, rw e f)
added-requires false g e = ([], rw e refl)

-- A configuration that the command line builds, from whatever options, is generated without an
-- error: the plugins that it adds are all valid names.
pub configure-written :
    (a : Arguments) (g : Generator)
    → configure a ≡ some g
    → (content : Text) × (generate_config_string g ≡ inr content)
unfolding configure generator
configure-written a g e =
    let text_value : Text → Text = λ v. v in
    let (g₁, e₁, r₁) =
      then-some (with_specs text_value add_colors a.colors (generator (not a.js) a.framework)) _ g
        e in
    let (g₂, e₂, r₂) = then-some (with_specs families add_fonts a.fonts g₁) _ g r₁ in
    let (g₃, e₃, r₃) = then-some (with_specs text_value add_spacing a.spacing g₂) _ g r₂ in
    let (g₄, e₄, r₄) = then-some (with_specs text_value add_breakpoints a.breakpoints g₃) _ g r₃ in
    let none_yet : g₄.plugins ≡ [] =
      with_specs-plugins text_value add_breakpoints breakpoints-plugins a.breakpoints g₃ g₄ e₄
      ∙ with_specs-plugins text_value add_spacing spacing-plugins a.spacing g₂ g₃ e₃
      ∙ with_specs-plugins families add_fonts fonts-plugins a.fonts g₁ g₂ e₂
      ∙ with_specs-plugins text_value add_colors colors-plugins a.colors
          (generator (not a.js) a.framework) g₁ e₁ in
    let (requires, f) = added-requires a.plugins g₄ none_yet in
    let same : (if a.plugins then add_plugins g₄ (recommend_plugins g₄) else g₄) ≡ g = cc in
    written g requires (subst (λ (x : Generator). plugin_requires x.plugins ≡ inr requires) same f)

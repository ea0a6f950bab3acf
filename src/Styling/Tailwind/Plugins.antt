-- ===== src/Styling/Tailwind/Plugins.antt =====
-- What `add_plugins` and `_format_plugins` promise of the plugin names.
use mathlib.Core.Path.{subst}
use package.true.Prelude.{
  All, Bool-cases, List, Option-cases, [], ap, arith, eqb, false, if-P_of, if◌then◌else◌, inl, inr,
  map, none, refl, some, sym, true, ℕ, ◌++◌, ◌||◌, ◌∙◌, ◌∷◌, ◌≡◌, ◌≢◌, ◌⊎◌,
}
use package.true.Regex.{Matches-All, Within, fullmatch, fullmatch_sound}
use package.true.Styling.Tailwind.{
  Generator, add_plugins, append_plugins, before_newline, format_plugins, is_name_char,
  is_path_char, is_valid_plugin, matches_before, plugin_name, plugin_requires, with_plugins,
}
use package.true.Styling.Tailwind.Printing.{written}
use package.true.Text.{
  ==_eq, Distinct, Text, contains, contains-append, is_digit, is_lower_letter, is_upper_letter,
  is_word, lit, snoc-Distinct, ◌==◌,
}
use package.true.Text.Cut.{join}

append_plugins-Distinct :
    (known plugins : List Text) → Distinct known → Distinct (append_plugins known plugins)
unfolding append_plugins
append_plugins-Distinct known [] h = h
append_plugins-Distinct known (p ∷ plugins) h =
    append_plugins-Distinct (if contains known p then known else known ++ p ∷ []) plugins
      (if-P_of Distinct (contains known p) (λ _. h) (λ e. snoc-Distinct known p h e))

contains-append_plugins :
    (known plugins : List Text) (q : Text)
    → contains (append_plugins known plugins) q ≡ (contains known q || contains plugins q)
unfolding append_plugins
contains-append_plugins known [] q = ground arith
contains-append_plugins known (p ∷ plugins) q = elim (Bool-cases (contains known p)) [
  | inl e ↦
      let known_too : q ≡ p → contains known q ≡ true =
        λ same. subst (λ v. contains known v ≡ true) (sym same) e in
      rw (e, append_plugins)
        (elim (Bool-cases (q == p)) [
          | inl f ↦
              ground (arith, f, known_too (==_eq q p f), contains-append_plugins known plugins q)
          | inr f ↦ ground (arith, f, contains-append_plugins known plugins q)
        ])
  | inr e ↦
      rw (e, append_plugins)
        (ground (
          arith,
          contains-append_plugins (known ++ p ∷ []) plugins q,
          contains-append known (p ∷ []) q,
        ))
]

-- Adding plugins keeps them distinct, and the generator then has exactly those that it had and those
-- that were added.
pub add_plugins-Distinct :
    (g : Generator) (plugins : List Text)
    → Distinct g.plugins
    → Distinct (add_plugins g plugins).plugins
      × ((q : Text)
          → contains (add_plugins g plugins).plugins q
            ≡ (contains g.plugins q || contains plugins q))
unfolding add_plugins with_plugins
add_plugins-Distinct g plugins h =
    (append_plugins-Distinct g.plugins plugins h, contains-append_plugins g.plugins plugins)

-- No quote, parenthesis, semicolon, backslash or line break.
abbrev pub IsHarmless : ℕ → Type 0
IsHarmless c =
    (c ≢ b'\'')
    × (c ≢ b'"')
    × (c ≢ b'(')
    × (c ≢ b')')
    × (c ≢ b';')
    × (c ≢ b'\\')
    × (c ≢ b'\n')
    × (c ≢ b'\r')

name_char-IsHarmless : (c : ℕ) → is_name_char c ≡ true → IsHarmless c
unfolding is_name_char is_word is_lower_letter is_upper_letter is_digit
name_char-IsHarmless c h = (
  λ e. ground arith,
  λ e. ground arith,
  λ e. ground arith,
  λ e. ground arith,
  λ e. ground arith,
  λ e. ground arith,
  λ e. ground arith,
  λ e. ground arith,
)

path_char-IsHarmless : (c : ℕ) → is_path_char c ≡ true → IsHarmless c
unfolding is_path_char is_word is_lower_letter is_upper_letter is_digit
path_char-IsHarmless c h = (
  λ e. ground arith,
  λ e. ground arith,
  λ e. ground arith,
  λ e. ground arith,
  λ e. ground arith,
  λ e. ground arith,
  λ e. ground arith,
  λ e. ground arith,
)

symbol-IsHarmless : (d c : ℕ) → IsHarmless d → eqb d c ≡ true → IsHarmless c
symbol-IsHarmless d c h e = let same : d ≡ c = ground (arith, e) in subst IsHarmless same h

at-IsHarmless : IsHarmless b'@'
at-IsHarmless = (
  λ f. omega (arith, f),
  λ f. omega (arith, f),
  λ f. omega (arith, f),
  λ f. omega (arith, f),
  λ f. omega (arith, f),
  λ f. omega (arith, f),
  λ f. omega (arith, f),
  λ f. omega (arith, f),
)

slash-IsHarmless : IsHarmless b'/'
slash-IsHarmless = (
  λ f. omega (arith, f),
  λ f. omega (arith, f),
  λ f. omega (arith, f),
  λ f. omega (arith, f),
  λ f. omega (arith, f),
  λ f. omega (arith, f),
  λ f. omega (arith, f),
  λ f. omega (arith, f),
)

Sum-cases : (x : Text ⊎ List Text) → ((a : Text) × (x ≡ inl a)) ⊎ ((b : List Text) × (x ≡ inr b))
Sum-cases (inl a) = inl (a, refl)
Sum-cases (inr b) = inr (b, refl)

plugin_name-Within : Within IsHarmless plugin_name
unfolding plugin_name
plugin_name-Within =
    let at = λ (c : ℕ) (e : eqb b'@' c ≡ true). symbol-IsHarmless b'@' c at-IsHarmless e in
    let slash = λ (c : ℕ) (e : eqb b'/' c ≡ true). symbol-IsHarmless b'/' c slash-IsHarmless e in
    (
      ((at, ((name_char-IsHarmless, name_char-IsHarmless), slash)), tt),
      (
        (name_char-IsHarmless, name_char-IsHarmless),
        (slash, (path_char-IsHarmless, path_char-IsHarmless)),
      ),
    )

plugin_name-All : (t : Text) → fullmatch plugin_name t ≡ true → All IsHarmless t
plugin_name-All t e = Matches-All IsHarmless (fullmatch_sound plugin_name t e) plugin_name-Within

before_newline_split : (t s : Text) → before_newline t ≡ some s → t ≡ s ++ b'\n' ∷ []
unfolding before_newline
before_newline_split [] s e = absurd (cc)
before_newline_split (c ∷ []) s e = ground (arith, e)
before_newline_split (c ∷ d ∷ t) s e = elim (Option-cases (before_newline (d ∷ t))) [
  | inl f ↦ let g : none ≡ some s = rw (f, before_newline) at e in absurd (cc)
  | inr (r, f) ↦
      let g : some (c ∷ r) ≡ some s = rw (f, before_newline) at e in
      let same : c ∷ r ≡ s = cc in
      ap (λ (u : Text). c ∷ u) (before_newline_split (d ∷ t) r f)
      ∙ ap (λ (u : Text). u ++ b'\n' ∷ []) same
]

-- The plugin is a name without those characters, or such a name with a line feed behind it.
abbrev pub IsName : Text → Type 0
IsName plugin =
    (name : Text) × ((plugin ≡ name) ⊎ (plugin ≡ name ++ b'\n' ∷ [])) × All IsHarmless name

is_valid_plugin-IsName : (t : Text) → is_valid_plugin t ≡ true → IsName t
unfolding is_valid_plugin matches_before
is_valid_plugin-IsName t e = elim (Bool-cases (fullmatch plugin_name t)) [
  | inl f ↦ (t, inl refl, plugin_name-All t f)
  | inr f ↦ elim (Option-cases (before_newline t)) [
    | inl g ↦ let k : false ≡ true = rw (f, g) at e in absurd (cc)
    | inr (s, g) ↦
        let k : fullmatch plugin_name s ≡ true = rw (f, g) at e in
        (s, inr (before_newline_split t s g), plugin_name-All s k)
  ]
]

-- require('plugin')
abbrev pub require_of : Text → Text
require_of plugin = lit "require('" ++ plugin ++ lit "')"

plugin_requires-All :
    (plugins requires : List Text)
    → plugin_requires plugins ≡ inr requires
    → All IsName plugins × (requires ≡ map require_of plugins)
unfolding plugin_requires
plugin_requires-All [] requires e = (tt, cc)
plugin_requires-All (p ∷ plugins) requires e = elim (Bool-cases (is_valid_plugin p)) [
  | inl f ↦ elim (Sum-cases (plugin_requires plugins)) [
    | inl (bad, g) ↦ let k : inl bad ≡ inr requires = rw (f, g, plugin_requires) at e in absurd (cc)
    | inr (rest, g) ↦
        let (names, same) = plugin_requires-All plugins rest g in
        let k : inr (require_of p ∷ rest) ≡ inr requires = rw (f, g, plugin_requires) at e in
        ((is_valid_plugin-IsName p f, names), cc)
  ]
  | inr f ↦ let k : inl p ≡ inr requires = rw (f, plugin_requires) at e in absurd (cc)
]

-- A plugin list that is written is the `require` of each plugin, and each plugin is a name that has no
-- quote, parenthesis, semicolon, backslash or line break, or such a name with one line feed at its
-- end, which is then the only character that does not belong in the string of the `require`.
pub format_plugins-IsHarmless :
    (g : Generator) (written : Text)
    → format_plugins g ≡ inr written
    → All IsName g.plugins × (written ≡ join (lit ", ") (map require_of g.plugins))
unfolding format_plugins
format_plugins-IsHarmless g written e = elim (Sum-cases (plugin_requires g.plugins)) [
  | inl (bad, f) ↦ let k : inl bad ≡ inr written = rw (f, format_plugins) at e in absurd (cc)
  | inr (requires, f) ↦
      let (names, same) = plugin_requires-All g.plugins requires f in
      let k : inr (join (lit ", ") requires) ≡ inr written = rw (f, format_plugins) at e in
      (names, cc)
]

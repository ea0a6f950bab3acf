-- ===== src/Catalog/Stack/Versions.antt =====
-- The versions of a stack that a query asks for: the search in `_stack_query_requests_legacy` for the
-- name of the stack with a number behind it.
-- A part of the expression: the text after what it matches. Each part is greedy; a shorter match of a
-- part never helps, since what would be left begins with a character that no later part takes.
use package.true.Dict.{Dict}
use package.true.Prelude.{
  Bool, List, Option, String, [], eqb, false, if◌then◌else◌, length, ltb, none, some, suc, take,
  true, zero, ℕ, ◌&&◌, ◌*◌, ◌++◌, ◌+◌, ◌-◌, ◌||◌, ◌∷◌,
}
use package.true.Text.{Text, is_digit, is_space, is_word, lit}
use package.true.Text.Cut.{lstrip}

abbrev pub Part : Type 0
Part = Text → Option Text

cut_prefix : Text → Part
cut_prefix [] t = some t
cut_prefix (x ∷ p) [] = none
cut_prefix (x ∷ p) (c ∷ t) = elim (eqb x c) [ true ↦ cut_prefix p t | false ↦ none ]

unfoldable pub word : String → Part
unfolding cut_prefix
word w t = cut_prefix (lit w) t

-- one part behind another
chain : Part → Part → Part
chain first second t = elim (first t) [ none ↦ none | some rest ↦ second rest ]

either : Part → Part → Part
either first second t = elim (first t) [ none ↦ second t | some rest ↦ some rest ]

-- the part, or nothing
maybe : Part → Part
maybe part t = elim (part t) [ none ↦ some t | some rest ↦ some rest ]

-- \s*
any_spaces : Part
unfolding lstrip
any_spaces t = some (lstrip is_space t)

-- \s+
some_spaces : Part
unfolding any_spaces
some_spaces [] = none
some_spaces (c ∷ t) = if is_space c then any_spaces t else none

-- [\s-]*
spaces_or_dashes : Part
unfolding lstrip
spaces_or_dashes t = some (lstrip (λ c. is_space c || eqb c b'-') t)

-- NAME(?:\.js|js)?
with_js : String → Part
unfolding word chain either maybe
with_js name = chain (word name) (maybe (either (word ".js") (word "js")))

-- _STACK_QUERY_NAMES
unfoldable pub stack_query_names : Dict Part
unfolding word chain either maybe any_spaces some_spaces spaces_or_dashes with_js
stack_query_names =
    (lit "react", word "react")
    ∷ (lit "nextjs", with_js "next")
    ∷ (lit "vue", word "vue")
    ∷ (lit "svelte", word "svelte")
    ∷ (lit "astro", word "astro")
    ∷ (lit "angular", word "angular")
    ∷ (lit "html-tailwind", chain (word "tailwind") (maybe (chain any_spaces (word "css"))))
    ∷ (lit "nuxtjs", with_js "nuxt")
    ∷ (lit "nuxt-ui", chain (word "nuxt") (chain any_spaces (word "ui")))
    ∷ (lit "react-native", chain (word "react") (chain spaces_or_dashes (word "native")))
    ∷ (lit "flutter", word "flutter")
    ∷ (lit "swiftui", either (word "ios") (chain (word "swiftui") (chain some_spaces (word "ios"))))
    ∷ (
      lit "jetpack-compose",
      either (chain (word "jetpack") (chain any_spaces (word "compose"))) (word "compose"),
    )
    ∷ (lit "avalonia", word "avalonia")
    ∷ (lit "winui", word "winui")
    ∷ (lit "javafx", word "javafx")
    ∷ (lit "threejs", with_js "three")
    ∷ (lit "laravel", word "laravel")
    ∷ []

-- \s*(?:sdk|ui)?\s*(?:[@(]\s*)?(?:v(?:ersion)?\s*)?
before_number : Part
unfolding word chain either maybe any_spaces
before_number = chain any_spaces (
    chain (maybe (either (word "sdk") (word "ui"))) (
      chain any_spaces (
        chain (maybe (chain (either (word "@") (word "(")) any_spaces))
          (maybe (chain (word "v") (chain (maybe (word "ersion")) any_spaces))))))

-- a number, with the digits that are read of it, and the text behind it
digits_from : ℕ → Text → ℕ × Text
digits_from n [] = (n, [])
digits_from n (c ∷ t) = elim (is_digit c) [
  | true ↦ digits_from (10 * n + (c - b'0')) t
  | false ↦ (n, c ∷ t)
]

-- \d+
unfoldable pub number_at : Text → Option (ℕ × Text)
unfolding digits_from is_digit
number_at [] = none
number_at (c ∷ t) = if is_digit c then some (digits_from (c - b'0') t) else none

-- (?:\.(\d+))?
minor_at : ℕ → Text → List ℕ × Text
unfolding number_at
minor_at major [] = (major ∷ [], [])
minor_at major (c ∷ t) =
    if eqb c b'.'
    then elim (number_at t) [
      | none ↦ (major ∷ [], c ∷ t)
      | some (minor, rest) ↦ (major ∷ minor ∷ [], rest)
    ]
    else (major ∷ [], c ∷ t)

-- \s*\)?
closed : Text → Text
unfolding lstrip
closed t = elim (lstrip is_space t) [ [] ↦ [] | c ∷ rest ↦ if eqb c b')' then rest else c ∷ rest ]

version_of : Option (ℕ × Text) → Option (List ℕ × Text)
unfolding minor_at closed
version_of none = none
version_of (some (major, t)) = let (version, rest) = minor_at major t in some (version, closed rest)

-- the version at the front of a text, and the text behind the match
version_at : Part → Text → Option (List ℕ × Text)
unfolding chain before_number version_of
version_at name t = elim (chain name before_number t) [
  | none ↦ none
  | some rest ↦ version_of (number_at rest)
]

-- re.finditer: the flag says that a word character stands before the text, the number counts the
-- characters of a match that are still to be passed over.
versions_from : Part → ℕ → Bool → Text → List (List ℕ)
unfolding version_at is_word
versions_from name skip inside [] = []
versions_from name (suc skip) inside (c ∷ t) = versions_from name skip (is_word c) t
versions_from name zero inside (c ∷ t) = elim (if inside then none else version_at name (c ∷ t)) [
  | none ↦ versions_from name 0 (is_word c) t
  | some (version, rest) ↦ version ∷ versions_from name (length t - length rest) (is_word c) t
]

-- [tuple(...) for match in matches]
unfoldable pub versions_in : Part → Text → List (List ℕ)
unfolding versions_from
versions_in name t = versions_from name 0 false t

release_of : Option (ℕ × Text) → List (List ℕ)
release_of (some (release, [])) = (0 ∷ release ∷ []) ∷ []
release_of _ = []

-- (0, int(release)) for a word that is "r" and a number
release_in : Text → List (List ℕ)
unfolding release_of number_at
release_in [] = []
release_in (c ∷ t) = if eqb c b'r' then release_of (number_at t) else []

-- the releases that re.findall finds: a word of the text is as long as it can be
unfoldable pub releases_in : List Text → List (List ℕ)
unfolding release_in
releases_in [] = []
releases_in (w ∷ ws) = release_in w ++ releases_in ws

-- Python's `<` on tuples of numbers
unfoldable pub version_less : List ℕ → List ℕ → Bool
version_less xs [] = false
version_less [] (y ∷ ys) = true
version_less (x ∷ xs) (y ∷ ys) = ltb x y || (eqb x y && version_less xs ys)

-- requested < current_version[:len(requested)]
unfoldable pub is_older : List ℕ → List ℕ → Bool
is_older current requested = version_less requested (take (length requested) current)

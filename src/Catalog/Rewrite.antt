-- ===== src/Catalog/Rewrite.antt =====
-- `_rewrite_query_for_domain`: words that only route a query, in the words of the catalog.
use package.true.Catalog.Bm25.{vocabulary}
use package.true.Catalog.Domain.{contains_phrase}
use package.true.Catalog.Normalize.{normalize}
use package.true.Catalog.Tokens.{tokenize}
use package.true.Dict.{Dict, get, get_or}
use package.true.Prelude.{
  List, Option, String, [], any, if◌then◌else◌, map, none, not, some, ◌++◌, ◌∷◌,
}
use package.true.Sort.{sort_asc}
use package.true.Text.{Text, contains, lit, lower, text_less, to_set}
use package.true.Text.Cut.{join, words}

to_none : List String → Dict (Option Text)
to_none = map (λ t. (lit t, none))

-- _DOMAIN_QUERY_REWRITES
unfoldable pub query_rewrites : Dict (Dict (Option Text))
unfolding to_none
query_rewrites =
    (
      lit "color",
      to_none (
          "color" ∷ "palette" ∷ "hex" ∷ "rgb" ∷ "token" ∷ "semantic" ∷ "destructive" ∷ "muted"
          ∷ "foreground" ∷ []),
    )
    ∷ (lit "landing", (lit "testimonial", some (lit "testimonials")) ∷ [])
    ∷ (lit "style", to_none ("css" ∷ "implementation" ∷ "variable" ∷ "checklist" ∷ "tailwind" ∷ []))
    ∷ (
      lit "ux",
      (lit "ux", some (lit "accessibility"))
          ∷ (lit "usability", some (lit "accessibility"))
          ∷ (lit "wcag", some (lit "accessibility"))
          ∷ [],
    )
    ∷ (lit "google-fonts", (lit "typography", some (lit "font")) ∷ [])
    ∷ (lit "icons", to_none ("lucide" ∷ "symbol" ∷ "glyph" ∷ "pictogram" ∷ []))
    ∷ (
      lit "gsap",
      (lit "gsap", some (lit "animation"))
          ∷ (lit "quickto", none)
          ∷ (lit "scrolltrigger", some (lit "scroll"))
          ∷ (lit "flip plugin", none)
          ∷ (lit "splittext", none)
          ∷ [],
    )
    ∷ (
      lit "react",
      (lit "nextjs", some (lit "react"))
          ∷ (lit "usecallback", some (lit "memoization"))
          ∷ (lit "useeffect", some (lit "effects"))
          ∷ [],
    )
    ∷ (
      lit "web",
      (lit "aria", some (lit "accessibility"))
          ∷ (lit "outline", some (lit "focus"))
          ∷ (lit "semantic", none)
          ∷ (lit "autocomplete", some (lit "input"))
          ∷ (lit "preconnect", none)
          ∷ [],
    )
    ∷ []

-- _DOMAIN_QUERY_REWRITES.get(domain, {}).get(keyword)
replacement_of : Text → Text → Option Text
replacement_of domain keyword = elim (get (get_or query_rewrites domain []) keyword) [
  | none ↦ none
  | some replacement ↦ replacement
]

-- the loop over the keywords: each pair of a keyword that the query has and the index has not, and
-- of its replacement
unfoldable pub replacements : List Text → Text → Text → List Text → List (Text × Text)
unfolding replacement_of
replacements vocabulary query domain [] = []
replacements vocabulary query domain (keyword ∷ keywords) =
    let rest = replacements vocabulary query domain keywords in
    if not (contains_phrase query keyword)
    then rest
    else if any (contains vocabulary) (tokenize keyword)
    then rest
    else elim (replacement_of domain keyword) [
      | none ↦ rest
      | some replacement ↦ (keyword, replacement) ∷ rest
    ]

-- sorted(set(…))
sorted_set : List Text → List Text
sorted_set ts = sort_asc text_less (to_set ts)

appended : Text → List (Text × Text) → Text × List Text
unfolding sorted_set
appended query [] = (query, [])
appended query (pair ∷ pairs) = (
  query ++ b' ' ∷ join (lit " ") (sorted_set (map (λ (k, r). r) (pair ∷ pairs))),
  sorted_set (map (λ (k, r). k ++ lit "->" ++ r) (pair ∷ pairs)),
)

-- `_rewrite_query_for_domain`, with the keywords of all domains and the words of the index
unfoldable pub rewrite_query : Dict (List Text) → Text → Option Text → List Text → Text × List Text
unfolding appended
rewrite_query keywords query none vocabulary = (query, [])
rewrite_query keywords query (some domain) vocabulary = elim (get keywords domain) [
  | none ↦ (query, [])
  | some words ↦ appended query (replacements vocabulary (normalize (lower query)) domain words)
]

-- ===== src/Catalog/Domain.antt =====
-- `detect_domain`: which catalog a query is about.
-- A row of a CSV file: the text of each column.
pub mod Best
use package.true.Catalog.Normalize.{normalize}
use package.true.Dict.{Dict, get_or}
use package.true.Prelude.{
  Bool, List, Option, [], any, eqb, false, if◌then◌else◌, leb, length, ltb, map, max, none, not,
  some, suc, true, zero, ℕ, ◌&&◌, ◌*◌, ◌++◌, ◌+◌, ◌||◌, ◌∷◌,
}
use package.true.Sort.{sort_desc}
use package.true.Text.{Text, contains, is_digit, is_word, lit, lower, ◌==◌}
use package.true.Text.Cut.{has, strip, words}
use package.true.Text.Phrase.{has_phrase}

abbrev pub Row : Type 0
Row = Dict Text

-- re.sub(r"\([^)]*\)", "", text): from an opening parenthesis to the next closing one, if there is
-- one. The flag says that the text stands inside.
drop_parens : Bool → Text → Text
drop_parens inside [] = []
drop_parens true (c ∷ t) = drop_parens (not (eqb c b')')) t
drop_parens false (c ∷ t) = elim (eqb c b'(' && any (eqb b')') t) [
  | true ↦ drop_parens true t
  | false ↦ c ∷ drop_parens false t
]

product_label : Row → Text
unfolding drop_parens
product_label row = lower (strip (drop_parens false (get_or row (lit "Product Type") [])))

-- the built-in words
seed : List Text
seed = map lit (
    "saas" ∷ "ecommerce" ∷ "fintech" ∷ "healthcare" ∷ "gaming" ∷ "portfolio" ∷ "crypto" ∷ "fitness"
    ∷ "marketplace" ∷ "banking" ∷ "cybersecurity" ∷ "education" ∷ "travel" ∷ "restaurant"
    ∷ "real estate" ∷ "social media" ∷ "beauty" ∷ "spa" ∷ "salon" ∷ "wellness" ∷ "booking" ∷ [])

add_labels : List Text → List Row → List Text
unfolding product_label
add_labels known [] = known
add_labels known (row ∷ rows) =
    let label = product_label row in
    add_labels
      (if leb 4 (length label) && not (contains known label) then known ++ label ∷ [] else known)
      rows

-- `_load_product_keywords`, from the rows of the product file, or `none` where it is missing or not
-- readable. The order of the words, which the source sorts by length, is never read.
unfoldable pub product_keywords : Option (List Row) → List Text
unfolding add_labels seed
product_keywords none = seed
product_keywords (some rows) = add_labels seed rows

-- `_domain_keywords`, in the order of its dict
unfoldable pub domain_keywords : Option (List Row) → Dict (List Text)
domain_keywords products =
    (
      lit "color",
      map lit (
          "color" ∷ "palette" ∷ "hex" ∷ "rgb" ∷ "token" ∷ "semantic" ∷ "accent" ∷ "destructive"
          ∷ "muted" ∷ "foreground" ∷ []),
    )
    ∷ (
      lit "chart",
      map lit (
          "time series" ∷ "chart" ∷ "graph" ∷ "visualization" ∷ "trend" ∷ "bar chart" ∷ "pie"
          ∷ "scatter" ∷ "heatmap" ∷ "funnel" ∷ "forecast" ∷ []),
    )
    ∷ (
      lit "landing",
      map lit (
          "landing" ∷ "page" ∷ "cta" ∷ "conversion" ∷ "hero" ∷ "testimonial" ∷ "pricing" ∷ "section"
          ∷ []),
    )
    ∷ (lit "product", product_keywords products)
    ∷ (
      lit "style",
      map lit (
          "style" ∷ "design" ∷ "ui" ∷ "minimalism" ∷ "glassmorphism" ∷ "neumorphism" ∷ "brutalism"
          ∷ "dark mode" ∷ "flat" ∷ "aurora" ∷ "css" ∷ "implementation" ∷ "variable" ∷ "checklist"
          ∷ "tailwind" ∷ []),
    )
    ∷ (
      lit "ux",
      map lit (
          "ux" ∷ "usability" ∷ "accessibility" ∷ "wcag" ∷ "touch" ∷ "scroll" ∷ "animation"
          ∷ "keyboard" ∷ "navigation" ∷ "mobile" ∷ []),
    )
    ∷ (
      lit "typography",
      map lit ("font pairing" ∷ "typography pairing" ∷ "heading font" ∷ "body font" ∷ []),
    )
    ∷ (
      lit "google-fonts",
      map lit (
          "google font" ∷ "font family" ∷ "font weight" ∷ "font style" ∷ "variable font" ∷ "noto"
          ∷ "font for" ∷ "find font" ∷ "font subset" ∷ "font language" ∷ "monospace font"
          ∷ "serif font" ∷ "sans serif font" ∷ "display font" ∷ "handwriting font" ∷ "font"
          ∷ "typography" ∷ "serif" ∷ "sans" ∷ []),
    )
    ∷ (
      lit "icons",
      map lit (
          "icon" ∷ "icons" ∷ "lucide" ∷ "phosphor" ∷ "heroicons" ∷ "symbol" ∷ "glyph" ∷ "pictogram"
          ∷ "svg icon" ∷ []),
    )
    ∷ (
      lit "gsap",
      map lit (
          "gsap" ∷ "quickto" ∷ "scrolltrigger" ∷ "stagger" ∷ "magnetic cursor" ∷ "parallax"
          ∷ "page transition" ∷ "scroll reveal" ∷ "scroll-triggered" ∷ "scrollytelling"
          ∷ "flip plugin" ∷ "splittext" ∷ "shimmer" ∷ "skeleton loader" ∷ []),
    )
    ∷ (
      lit "react",
      map lit (
          "react" ∷ "next.js" ∷ "nextjs" ∷ "suspense" ∷ "memo" ∷ "usecallback" ∷ "useeffect"
          ∷ "rerender" ∷ "bundle" ∷ "waterfall" ∷ "barrel" ∷ "dynamic import" ∷ "rsc"
          ∷ "server component" ∷ []),
    )
    ∷ (
      lit "web",
      map lit (
          "aria" ∷ "focus" ∷ "outline" ∷ "semantic" ∷ "virtualize" ∷ "autocomplete" ∷ "form"
          ∷ "input type" ∷ "preconnect" ∷ "drag reorder" ∷ "single pointer" ∷ "touch target"
          ∷ "native accessibility" ∷ []),
    )
    ∷ []

-- `_contains_phrase`: a phrase with a word character is looked for at token boundaries
unfoldable pub contains_phrase : Text → Text → Bool
contains_phrase text phrase = if any is_word phrase then has_phrase phrase text else has phrase text

-- the points of one keyword
keyword_points : Text → Text → Text → ℕ
keyword_points query domain keyword =
    if contains_phrase query keyword
    then (let specificity = max 1 (length (words keyword)) in
        if not (domain == lit "product") then 2 * specificity else specificity)
    else 0

unfoldable pub domain_score : Text → Text → List Text → ℕ
unfolding keyword_points
domain_score query domain [] = 0
domain_score query domain (keyword ∷ keywords) =
    keyword_points query domain keyword + domain_score query domain keywords

is_hex : ℕ → Bool
is_hex c = is_digit c || (leb b'a' c && leb c b'f') || (leb b'A' c && leb c b'F')

hex_run : Text → ℕ
unfolding is_hex
hex_run [] = 0
hex_run (c ∷ t) = let rest = hex_run t in if is_hex c then suc rest else 0

-- #[0-9a-f]{3,8}(?!\w) behind the sharp: of the digits that follow, some three to eight must have no
-- word character after them, so the run of digits is that long and no other word character follows
ends_at : ℕ → Text → Bool
ends_at zero [] = true
ends_at zero (c ∷ t) = not (is_word c)
ends_at (suc n) [] = false
ends_at (suc n) (c ∷ t) = ends_at n t

hex_here : Text → Bool
unfolding hex_run ends_at
hex_here t = let n = hex_run t in leb 3 n && leb n 8 && ends_at n t

hex_from : Bool → Text → Bool
unfolding hex_here
hex_from after [] = false
hex_from after (c ∷ t) = (not after && eqb c b'#' && hex_here t) || hex_from (is_word c) t

unfoldable pub has_hex_color : Text → Bool
unfolding hex_from
has_hex_color t = hex_from false t

-- _DOMAIN_TIEBREAK_ORDER
unfoldable pub tiebreak_order : List Text
tiebreak_order = map lit (
    "ux" ∷ "product" ∷ "style" ∷ "color" ∷ "typography" ∷ "google-fonts" ∷ "chart" ∷ "landing"
    ∷ "icons" ∷ "gsap" ∷ "react" ∷ "web" ∷ [])

-- _DOMAIN_TIEBREAK_RANK.get(domain, 999)
position : ℕ → Text → List Text → ℕ
position i domain [] = 999
position i domain (d ∷ ds) =
    let rest = position (i + 1) domain ds in if domain == d then i else rest

unfoldable pub tiebreak_rank : Text → ℕ
unfolding position
tiebreak_rank domain = position 0 domain tiebreak_order

-- `scores`, in the order of the dict
unfoldable pub domain_scores : Dict (List Text) → Text → Dict ℕ
domain_scores keywords query =
    map
      (λ (domain, ks). (
        domain,
        domain_score query domain ks
            + (if domain == lit "color" && has_hex_color query then 2 else 0),
      ))
      keywords

-- the order of the sort key: the score, then the smaller rank
unfoldable pub ranks_below : Text × ℕ → Text × ℕ → Bool
ranks_below (d, s) (e, t) = ltb s t || (eqb s t && ltb (tiebreak_rank e) (tiebreak_rank d))

runner_up_of : List (Text × ℕ) → Option Text
runner_up_of [] = none
runner_up_of ((d, s) ∷ rest) = if ltb 0 s then some d else none

best_of : List (Text × ℕ) → Text × Option Text
unfolding runner_up_of
best_of [] = (lit "style", none)
best_of ((d, s) ∷ rest) = (if ltb 0 s then d else lit "style", runner_up_of rest)

-- `detect_domain` with its scores: the domain, and the second one where it has points too
unfoldable pub detect_domain : Option (List Row) → Text → Text × Option Text
unfolding best_of
detect_domain products query =
    best_of
      (sort_desc ranks_below (domain_scores (domain_keywords products) (normalize (lower query))))

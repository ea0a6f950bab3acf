-- ===== src/Catalog/Tests.antt =====
-- Runs of the catalog search.
use mathlib.Core.List.{Mem, Perm}
use package.true.Catalog.Bm25.{fit, score, vocabulary}
use package.true.Catalog.Bm25.Counts.{doc_freqs-fit, docs_with}
use package.true.Catalog.Bm25.Ranking.{numbers, score-Sorted, score-perm}
use package.true.Catalog.Detailed.{
  File, Request, abstains, holds, load_rows_or_empty, missing, no_threshold, search_csv_detailed,
  stack_threshold,
}
use package.true.Catalog.Detailed.Rows.{AreResults, search_csv_detailed-AreResults}
use package.true.Catalog.Detailed.Thresholds.{IsTested, IsTotal, search_csv_detailed-IsTested}
use package.true.Catalog.Domain.{Row, detect_domain, domain_keywords, domain_scores}
use package.true.Catalog.Domain.Best.{IsBest, NoPoints, detect_domain-IsBest}
use package.true.Catalog.Identity.{
  chosen, field_values, find_style, folded, is_named, row_identities, scan, strip_all,
  style_destination, style_fields, style_identity,
}
use package.true.Catalog.Identity.Contained.{Supports, style_identity-supported}
use package.true.Catalog.Identity.Exact.{first_named, style_identity-named}
use package.true.Catalog.Normalize.{normalize}
use package.true.Catalog.Search.{is_active_style, natural, search}
use package.true.Catalog.Search.Results.{IsResponse, search-IsResponse}
use package.true.Catalog.Similarity.{
  common_prefix, longer, longest, longest_at, longest_from, matched, matching_chars,
}
use package.true.Catalog.Suggest.{suggest_terms}
use package.true.Catalog.Suggest.Sound.{suggest_terms-worthwhile}
use package.true.Catalog.Tokens.{blank_char, keeps_word, stopwords, tokenize}
use package.true.Dict.{get, get_or}
use package.true.Floats.{whole_floats}
use package.true.Prelude.{
  All, List, [], any, arith, false, if◌then◌else◌, length, ltb, map, none, refl, select, some, true,
  ℕ_discrete, ◌∷◌, ◌≡◌, ◌≤◌, ◌⊎◌,
}
use package.true.Sort.{Before, IsStrictOrder, Sorted}
use package.true.Text.{
  Text, Text-discrete, contains, is_space, is_word, lit, lower, lower_char, to_set, ◌==◌,
}
use package.true.Text.Cut.{lstrip, split_on, strip, words}

normalizes :
    normalize (lit "Sign-Up with darkmode nav, navy") ≡ lit "signup with dark navigation, navy"
unfolding normalize lit is_word lower_char
normalizes = refl

tokens :
    tokenize (lit "The UX/UI of a Q&A app")
    ≡ lit "ux" ∷ lit "ui" ∷ lit "question" ∷ lit "answer" ∷ lit "app" ∷ []
unfolding tokenize keeps_word stopwords blank_char words normalize lit is_word is_space lower_char
    lower Text-discrete ℕ_discrete
tokens = refl

whole_floats-IsTotal : IsTotal whole_floats
whole_floats-IsTotal x y = ground arith

whole_floats-IsStrictOrder : IsStrictOrder ltb
whole_floats-IsStrictOrder = record {
  asym = λ x y h. ground arith;
  neg_trans = λ x y z h k. ground arith;
}

abbrev documents : List Text
documents = lit "dark dashboard" ∷ lit "bright landing page" ∷ []

abbrev style_row : Text → Text → Text → Text → Row
style_row id category status parent =
    (lit "Style ID", id)
    ∷ (lit "Style Category", category)
    ∷ (lit "Status", status)
    ∷ (lit "Parent Style ID", parent)
    ∷ []

abbrev glass : Row
glass = style_row (lit "glass") (lit "Glassmorphism") (lit "active") []

abbrev frosted : Row
frosted = style_row (lit "frosted") (lit "Frosted Glass") (lit "deprecated") (lit "glass")

abbrev styles : List Row
styles = frosted ∷ glass ∷ []

abbrev files : Text → File
files name = if name == lit "styles.csv" then holds styles else missing

names_glass : style_identity styles (lit " GLASS ") false ≡ some glass
unfolding style_identity scan folded is_named row_identities strip_all field_values style_fields lit
    lower lower_char strip lstrip get_or split_on is_space Text-discrete ℕ_discrete chosen to_set
names_glass = refl

leads_to_glass : style_destination styles (some frosted) ≡ (some glass, none)
unfolding style_destination find_style get_or get strip lstrip lit Text-discrete ℕ_discrete is_space
leads_to_glass = refl

first_glass : first_named style_fields (folded (lit " GLASS ")) styles ≡ some glass
unfolding folded is_named row_identities strip_all field_values style_fields lit lower lower_char
    strip lstrip get_or split_on is_space Text-discrete ℕ_discrete
first_glass = refl

near : matching_chars (lit "dashbord") (lit "dashboard") ≡ 8
unfolding matching_chars matched longest longest_from longest_at longer common_prefix lit
near = refl

doc_freqs-fit_example :
    (get_or (fit whole_floats documents).doc_freqs (lit "dark") 0
      ≡ docs_with (lit "dark") (map tokenize documents))
    × (get_or (fit whole_floats documents).doc_freqs (lit "dark") 0 ≤ length documents)
doc_freqs-fit_example = doc_freqs-fit whole_floats documents (lit "dark")

score-Sorted_example :
    Sorted
      (Before ltb whole_floats-IsStrictOrder)
      (score whole_floats (fit whole_floats documents) (lit "dark page"))
score-Sorted_example =
    score-Sorted whole_floats whole_floats-IsStrictOrder documents (lit "dark page")

score-perm_example :
    Perm
      (map (λ (n, _). n) (score whole_floats (fit whole_floats documents) (lit "dark page")))
      (numbers 0 (length documents))
score-perm_example = score-perm whole_floats documents (lit "dark page")

detect_domain-IsBest_example :
    IsBest
      (domain_scores (domain_keywords none) (normalize (lower (lit "dark palette"))))
      (detect_domain none (lit "dark palette")).0
    ⊎ ((detect_domain none (lit "dark palette")).0 ≡ lit "style")
      × NoPoints (domain_scores (domain_keywords none) (normalize (lower (lit "dark palette"))))
detect_domain-IsBest_example = detect_domain-IsBest none (lit "dark palette")

style_identity-named_example : style_identity styles (lit " GLASS ") true ≡ some glass
style_identity-named_example = style_identity-named styles (lit " GLASS ") true glass first_glass

style_identity-supported_example : Mem glass styles × Supports (folded (lit " GLASS ")) glass
style_identity-supported_example =
    style_identity-supported styles (lit " GLASS ") false glass names_glass

abbrev request : Request whole_floats
request = record {
  name = lit "styles.csv";
  search_cols = lit "Style Category" ∷ [];
  output_cols = lit "Style ID" ∷ [];
  query = lit "glass";
  max_results = 3;
  threshold = no_threshold whole_floats;
  routing_domain = none;
  row_filter = is_active_style;
}

an_active_style : any request.row_filter styles ≡ true
unfolding is_active_style get_or lit Text-discrete
an_active_style = refl

search_csv_detailed-IsTested_example :
    IsTested whole_floats [] request
      (select request.row_filter styles)
      (search_csv_detailed whole_floats [] request (holds styles))
search_csv_detailed-IsTested_example =
    search_csv_detailed-IsTested whole_floats whole_floats-IsTotal [] request styles an_active_style

search_csv_detailed-AreResults_example :
    AreResults whole_floats request
      (load_rows_or_empty (holds styles))
      (search_csv_detailed whole_floats [] request (holds styles))
search_csv_detailed-AreResults_example =
    search_csv_detailed-AreResults whole_floats [] request (holds styles)

suggest_terms-worthwhile_example :
    let index = fit whole_floats documents in
    let terms =
      suggest_terms whole_floats
        (some index)
        (lit "dashbord")
        6
        (some (stack_threshold whole_floats)) in
    (length terms ≤ 6)
    × All
        (λ term.
          Mem term (vocabulary whole_floats index)
          × ((contains (to_set (tokenize (lit "dashbord"))) term ≡ false)
              × (abstains whole_floats index term (stack_threshold whole_floats) ≡ false)))
        terms
suggest_terms-worthwhile_example =
    suggest_terms-worthwhile whole_floats whole_floats-IsTotal (fit whole_floats documents)
      (lit "dashbord") 6 (stack_threshold whole_floats)

search-IsResponse_example :
    IsResponse whole_floats files
      (lit "glass")
      none
      (natural 3)
      (search whole_floats files (lit "glass") none (natural 3))
search-IsResponse_example = search-IsResponse whole_floats files (lit "glass") none (natural 3)

-- ===== src/SlideSearch/Tests.antt =====
-- Runs of the slide search.
use package.true.Catalog.Bm25.{bump, sum}
use package.true.Catalog.Domain.{Row}
use package.true.Dict.{get_or, has_key, put}
use package.true.Floats.{whole_floats}
use package.true.Prelude.{
  All, List, Option, [], arith, false, length, negsuc, refl, some, true, ℕ_discrete, ◌<◌, ◌∷◌, ◌≡◌,
}
use package.true.SlideSearch.Context.{inferred_goal_of}
use package.true.SlideSearch.Deck.{at_position, full_bleed-apart, should_use_full_bleed}
use package.true.SlideSearch.Index.{
  blank_mark, count_slides, count_unseen, score_slide, slide_fit, slide_fit_corpus, slide_tokens,
}
use package.true.SlideSearch.Index.Counts.{known_tokens, score_slide-positive}
use package.true.SlideSearch.Search.{
  best_domain, first_best, slide_domain, slide_keywords, slide_scores, slide_search_all,
}
use package.true.SlideSearch.Search.Results.{IsFromFile, slide_search_all-All}
use package.true.Text.{Text, Text-discrete, is_space, is_word, lit, lower, lower_char}
use package.true.Text.Cut.{has, starts_with, words}

-- In a deck of three slides, slides 1 and 2 both use a full bleed.
consecutive :
    (should_use_full_bleed 1 3 (lit "hope") ≡ true)
    × (should_use_full_bleed 2 3 (lit "hope") ≡ true)
unfolding should_use_full_bleed at_position lit Text-discrete ℕ_discrete
consecutive = (refl, refl)

guesses : slide_domain (lit "Investor pitch deck with a chart") ≡ lit "strategy"
unfolding slide_domain best_domain first_best slide_scores slide_keywords has starts_with lower
    lower_char lit
guesses = refl

goal : inferred_goal_of (lit "The PROBLEM slide") ≡ lit "problem"
unfolding inferred_goal_of has starts_with lower lower_char lit
goal = refl

full_bleed-apart_example : should_use_full_bleed 4 9 (lit "fear") ≡ false
unfolding should_use_full_bleed at_position lit Text-discrete ℕ_discrete
full_bleed-apart_example = full_bleed-apart 3 9 (lit "hope") (lit "fear") (omega arith) refl

has_pitch : has_key (slide_fit whole_floats (lit "pitch deck" ∷ [])).idf (lit "deck") ≡ true
unfolding slide_fit slide_fit_corpus count_slides count_unseen slide_tokens blank_mark words is_word
    is_space lower lower_char lit has_key Text-discrete ℕ_discrete bump put get_or
has_pitch = refl

score_slide-positive_example :
    let index = slide_fit whole_floats (lit "pitch deck" ∷ []) in
    let tokens = lit "deck" ∷ lit "logo" ∷ [] in
    (score_slide whole_floats index 2 [] tokens 0
      ≡ score_slide whole_floats index 2 [] (known_tokens whole_floats index tokens) 0)
    × All (λ token. 0 < sum index.doc_lengths) (known_tokens whole_floats index tokens)
score_slide-positive_example =
    score_slide-positive whole_floats (lit "pitch deck" ∷ []) 2 [] (lit "deck" ∷ lit "logo" ∷ []) 0

abbrev layouts : Text → Option (List Row)
layouts name = some (
    ((lit "layout_name", lit "Title Slide") ∷ [])
    ∷ ((lit "layout_name", lit "Team Grid") ∷ [])
    ∷ [])

slide_search_all-All_example :
    All
      (λ r. (0 < length r.results) × IsFromFile whole_floats layouts (negsuc 0) r)
      (slide_search_all whole_floats layouts (lit "title slide") (negsuc 0))
slide_search_all-All_example =
    slide_search_all-All whole_floats layouts (lit "title slide") (negsuc 0)

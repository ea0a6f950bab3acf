-- ===== src/SlideSearch/Index.antt =====
-- The class `BM25` of slide_search_core.py.
pub mod Counts
use package.true.Catalog.Bm25.{bump, bump_all, sum}
use package.true.Dict.{Dict, get, get_or}
use package.true.Floats.{Floats}
use package.true.Prelude.{
  List, [], if◌then◌else◌, length, ltb, map, none, select, some, ℕ, ◌++◌, ◌+◌, ◌-◌, ◌||◌, ◌∷◌,
}
use package.true.Regex.{plus}
use package.true.Sort.{sort_desc}
use package.true.Text.{Text, contains, is_space, is_word, lower}
use package.true.Text.Cut.{words}

-- re.sub(r'[^\w\s]', ' ', …), and the words of more than two characters
unfoldable pub blank_mark : ℕ → ℕ
blank_mark c = if is_word c || is_space c then c else b' '

unfoldable pub slide_tokens : Text → List Text
unfolding blank_mark
slide_tokens text = select (λ w. ltb 2 (length w)) (words (map blank_mark (lower text)))

-- The fields that `fit` sets.
pub record SlideIndex (F : Type 0) : Type 0 where
  pub corpus : List (List Text)
  pub doc_lengths : List ℕ
  pub avgdl : F
  pub idf : Dict F
  pub doc_freqs : Dict ℕ
  pub size : ℕ

-- the loop over the words of a document
unfoldable pub count_unseen : Dict ℕ → List Text → List Text → Dict ℕ
count_unseen freqs seen [] = freqs
count_unseen freqs seen (word ∷ doc) =
    if contains seen word
    then count_unseen freqs seen doc
    else count_unseen (bump freqs word) (seen ++ word ∷ []) doc

-- the loop over the corpus
unfoldable pub count_slides : Dict ℕ → List (List Text) → Dict ℕ
unfolding count_unseen
count_slides freqs [] = freqs
count_slides freqs (doc ∷ docs) = count_slides (count_unseen freqs [] doc) docs

module _ (fl : Floats) where
  open fl use {Float, whole, ratio, plus, times, minus, over, log, less}

  -- log((N - freq + 0.5) / (freq + 0.5) + 1)
  unfoldable pub slide_idf : ℕ → ℕ → Float
  slide_idf size freq = log (
      plus (over (plus (whole (size - freq)) (ratio 1 2)) (plus (whole freq) (ratio 1 2)))
        (whole 1))

  unfoldable pub slide_fit_corpus : List (List Text) → SlideIndex Float
  unfolding count_slides slide_idf
  slide_fit_corpus [] = record {
    corpus = [];
    doc_lengths = [];
    avgdl = whole 0;
    idf = [];
    doc_freqs = [];
    size = 0;
  }
  slide_fit_corpus (doc ∷ docs) =
      let corpus = doc ∷ docs in
      let lengths = map (λ d. length d) corpus in
      let freqs = count_slides [] corpus in
      record {
        corpus = corpus;
        doc_lengths = lengths;
        avgdl = over (whole (sum lengths)) (whole (length corpus));
        idf = map (λ (word, freq). (word, slide_idf (length corpus) freq)) freqs;
        doc_freqs = freqs;
        size = length corpus;
      }

  -- `fit`
  unfoldable pub slide_fit : List Text → SlideIndex Float
  unfolding slide_fit_corpus
  slide_fit documents = slide_fit_corpus (map slide_tokens documents)

  -- idf * numerator / denominator, with k1 = 1.5 and b = 0.75
  unfoldable pub slide_weight : Float → ℕ → ℕ → Float → Float
  slide_weight idf tf doc_len avgdl =
      let k1 = ratio 3 2 in
      let b = ratio 3 4 in
      over (times idf (times (whole tf) (plus k1 (whole 1)))) (
        plus (whole tf)
          (times k1 (plus (minus (whole 1) b) (over (times b (whole doc_len)) avgdl))))

  -- the loop over the tokens of the query
  unfoldable pub score_slide : SlideIndex Float → ℕ → Dict ℕ → List Text → Float → Float
  unfolding slide_weight
  score_slide index doc_len tf [] score = score
  score_slide index doc_len tf (token ∷ tokens) score =
      score_slide index doc_len tf tokens (elim (get index.idf token) [
        | none ↦ score
        | some idf ↦ plus score (slide_weight idf (get_or tf token 0) doc_len index.avgdl)
      ])

  -- the loop over the corpus, from document `idx` on
  unfoldable pub score_slides :
      SlideIndex Float → List Text → ℕ → List (List Text) → List ℕ → List (ℕ × Float)
  unfolding score_slide
  score_slides index tokens idx (doc ∷ docs) (len ∷ lens) =
      (idx, score_slide index len (bump_all [] doc) tokens (whole 0))
      ∷ score_slides index tokens (idx + 1) docs lens
  score_slides index tokens idx [] lens = []
  score_slides index tokens idx (doc ∷ docs) [] = []

  -- `score`
  unfoldable pub slide_score : SlideIndex Float → Text → List (ℕ × Float)
  unfolding score_slides
  slide_score index query =
      sort_desc (λ (_, s) (_, t). less s t)
        (score_slides index (slide_tokens query) 0 index.corpus index.doc_lengths)

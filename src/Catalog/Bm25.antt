-- ===== src/Catalog/Bm25.antt =====
-- The class `BM25` of core.py.
pub mod Counts
pub mod Ranking
use package.true.Catalog.Tokens.{tokenize}
use package.true.DecisionRules.Grammar.{token}
use package.true.Dict.{Dict, get, get_or, put}
use package.true.Floats.{Floats}
use package.true.Prelude.{List, [], eqb, if◌then◌else◌, length, map, none, some, ℕ, ◌+◌, ◌-◌, ◌∷◌}
use package.true.Regex.{plus}
use package.true.Sort.{sort_desc}
use package.true.Text.{Text}

-- The fields that `fit` sets.
pub record Index (F : Type 0) : Type 0 where
  pub corpus : List (List Text)
  pub doc_lengths : List ℕ
  pub term_freqs : List (Dict ℕ)
  pub doc_freqs : Dict ℕ
  pub avgdl : F
  pub idf : Dict F

-- counts[word] += 1, on a defaultdict(int)
unfoldable pub bump : Dict ℕ → Text → Dict ℕ
bump counts word = put counts word (get_or counts word 0 + 1)

-- for word in doc: counts[word] += 1
unfoldable pub bump_all : Dict ℕ → List Text → Dict ℕ
bump_all counts [] = counts
bump_all counts (word ∷ doc) = bump_all (bump counts word) doc

-- the words of a dict, in its order
abbrev pub dict_keys {ℓ} : {V : Type ℓ} → Dict V → List Text
dict_keys d = map (λ (k, _). k) d

unfoldable pub term_freqs_of : List Text → Dict ℕ
unfolding bump_all
term_freqs_of doc = bump_all [] doc

-- the loop over the corpus: each word of a document counts once
unfoldable pub count_docs : Dict ℕ → List (List Text) → Dict ℕ
unfolding bump_all
count_docs freqs [] = freqs
count_docs freqs (doc ∷ docs) = count_docs (bump_all freqs (dict_keys (term_freqs_of doc))) docs

unfoldable pub sum : List ℕ → ℕ
sum [] = 0
sum (n ∷ ns) = n + sum ns

module _ (fl : Floats) where
  open fl use {Float, whole, ratio, plus, times, minus, over, log, less}

  -- log((N - freq + 0.5) / (freq + 0.5) + 1); no document counts twice, so N - freq is no negative
  inverse_freq : ℕ → ℕ → Float
  inverse_freq size freq = log (
      plus (over (plus (whole (size - freq)) (ratio 1 2)) (plus (whole freq) (ratio 1 2)))
        (whole 1))

  idf_of : ℕ → Dict ℕ → Dict Float
  idf_of size freqs = map (λ (word, freq). (word, inverse_freq size freq)) freqs

  -- sum(doc_lengths) / N or 1.0: a quotient of 0 is falsy
  average : List ℕ → ℕ → Float
  average lengths size =
      if eqb (sum lengths) 0 then whole 1 else over (whole (sum lengths)) (whole size)

  -- `fit`, on the tokens of the documents
  unfoldable pub fit_corpus : List (List Text) → Index Float
  unfolding count_docs idf_of inverse_freq average
  fit_corpus [] = record {
    corpus = [];
    doc_lengths = [];
    term_freqs = [];
    doc_freqs = [];
    avgdl = whole 0;
    idf = [];
  }
  fit_corpus (doc ∷ docs) =
      let corpus = doc ∷ docs in
      let lengths = map (λ d. length d) corpus in
      let freqs = count_docs [] corpus in
      record {
        corpus = corpus;
        doc_lengths = lengths;
        term_freqs = map term_freqs_of corpus;
        doc_freqs = freqs;
        avgdl = average lengths (length corpus);
        idf = idf_of (length corpus) freqs;
      }

  unfoldable pub fit : List Text → Index Float
  unfolding fit_corpus
  fit documents = fit_corpus (map tokenize documents)

  -- idf * numerator / denominator of a token that the index has, with k1 = 1.5 and b = 0.75
  weight : Float → ℕ → ℕ → Float → Float
  weight idf tf doc_len avgdl =
      let k1 = ratio 3 2 in
      let b = ratio 3 4 in
      let numerator = times (whole tf) (plus k1 (whole 1)) in
      let denominator =
        plus (whole tf)
          (times k1 (plus (minus (whole 1) b) (over (times b (whole doc_len)) avgdl))) in
      over (times idf numerator) denominator

  -- the inner loop, over the tokens of the query
  score_doc : Index Float → ℕ → Dict ℕ → List Text → Float → Float
  unfolding weight
  score_doc index doc_len tf [] score = score
  score_doc index doc_len tf (token ∷ tokens) score =
      score_doc index doc_len tf tokens (elim (get index.idf token) [
        | none ↦ score
        | some idf ↦ plus score (weight idf (get_or tf token 0) doc_len index.avgdl)
      ])

  -- the outer loop, over the numbers of the documents from `idx` on
  score_from : Index Float → List Text → ℕ → List ℕ → List (Dict ℕ) → List (ℕ × Float)
  unfolding score_doc
  score_from index tokens idx (len ∷ lens) (tf ∷ tfs) =
      (idx, score_doc index len tf tokens (whole 0)) ∷ score_from index tokens (idx + 1) lens tfs
  score_from index tokens idx [] tfs = []
  score_from index tokens idx (len ∷ lens) [] = []

  -- `score`: the number of each document with its score, the best first
  unfoldable pub score : Index Float → Text → List (ℕ × Float)
  unfolding score_from
  score index query =
      sort_desc (λ (_, s) (_, t). less s t)
        (score_from index (tokenize query) 0 index.doc_lengths index.term_freqs)

  -- `vocabulary`
  unfoldable pub vocabulary : Index Float → List Text
  vocabulary index = dict_keys index.idf

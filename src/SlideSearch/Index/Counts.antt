-- ===== src/SlideSearch/Index/Counts.antt =====
-- The document frequencies of the slide index.
use mathlib.Core.Path.{subst}
use package.true.Catalog.Bm25.{bump, count_docs, sum}
use package.true.Catalog.Bm25.Counts.{count_docs-docs_with, docs_with, get_or-bump}
use package.true.Dict.{Dict, get, get_or, has_key, has_key-get}
use package.true.Floats.{Floats}
use package.true.Prelude.{
  All, All-Mem, Bool-cases, List, Option-cases, [], ap, arith, false, if◌then◌else◌, inl, inr,
  length, length-map, ltb, map, not, refl, select, select-All, sym, true, ℕ, ◌&&◌, ◌++◌, ◌+◌, ◌<◌,
  ◌∙◌, ◌∷◌, ◌≡◌, ◌≤◌,
}
use package.true.SlideSearch.Index.{
  SlideIndex, count_slides, count_unseen, score_slide, score_slides, slide_fit, slide_fit_corpus,
  slide_idf, slide_score, slide_tokens, slide_weight,
}
use package.true.Sort.{length-sort_desc}
use package.true.Text.{==_eq, Text, contains, contains-append, ◌==◌}

count_unseen-lem :
    (freqs : Dict ℕ) (seen doc : List Text) (w : Text)
    → get_or (count_unseen freqs seen doc) w 0
      ≡ get_or freqs w 0 + (if contains doc w && not (contains seen w) then 1 else 0)
unfolding count_unseen
count_unseen-lem freqs seen [] w = omega arith
count_unseen-lem freqs seen (x ∷ doc) w = elim (Bool-cases (contains seen x)) [
  | inl e ↦
      let known : w ≡ x → contains seen w ≡ true =
        λ same. subst (λ v. contains seen v ≡ true) (sym same) e in
      rw (e, count_unseen)
        (elim (Bool-cases (w == x)) [
          | inl f ↦ ground (arith, f, known (==_eq w x f), count_unseen-lem freqs seen doc w)
          | inr f ↦ ground (arith, f, count_unseen-lem freqs seen doc w)
        ])
  | inr e ↦
      let unknown : w ≡ x → contains seen w ≡ false =
        λ same. subst (λ v. contains seen v ≡ false) (sym same) e in
      let rest = count_unseen-lem (bump freqs x) (seen ++ x ∷ []) doc w in
      rw (e, count_unseen)
        (elim (Bool-cases (w == x)) [
          | inl f ↦ ground (
            arith,
            f,
            unknown (==_eq w x f),
            ap (λ v. get_or freqs v 0) (==_eq w x f),
            rest,
            get_or-bump freqs w x,
            contains-append seen (x ∷ []) w,
          )
          | inr f ↦ ground (arith, f, rest, get_or-bump freqs w x, contains-append seen (x ∷ []) w)
        ])
]

count_slides-docs_with :
    (docs : List (List Text)) (freqs : Dict ℕ) (w : Text)
    → get_or (count_slides freqs docs) w 0 ≡ get_or freqs w 0 + docs_with w docs
unfolding count_slides
count_slides-docs_with [] freqs w = omega arith
count_slides-docs_with (doc ∷ docs) freqs w = ground (
  arith,
  count_slides-docs_with docs (count_unseen freqs [] doc) w,
  count_unseen-lem freqs [] doc w,
)

-- The slide index, which remembers the words that it has seen in a document, counts what the catalog
-- index counts, which takes the words of each document from a dict.
pub count_slides-count_docs :
    (docs : List (List Text)) (w : Text)
    → get_or (count_slides [] docs) w 0 ≡ get_or (count_docs [] docs) w 0
count_slides-count_docs docs w =
    count_slides-docs_with docs [] w ∙ sym (count_docs-docs_with docs [] w)

count_slides-empty :
    (docs : List (List Text)) (freqs : Dict ℕ)
    → sum (map (λ d. length d) docs) ≡ 0
    → count_slides freqs docs ≡ freqs
unfolding count_slides count_unseen sum
count_slides-empty [] freqs e = refl
count_slides-empty ([] ∷ docs) freqs e = count_slides-empty docs freqs (omega (arith, e))
count_slides-empty ((w ∷ doc) ∷ docs) freqs e = absurd (omega (arith, e))

-- Where the index has a token, the lengths of the documents do not sum to zero.
slide_fit-positive :
    (fl : Floats) (documents : List Text) (w : Text)
    → has_key (slide_fit fl documents).idf w ≡ true
    → 0 < sum (slide_fit fl documents).doc_lengths
unfolding slide_fit slide_fit_corpus has_key
slide_fit-positive fl [] w e = absurd (cc)
slide_fit-positive fl (d ∷ ds) w e =
    let docs = map slide_tokens (d ∷ ds) in
    elim (Bool-cases (ltb 0 (sum (map (λ d. length d) docs)))) [
      | inl f ↦ ground (arith, f)
      | inr f ↦
          let none_counted = count_slides-empty docs [] (ground (arith, f)) in
          let found : false ≡ true =
            subst
              (λ freqs.
                has_key (map (λ (word, freq). (word, slide_idf fl (length docs) freq)) freqs) w
                ≡ true)
              none_counted e in
          absurd (cc)
    ]

module _ (fl : Floats) where
  slide_fit-corpus :
      (documents : List Text) → (slide_fit fl documents).corpus ≡ map slide_tokens documents
  unfolding slide_fit slide_fit_corpus
  slide_fit-corpus [] = refl
  slide_fit-corpus (d ∷ ds) = refl

  length-score_slides-le :
      (index : SlideIndex fl.Float) (tokens : List Text) (idx : ℕ) (docs : List (List Text))
      (lens : List ℕ)
      → length (score_slides fl index tokens idx docs lens) ≤ length docs
  unfolding score_slides
  length-score_slides-le index tokens idx [] lens = omega arith
  length-score_slides-le index tokens idx (doc ∷ docs) [] = omega arith
  length-score_slides-le index tokens idx (doc ∷ docs) (len ∷ lens) =
      omega (arith, length-score_slides-le index tokens (idx + 1) docs lens)

  -- No more documents are ranked than there are.
  pub length-slide_score-le :
      (documents : List Text) (query : Text)
      → length (slide_score fl (slide_fit fl documents) query) ≤ length documents
  unfolding slide_score
  length-slide_score-le documents query =
      let index = slide_fit fl documents in
      omega (
        arith,
        length-sort_desc (λ (i, s) (j, t). fl.less s t)
            (score_slides fl index (slide_tokens query) 0 index.corpus index.doc_lengths),
        length-score_slides-le index (slide_tokens query) 0 index.corpus index.doc_lengths,
        ap (λ (c : List (List Text)). length c) (slide_fit-corpus documents),
        length-map slide_tokens documents,
      )

  -- The tokens that the index has.
  abbrev pub known_tokens : SlideIndex fl.Float → List Text → List Text
  known_tokens index tokens = select (λ token. has_key index.idf token) tokens

  score_slide-known :
      (index : SlideIndex fl.Float) (doc_len : ℕ) (tf : Dict ℕ) (tokens : List Text) (s : fl.Float)
      → score_slide fl index doc_len tf tokens s
        ≡ score_slide fl index doc_len tf (known_tokens index tokens) s
  unfolding score_slide
  score_slide-known index doc_len tf [] s = refl
  score_slide-known index doc_len tf (token ∷ tokens) s =
      elim (Option-cases (get index.idf token)) [
        | inl e ↦
            let unknown : has_key index.idf token ≡ false =
              ground (arith, has_key-get index.idf token, e) in
            rw (e, unknown, select) (score_slide-known index doc_len tf tokens s)
        | inr (idf, e) ↦
            let known : has_key index.idf token ≡ true =
              ground (arith, has_key-get index.idf token, e) in
            rw (known, select, score_slide)
              (rw (e, score_slide)
                (score_slide-known index doc_len tf tokens
                  (fl.plus s (slide_weight fl idf (get_or tf token 0) doc_len index.avgdl))))
      ]

  -- The score of a document is that of the tokens of the query that the index has: a token that it
  -- has not adds nothing. Where there is one that it has, the lengths of the documents, by whose
  -- average the score divides, do not sum to zero.
  pub score_slide-positive :
      (documents : List Text) (doc_len : ℕ) (tf : Dict ℕ) (tokens : List Text) (s : fl.Float)
      → (score_slide fl (slide_fit fl documents) doc_len tf tokens s
          ≡ score_slide fl
              (slide_fit fl documents)
              doc_len
              tf
              (known_tokens (slide_fit fl documents) tokens)
              s)
        × All
            (λ token. 0 < sum (slide_fit fl documents).doc_lengths)
            (known_tokens (slide_fit fl documents) tokens)
  score_slide-positive documents doc_len tf tokens s =
      let index = slide_fit fl documents in
      (
        score_slide-known index doc_len tf tokens s,
        select-All {0, 0, 0} (λ token. Unit) (λ token. 0 < sum index.doc_lengths)
            (λ token. has_key index.idf token) tokens
            (λ token known _. slide_fit-positive fl documents token known)
            (All-Mem (λ token. Unit) tokens (λ _ _. tt)),
      )

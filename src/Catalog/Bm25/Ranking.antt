-- ===== src/Catalog/Bm25/Ranking.antt =====
-- What `score` returns.
-- The numbers from `i` on.
use mathlib.Core.List.Perm
use mathlib.Core.List.{Perm}
use mathlib.Core.Path.{subst}
use package.true.Catalog.Bm25.{
  Index, dict_keys, fit, score, score_doc, score_from, term_freqs_of, vocabulary,
}
use package.true.Catalog.Tokens.{tokenize}
use package.true.Dict.{Dict, get}
use package.true.Floats.{Floats}
use package.true.Prelude.{
  All, List, [], any, ap, arith, false, length, length-map, map, none, refl, suc, zero, ℕ, ◌+◌, ◌<◌,
  ◌∙◌, ◌∷◌, ◌≡◌,
}
use package.true.Sort.{
  Before, IsStrictOrder, Sorted, sort_desc-All, sort_desc-Sorted, sort_desc-perm,
}
use package.true.Text.{Text, contains}

abbrev pub numbers : ℕ → ℕ → List ℕ
numbers i zero = []
numbers i (suc n) = i ∷ numbers (i + 1) n

module _ (fl : Floats) where
  open fl use {Float, whole, less}

  -- One term frequency for each document length.
  abbrev Paired : List ℕ → List (Dict ℕ) → Type 0
  Paired [] [] = Unit
  Paired (n ∷ ns) (d ∷ ds) = Paired ns ds
  Paired _ _ = ⊥

  score_from-numbers :
      (index : Index Float) (tokens : List Text) (i : ℕ) (lens : List ℕ) (tfs : List (Dict ℕ))
      → length lens ≡ length tfs
      → map (λ (n, _). n) (score_from fl index tokens i lens tfs) ≡ numbers i (length lens)
  unfolding score_from
  score_from-numbers index tokens i [] tfs h = refl
  score_from-numbers index tokens i (n ∷ lens) [] h = absurd (omega arith)
  score_from-numbers index tokens i (n ∷ lens) (tf ∷ tfs) h =
      ap (λ ns. i ∷ ns) (score_from-numbers index tokens (i + 1) lens tfs (omega arith))

  from-All :
      (index : Index Float) (tokens : List Text) (i j : ℕ) (lens : List ℕ) (tfs : List (Dict ℕ))
      → i < j
      → All (λ z. i < z.0) (score_from fl index tokens j lens tfs)
  unfolding score_from
  from-All index tokens i j [] tfs h = tt
  from-All index tokens i j (n ∷ lens) [] h = tt
  from-All index tokens i j (n ∷ lens) (tf ∷ tfs) h =
      (h, from-All index tokens i (j + 1) lens tfs (omega arith))

  from-Sorted :
      (index : Index Float) (tokens : List Text) (i : ℕ) (lens : List ℕ) (tfs : List (Dict ℕ))
      → Sorted (λ x y. x.0 < y.0) (score_from fl index tokens i lens tfs)
  unfolding score_from
  from-Sorted index tokens i [] tfs = tt
  from-Sorted index tokens i (n ∷ lens) [] = tt
  from-Sorted index tokens i (n ∷ lens) (tf ∷ tfs) = (
    from-All index tokens i (i + 1) lens tfs (omega arith),
    from-Sorted index tokens (i + 1) lens tfs,
  )

  -- Where `<` on floats is a strict order, of two documents of a ranking the one that stands first
  -- has a score that is not less, and where the scores tie it has the smaller number.
  pub score-Sorted :
      (order : IsStrictOrder less) (documents : List Text) (query : Text)
      → Sorted (Before less order) (score fl (fit fl documents) query)
  unfolding score
  score-Sorted order documents query =
      sort_desc-Sorted less order _ (from-Sorted (fit fl documents) (tokenize query) 0 _ _)

  fitted_lengths :
      (documents : List Text)
      → (length (fit fl documents).doc_lengths ≡ length documents)
        × (length (fit fl documents).doc_lengths ≡ length (fit fl documents).term_freqs)
  unfolding fit
  fitted_lengths [] = (refl, refl)
  fitted_lengths (d ∷ ds) =
      let docs = map tokenize ds in
      let first = length-map tokenize ds in
      let second = length-map (λ (doc : List Text). length doc) docs in
      let third = length-map term_freqs_of docs in
      (omega (arith, first, second), omega (arith, second, third))

  -- A ranking holds the number of every document exactly once.
  pub score-perm :
      (documents : List Text) (query : Text)
      → Perm (map (λ (n, _). n) (score fl (fit fl documents) query)) (numbers 0 (length documents))
  unfolding score
  score-perm documents query =
      let index = fit fl documents in
      let (size, paired) = fitted_lengths documents in
      let scores = score_from fl index (tokenize query) 0 index.doc_lengths index.term_freqs in
      let in_order =
        score_from-numbers index (tokenize query) 0 index.doc_lengths index.term_freqs paired
        ∙ ap (numbers 0) size in
      Perm.trans (Perm.map (λ ((n, _) : ℕ × Float). n) (sort_desc-perm _ scores))
        (subst (λ ns. Perm (map (λ (n, _). n) scores) ns) in_order (Perm.refl _))

  score_doc-none :
      (index : Index Float) (len : ℕ) (tf : Dict ℕ) (tokens : List Text) (s : Float)
      → All (λ t. get index.idf t ≡ none) tokens
      → score_doc fl index len tf tokens s ≡ s
  unfolding score_doc
  score_doc-none index len tf [] s h = refl
  score_doc-none index len tf (t ∷ tokens) s h =
      rw (h.0, score_doc) (score_doc-none index len tf tokens s h.1)

  from-none :
      (index : Index Float) (tokens : List Text) (i : ℕ) (lens : List ℕ) (tfs : List (Dict ℕ))
      → All (λ t. get index.idf t ≡ none) tokens
      → All (λ z. z.1 ≡ whole 0) (score_from fl index tokens i lens tfs)
  unfolding score_from
  from-none index tokens i [] tfs h = tt
  from-none index tokens i (n ∷ lens) [] h = tt
  from-none index tokens i (n ∷ lens) (tf ∷ tfs) h =
      (score_doc-none index n tf tokens (whole 0) h, from-none index tokens (i + 1) lens tfs h)

  get-none : (d : Dict Float) (w : Text) → contains (dict_keys d) w ≡ false → get d w ≡ none
  unfolding get
  get-none [] w h = refl
  get-none ((k, v) ∷ d) w h = ground (arith, get-none d w)

  unknown :
      (index : Index Float) (tokens : List Text)
      → any (contains (vocabulary fl index)) tokens ≡ false
      → All (λ t. get index.idf t ≡ none) tokens
  unfolding vocabulary
  unknown index [] h = tt
  unknown index (t ∷ tokens) h =
      (get-none index.idf t (ground arith), unknown index tokens (ground arith))

  -- A query none of whose tokens is in the vocabulary gives every document the score 0.
  pub score-unknown :
      (index : Index Float) (query : Text)
      → any (contains (vocabulary fl index)) (tokenize query) ≡ false
      → All (λ z. z.1 ≡ whole 0) (score fl index query)
  unfolding score
  score-unknown index query h = sort_desc-All _ _ _ (
      from-none index (tokenize query) 0 index.doc_lengths index.term_freqs
        (unknown index (tokenize query) h))

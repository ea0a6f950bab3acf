-- ===== src/Catalog/Suggest/Sound.antt =====
-- What the suggestions of `_suggest_terms` are worth: a search for one of them does not abstain.
-- A word of the catalog that the query does not have, and that passes the threshold.
use mathlib.Core.List.{Mem}
use package.true.Catalog.Bm25.{Index, vocabulary}
use package.true.Catalog.Detailed.{Threshold, abstains, passes_threshold}
use package.true.Catalog.Detailed.Thresholds.{IsTotal, passes_threshold-abstains}
use package.true.Catalog.Suggest.{
  accepts, is_near, similar_to, suggest_terms, term_before, term_candidates, terms_near,
}
use package.true.Catalog.Tokens.{tokenize}
use package.true.Floats.{Floats}
use package.true.Prelude.{
  All, All-Mem, All-imp, Bool-cases, List, [], and_iff, arith, false, inl, inr, length, length-map,
  length-take-le, map-All, some, take, take-All, true, ℕ, ◌&&◌, ◌∷◌, ◌≡◌, ◌≤◌,
}
use package.true.Sort.{sort_asc, sort_asc-All}
use package.true.Text.{Text, contains, to_set}

abbrev pub IsWorthwhile : (fl : Floats) → Index fl.Float → Threshold fl → List Text → Text → Type 0
IsWorthwhile fl index threshold query_tokens term =
    Mem term (vocabulary fl index)
    × ((contains query_tokens term ≡ false) × (passes_threshold fl index term threshold ≡ true))

module _ (fl : Floats) (index : Index fl.Float) (threshold : Threshold fl) where
  term_candidates-All :
      (tokens terms : List Text)
      → All (λ t. Mem t (vocabulary fl index)) terms
      → All
          (λ c. IsWorthwhile fl index threshold tokens c.words)
          (term_candidates fl index (some threshold) tokens terms)
  unfolding term_candidates accepts
  term_candidates-All tokens [] h = tt
  term_candidates-All tokens (term ∷ terms) h = elim (Bool-cases (contains tokens term)) [
    | inl e ↦ rw (e, term_candidates) (term_candidates-All tokens terms h.1)
    | inr e ↦
        let near = is_near fl (similar_to fl tokens term) in
        elim (Bool-cases (near && accepts fl index (some threshold) term)) [
          | inl f ↦
              rw (e, term_candidates)
                (rw f (
                  (h.0, (e, ((and_iff near (passes_threshold fl index term threshold)).0 f).1)),
                  term_candidates-All tokens terms h.1,
                ))
          | inr f ↦ rw (e, term_candidates) (rw f (term_candidates-All tokens terms h.1))
        ]
  ]

  terms_near-All :
      (limit : ℕ) (tokens : List Text)
      → All
          (IsWorthwhile fl index threshold tokens)
          (terms_near fl index (some threshold) limit tokens)
  unfolding terms_near
  terms_near-All limit [] = tt
  terms_near-All limit (token ∷ tokens) =
      let candidates =
        term_candidates fl index (some threshold) (token ∷ tokens) (vocabulary fl index) in
      map-All (IsWorthwhile fl index threshold (token ∷ tokens)) (λ c. c.words)
        (take limit (sort_asc (term_before fl) candidates))
        (take-All (λ c. IsWorthwhile fl index threshold (token ∷ tokens) c.words) limit
          (sort_asc (term_before fl) candidates)
          (sort_asc-All (term_before fl)
            (λ c. IsWorthwhile fl index threshold (token ∷ tokens) c.words) candidates
            (term_candidates-All (token ∷ tokens) (vocabulary fl index)
              (All-Mem (λ t. Mem t (vocabulary fl index)) (vocabulary fl index) (λ _ m. m)))))

  length-terms_near-le :
      (limit : ℕ) (tokens : List Text)
      → length (terms_near fl index (some threshold) limit tokens) ≤ limit
  unfolding terms_near
  length-terms_near-le limit [] = omega arith
  length-terms_near-le limit (token ∷ tokens) =
      let sorted =
        sort_asc (term_before fl)
          (term_candidates fl index (some threshold) (token ∷ tokens) (vocabulary fl index)) in
      omega (arith, length-map (λ c. c.words) (take limit sorted), length-take-le limit sorted)

-- There are no more suggestions than the limit, and each is a word of the index that the query does
-- not have and for which the search with that threshold does not abstain, where no score is a NaN.
pub suggest_terms-worthwhile :
    (fl : Floats)
    → IsTotal fl
    → (index : Index fl.Float) (query : Text) (limit : ℕ) (threshold : Threshold fl)
    → let terms = suggest_terms fl (some index) query limit (some threshold) in
      (length terms ≤ limit)
      × All
          (λ term.
            Mem term (vocabulary fl index)
            × ((contains (to_set (tokenize query)) term ≡ false)
                × (abstains fl index term threshold ≡ false)))
          terms
unfolding suggest_terms
suggest_terms-worthwhile fl total index query limit threshold =
    let tokens = to_set (tokenize query) in
    (
      length-terms_near-le fl index threshold limit tokens,
      All-imp
          (λ (term : Text) (h : IsWorthwhile fl index threshold tokens term). (
            h.0,
            (h.1.0, ground (arith, h.1.1, passes_threshold-abstains fl total index term threshold)),
          ))
          (terms_near fl index (some threshold) limit tokens)
          (terms_near-All fl index threshold limit tokens),
    )

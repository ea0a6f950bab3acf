-- ===== src/Catalog/Suggest.antt =====
-- Suggestions for a query that finds nothing: `_suggest_terms` and `_suggest_identities`.
pub mod Sound
use mathlib.Core.List.{flat_map}
use package.true.Catalog.Bm25.{Index, vocabulary}
use package.true.Catalog.Detailed.{Threshold, passes_threshold}
use package.true.Catalog.Domain.{Row}
use package.true.Catalog.Identity.{row_identities}
use package.true.Catalog.Similarity.{ratio_of}
use package.true.Catalog.Tokens.{tokenize}
use package.true.Dict.{get_or}
use package.true.Floats.{Floats}
use package.true.Prelude.{
  Bool, List, Option, [], eqb, if◌then◌else◌, is_empty, length, ltb, map, none, not, some, take,
  true, ℕ, ◌&&◌, ◌||◌, ◌∷◌,
}
use package.true.Sort.{sort_asc}
use package.true.Text.{Text, contains, lower, text_less, to_set, ◌==◌}
use package.true.Text.Cut.{strip}

module _ (fl : Floats) where
  open fl use {Float, whole, ratio, less, at_most}

  -- the greatest of the values, the first of those that tie
  greatest : Float → List Float → Float
  greatest best [] = best
  greatest best (x ∷ xs) = greatest (if less best x then x else best) xs

  -- max(…) over some values; there is one wherever the source asks
  largest : List Float → Float
  unfolding greatest
  largest [] = whole 0
  largest (x ∷ xs) = greatest x xs

  is_near : Float → Bool
  is_near similarity = at_most (ratio 18 25) similarity

  -- A word or an identity, with its similarity and a number: the sort is by these three.
  pub record Suggestion : Type 0 where
    pub similarity : Float
    pub number : ℕ
    pub words : Text

  -- the order of the tuples (-similarity, -number, words)
  term_before : Suggestion → Suggestion → Bool
  term_before a b =
      less b.similarity a.similarity
      || (not (less a.similarity b.similarity)
          && (ltb b.number a.number || (eqb a.number b.number && text_less a.words b.words)))

  -- the order of the tuples (-similarity, number, words)
  identity_before : Suggestion → Suggestion → Bool
  identity_before a b =
      less b.similarity a.similarity
      || (not (less a.similarity b.similarity)
          && (ltb a.number b.number || (eqb a.number b.number && text_less a.words b.words)))

  similar_to : List Text → Text → Float
  unfolding largest
  similar_to tokens term = largest (map (λ token. ratio_of fl token term) tokens)

  -- the threshold of `_suggest_terms` may be None
  accepts : Index Float → Option (Threshold fl) → Text → Bool
  accepts index none term = true
  accepts index (some threshold) term = passes_threshold fl index term threshold

  -- the loop over the vocabulary
  term_candidates : Index Float → Option (Threshold fl) → List Text → List Text → List Suggestion
  unfolding similar_to is_near accepts
  term_candidates index threshold query_tokens [] = []
  term_candidates index threshold query_tokens (term ∷ terms) =
      let similarity = similar_to query_tokens term in
      let rest = term_candidates index threshold query_tokens terms in
      if contains query_tokens term
      then rest
      else if is_near similarity && accepts index threshold term
      then record { similarity = similarity; number = get_or index.doc_freqs term 0; words = term }
        ∷ rest
      else rest

  terms_near : Index Float → Option (Threshold fl) → ℕ → List Text → List Text
  unfolding term_candidates term_before
  terms_near index threshold limit [] = []
  terms_near index threshold limit (token ∷ tokens) =
      map (λ c. c.words)
        (take limit (
          sort_asc term_before
            (term_candidates index threshold (token ∷ tokens) (vocabulary fl index))))

  -- `_suggest_terms`
  unfoldable pub suggest_terms : Option (Index Float) → Text → ℕ → Option (Threshold fl) → List Text
  unfolding terms_near
  suggest_terms none query limit threshold = []
  suggest_terms (some index) query limit threshold =
      terms_near index threshold limit (to_set (tokenize query))

  -- the loops over the rows and over their identities, on the list of all identities; the set of the
  -- candidates is that of the identities, which determine them
  identity_candidates : Text → List Text → List Text → List Suggestion
  unfolding largest is_near similar_to
  identity_candidates query query_tokens [] = []
  identity_candidates query query_tokens (identity ∷ rest) =
      let identity_tokens = to_set (tokenize identity) in
      let similarity = largest (
        flat_map (λ source. map (λ target. ratio_of fl source target) identity_tokens)
          query_tokens) in
      let others = identity_candidates query query_tokens rest in
      if is_empty identity_tokens
      then others
      else if is_near similarity && not (lower identity == lower (strip query))
      then record { similarity = similarity; number = length identity_tokens; words = identity }
        ∷ others
      else others

  identities_near : List Row → Text → List Text → ℕ → List Text → List Text
  unfolding identity_candidates identity_before
  identities_near rows query fields limit [] = []
  identities_near rows query fields limit (token ∷ tokens) =
      map (λ c. c.words)
        (take limit (
          sort_asc identity_before (
            identity_candidates query (token ∷ tokens)
              (to_set (flat_map (λ row. row_identities row fields) rows)))))

  -- `_suggest_identities`
  unfoldable pub suggest_identities : List Row → Text → List Text → ℕ → List Text
  unfolding identities_near
  suggest_identities rows query fields limit =
      identities_near rows query fields limit (to_set (tokenize query))

-- ===== src/Catalog/Detailed/Thresholds.antt =====
-- The two tests of a threshold: `_passes_threshold` against the abstention of a search.
-- `<=` is the negation of `>`, as on floats that are no NaN.
use package.true.Catalog.Bm25.{Index, fit, score, vocabulary}
use package.true.Catalog.Detailed.{
  Found, Request, Threshold, abstains, documents_of, holds, passes_threshold, query_coverage,
  ranked_rows, runner_up_score, search_csv_detailed, top_score,
}
use package.true.Catalog.Domain.{Row}
use package.true.Catalog.Rewrite.{rewrite_query}
use package.true.Dict.{Dict}
use package.true.Floats.{Floats}
use package.true.Prelude.{
  Bool, Bool-cases, List, [], any, ap, arith, false, inl, inr, is_empty, not, refl, select, some,
  true, ◌&&◌, ◌||◌, ◌∷◌, ◌≡◌,
}
use package.true.Text.{Text}

abbrev pub IsTotal : Floats → Type 0
IsTotal fl = (x y : fl.Float) → fl.at_most x y ≡ not (fl.less y x)

not_or : (a b c d : Bool) → (a && not b && (not c || not d)) ≡ not (not a || b || (c && d))
not_or a b c d = ground arith

-- On one query the test of the suggestions is the negation of the abstention, where no score is a NaN.
pub passes_threshold-abstains :
    (fl : Floats)
    → IsTotal fl
    → (index : Index fl.Float) (query : Text) (threshold : Threshold fl)
    → passes_threshold fl index query threshold ≡ not (abstains fl index query threshold)
unfolding passes_threshold abstains
passes_threshold-abstains fl total index query threshold =
    let ranked = score fl index query in
    let gap = fl.minus (top_score fl ranked) (runner_up_score fl ranked) in
    rw (total, total, total, total)
      (not_or (fl.less threshold.min_score (top_score fl ranked))
        (fl.less (query_coverage fl index query) threshold.min_coverage)
        (fl.less (fl.whole 0) threshold.min_margin) (fl.less gap threshold.min_margin))

negated_swap : (a b : Bool) → a ≡ not b → b ≡ not a
negated_swap true b h = ground arith
negated_swap false b h = ground arith

-- The search made an index of the rows that were kept and searched it with the rewritten query; it
-- abstained just where that query fails the test of the suggestions.
abbrev pub IsTested : (fl : Floats) → Dict (List Text) → Request fl → List Row → Found fl → Type 0
IsTested fl keywords r kept found =
    let index = fit fl (documents_of r.search_cols kept) in
    let query = (rewrite_query keywords r.query r.routing_domain (vocabulary fl index)).0 in
    (found.index ≡ some index)
    × (found.diagnostic.search_query ≡ some query)
    × (found.diagnostic.abstained ≡ some (not (passes_threshold fl index query r.threshold)))

module _ (fl : Floats) (total : IsTotal fl) (keywords : Dict (List Text)) (r : Request fl) where
  ranked_rows-IsTested :
      (kept : List Row)
      → is_empty kept ≡ false
      → IsTested fl keywords r kept (ranked_rows fl keywords r kept)
  unfolding ranked_rows
  ranked_rows-IsTested [] h = absurd cc
  ranked_rows-IsTested (row ∷ rows) h =
      let index = fit fl (documents_of r.search_cols (row ∷ rows)) in
      let query = (rewrite_query keywords r.query r.routing_domain (vocabulary fl index)).0 in
      (
        refl,
        refl,
        ap (λ (b : Bool). some b)
            (negated_swap (passes_threshold fl index query r.threshold)
              (abstains fl index query r.threshold)
              (passes_threshold-abstains fl total index query r.threshold)),
      )

  select-any :
      (p : Row → Bool) (rows : List Row) → any p rows ≡ true → is_empty (select p rows) ≡ false
  select-any p [] h = absurd cc
  select-any p (row ∷ rows) h = elim (Bool-cases (p row)) [
    | inl e ↦ rw (e, select) refl
    | inr e ↦ rw (e, select) (select-any p rows (ground (arith, e, h)))
  ]

  -- A search in a file that has a row that passes the filter searches with the rewritten query, and
  -- says that it abstained exactly where that rewritten query fails the test that the suggestions are
  -- made with, on the same index, where no score is a NaN.
  pub search_csv_detailed-IsTested :
      (rows : List Row)
      → any r.row_filter rows ≡ true
      → IsTested fl keywords r
          (select r.row_filter rows)
          (search_csv_detailed fl keywords r (holds rows))
  unfolding search_csv_detailed
  search_csv_detailed-IsTested rows h =
      ranked_rows-IsTested (select r.row_filter rows) (select-any r.row_filter rows h)

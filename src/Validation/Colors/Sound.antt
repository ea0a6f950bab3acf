-- ===== src/Validation/Colors/Sound.antt =====
-- What holds of the colours that `_check_color_contract` accepts.
use package.true.Catalog.Domain.{Row}
use package.true.DesignSystem.Colors.{contrast_ratio}
use package.true.Dict.{get, get_or}
use package.true.Floats.{Floats}
use package.true.Prelude.{All, List, [], false, inl, inr, some, ◌++◌, ◌∷◌, ◌≡◌}
use package.true.Text.{Text, lit}
use package.true.Validation.Colors.{
  Pair, check_color_contract, color_contrast_pairs, color_findings, contrast_of_row, exceeds,
  is_success_green, low_contrast, muted_exceeds, pair_findings, pairs_findings, row_ratios,
  success_green, tolerance,
}
use package.true.Validation.Colors.Agrees.{checked_contrast-agrees, sum_cases}
use package.true.Validation.Problems.{append_nil, flag, flag-nil}

module _ (fl : Floats) where
  -- The generator finds a contrast of the two colours, which with the tolerance is not below the least one.
  abbrev pub IsReadable : Row → Pair fl.Float → Type 0
  IsReadable row pair =
      (contrast : fl.Float) × (contrast_ratio fl (get_or row pair.foreground [])
          (get_or row pair.background [])
        ≡ some contrast)
      × (fl.less (fl.plus contrast (tolerance fl)) pair.minimum ≡ false)

  pair_findings-IsReadable :
      (product : Text) (row : Row) (pair : Pair fl.Float)
      → pair_findings fl product row pair ≡ []
      → IsReadable row pair
  unfolding pair_findings contrast_of_row
  pair_findings-IsReadable product row pair h = elim (sum_cases (contrast_of_row fl row pair)) [
    | inl (value, e) ↦ absurd (cc (h, e))
    | inr (contrast, e) ↦ (
      contrast,
      checked_contrast-agrees fl (get_or row pair.foreground []) (get_or row pair.background [])
          contrast e,
      flag-nil (fl.less (fl.plus contrast (tolerance fl)) pair.minimum)
          (low_contrast product pair contrast) (rw (e, pair_findings) at h),
    )
  ]

  pairs_findings-IsReadable :
      (product : Text) (row : Row) (pairs : List (Pair fl.Float))
      → pairs_findings fl product row pairs ≡ []
      → All (IsReadable row) pairs
  unfolding pairs_findings
  pairs_findings-IsReadable product row [] h = tt
  pairs_findings-IsReadable product row (pair ∷ pairs) h =
      let (here, later) =
        append_nil (pair_findings fl product row pair) (pairs_findings fl product row pairs) h in
      (
        pair_findings-IsReadable product row pair here,
        pairs_findings-IsReadable product row pairs later,
      )

  color_findings-IsReadable :
      (row : Row) → color_findings fl row ≡ [] → All (IsReadable row) (color_contrast_pairs fl)
  unfolding color_findings
  color_findings-IsReadable row h =
      let product = get_or row (lit "Product Type") [] in
      let ratios = row_ratios fl row (color_contrast_pairs fl) in
      let (pairs, _) =
        append_nil (pairs_findings fl product row (color_contrast_pairs fl))
          (flag (exceeds fl (get ratios (lit "Muted Foreground")) (get ratios (lit "Foreground")))
              (muted_exceeds product)
            ++ flag (is_success_green fl (get_or row (lit "Destructive") []))
                (success_green product))
          h in
      pairs_findings-IsReadable product row (color_contrast_pairs fl) pairs

  -- Where no problem is found with the palettes, the generator's own contrast of each foreground with
  -- its background, by its own reading of a colour, is there, and it is nowhere below the least
  -- contrast of the pair by more than the tolerance of the contract, 1e-9.
  pub check_color_contract-IsReadable :
      (rows : List Row)
      → check_color_contract fl rows ≡ []
      → All (λ row. All (IsReadable row) (color_contrast_pairs fl)) rows
  unfolding check_color_contract
  check_color_contract-IsReadable [] h = tt
  check_color_contract-IsReadable (row ∷ rows) h =
      let (here, later) = append_nil (color_findings fl row) (check_color_contract fl rows) h in
      (color_findings-IsReadable row here, check_color_contract-IsReadable rows later)

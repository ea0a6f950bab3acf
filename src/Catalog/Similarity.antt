-- ===== src/Catalog/Similarity.antt =====
-- `difflib.SequenceMatcher(None, a, b).ratio()`, on texts of less than 200 characters, where no
-- character counts as too popular.
-- the length of the text that both begin with
pub mod Fuel
use package.true.Floats.{Floats}
use package.true.Prelude.{
  [], drop, eqb, false, if◌then◌else◌, length, ltb, suc, take, true, zero, ℕ, ◌*◌, ◌+◌, ◌∷◌,
}
use package.true.Text.{Text}

unfoldable pub common_prefix : Text → Text → ℕ
common_prefix [] t = 0
common_prefix (c ∷ s) [] = 0
common_prefix (c ∷ s) (d ∷ t) = let rest = common_prefix s t in if eqb c d then suc rest else 0

-- A block: where it begins in each text, and its length.
pub record Block : Type 0 where
  pub left : ℕ
  pub right : ℕ
  pub size : ℕ

-- of two blocks of one length the first is kept
unfoldable pub longer : Block → Block → Block
longer a b = if ltb a.size b.size then b else a

unfoldable pub longest_at : ℕ → ℕ → Text → Text → Block → Block
unfolding common_prefix longer
longest_at i j s [] best = best
longest_at i j s (d ∷ t) best =
    longest_at i (j + 1) s t
      (longer best (record { left = i; right = j; size = common_prefix s (d ∷ t) }))

unfoldable pub longest_from : ℕ → Text → Text → Block → Block
unfolding longest_at
longest_from i [] t best = best
longest_from i (c ∷ s) t best = longest_from (i + 1) s t (longest_at i 0 (c ∷ s) t best)

-- `find_longest_match` on the whole texts
unfoldable pub longest : Text → Text → Block
unfolding longest_from
longest s t = longest_from 0 s t (record { left = 0; right = 0; size = 0 })

-- The characters of `get_matching_blocks`: of the longest block, and of what stands before and
-- behind it. Each step shortens both texts, so the length of the first is fuel enough.
unfoldable pub matched : ℕ → Text → Text → ℕ
unfolding longest
matched zero s t = 0
matched (suc fuel) s t =
    let block = longest s t in
    elim (eqb block.size 0) [
      | true ↦ 0
      | false ↦
          matched fuel (take block.left s) (take block.right t)
          + block.size
          + matched fuel (drop (block.left + block.size) s) (drop (block.right + block.size) t)
    ]

unfoldable pub matching_chars : Text → Text → ℕ
unfolding matched
matching_chars s t = matched (length s) s t

-- 2 * M / T, or 1.0 for two empty texts
unfoldable pub ratio_of : (fl : Floats) → Text → Text → fl.Float
ratio_of fl s t =
    let total = length s + length t in
    if eqb total 0 then fl.whole 1 else fl.over (fl.whole (2 * matching_chars s t)) (fl.whole total)

-- ===== src/Catalog/Similarity/Fuel.antt =====
-- The fuel of the matching characters is enough.
use package.true.Catalog.Similarity.{
  Block, common_prefix, longer, longest, longest_at, longest_from, matched, matching_chars,
}
use package.true.Prelude.{
  Bool-cases, [], arith, drop, eqb, if-P, inl, inr, length, length-take-le, ltb, refl, suc, take,
  zero, ℕ, ◌+◌, ◌-◌, ◌<◌, ◌∷◌, ◌≡◌, ◌≤◌,
}
use package.true.Text.{Text}

common_prefix-le : (s t : Text) → common_prefix s t ≤ length s
unfolding common_prefix
common_prefix-le [] t = omega arith
common_prefix-le (c ∷ s) [] = omega arith
common_prefix-le (c ∷ s) (d ∷ t) =
    if-P (λ n. n ≤ length (c ∷ s)) (eqb c d) (omega (arith, common_prefix-le s t)) (omega arith)

-- The block ends in a text of that length.
abbrev IsInside : ℕ → Block → Type 0
IsInside size b = b.left + b.size ≤ size

module _ (size : ℕ) where
  longest_at-IsInside :
      (i j : ℕ) (s t : Text) (best : Block)
      → i + length s ≤ size
      → IsInside size best
      → IsInside size (longest_at i j s t best)
  unfolding longest_at longer
  longest_at-IsInside i j s [] best le h = h
  longest_at-IsInside i j s (d ∷ t) best le h =
      let found : Block = record { left = i; right = j; size = common_prefix s (d ∷ t) } in
      longest_at-IsInside i (j + 1) s t (longer best found) le (
        if-P (IsInside size) (ltb best.size (common_prefix s (d ∷ t)))
          (omega (arith, le, common_prefix-le s (d ∷ t))) h)

  longest_from-IsInside :
      (i : ℕ) (s t : Text) (best : Block)
      → i + length s ≤ size
      → IsInside size best
      → IsInside size (longest_from i s t best)
  unfolding longest_from
  longest_from-IsInside i [] t best le h = h
  longest_from-IsInside i (c ∷ s) t best le h =
      longest_from-IsInside (i + 1) s t (longest_at i 0 (c ∷ s) t best) (omega (arith, le))
        (longest_at-IsInside i 0 (c ∷ s) t best le h)

length-drop-le : (n : ℕ) (s : Text) → length (drop n s) ≤ length s - n
length-drop-le zero s = omega arith
length-drop-le (suc n) [] = omega arith
length-drop-le (suc n) (c ∷ s) = omega (arith, length-drop-le n s)

longest-IsInside : (s t : Text) → IsInside (length s) (longest s t)
unfolding longest
longest-IsInside s t =
    longest_from-IsInside (length s) 0 s t (record { left = 0; right = 0; size = 0 }) (omega arith)
      (omega arith)

same_matched : (f g : ℕ) (s t : Text) → length s ≤ f → length s ≤ g → matched f s t ≡ matched g s t
unfolding matched longest longest_from
same_matched zero zero s t h k = refl
same_matched zero (suc g) [] t h k = refl
same_matched zero (suc g) (c ∷ s) t h k = absurd (omega (arith, h))
same_matched (suc f) zero [] t h k = refl
same_matched (suc f) zero (c ∷ s) t h k = absurd (omega (arith, k))
same_matched (suc f) (suc g) s t h k =
    let block = longest s t in
    let inside : block.left + block.size ≤ length s = longest-IsInside s t in
    elim (Bool-cases (eqb block.size 0)) [
      | inl e ↦ rw (e, matched) refl
      | inr e ↦
          let some_size : 0 < block.size = ground (arith, e) in
          let before =
            same_matched f g (take block.left s) (take block.right t)
              (omega (arith, inside, some_size, h, length-take-le block.left s))
              (omega (arith, inside, some_size, k, length-take-le block.left s)) in
          let behind =
            same_matched f g (drop (block.left + block.size) s) (drop (block.right + block.size) t)
              (omega (arith, some_size, h, length-drop-le (block.left + block.size) s))
              (omega (arith, some_size, k, length-drop-le (block.left + block.size) s)) in
          rw (e, matched) (omega (arith, before, behind))
    ]

-- Fuel for each character of the first text is enough: with more of it the number of matching
-- characters is the same, so that no block is missed.
pub matching_chars-enough :
    (fuel : ℕ) (s t : Text) → length s ≤ fuel → matched fuel s t ≡ matching_chars s t
unfolding matching_chars
matching_chars-enough fuel s t h = same_matched fuel (length s) s t h (omega arith)

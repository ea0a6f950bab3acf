-- ===== src/Prelude/Integers.antt =====
-- Whole numbers with a sign over the native numbers, and Python's slice `xs[:n]` with such a number.
use mathlib.Core.List.{List}
use package.true.Prelude.Lists.{length, take}
use Prim.Native.Nat.{ℕ, suc, ◌-◌}

-- `negsuc n` is -(n + 1)
pub data ℤ : Type 0 where
  pos : ℕ → ℤ
  negsuc : ℕ → ℤ

-- the length of `xs[:n]`, for a list that is long enough: a negative number counts from the end
unfoldable pub slice_end : ℤ → ℕ → ℕ
slice_end (pos n) size = n
slice_end (negsuc n) size = size - suc n

-- xs[:n]
unfoldable pub slice_to {ℓ} : {A : Type ℓ} → ℤ → List A → List A
unfolding slice_end
slice_to n xs = take (slice_end n (length xs)) xs

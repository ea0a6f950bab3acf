-- ===== src/Sort.antt =====
-- Python's `sorted(…, reverse=True)`: a stable sort, the greatest first.
use mathlib.Core.List.Perm
use mathlib.Core.List.{Perm}
use package.true.Prelude.{
  All, Bool, Bool-cases, List, [], false, if◌then◌else◌, inl, inr, true, ℕ, ◌<◌, ◌∷◌, ◌≡◌, refl,
  length, arith, suc,
}

module _ {ℓ} {A : Type ℓ} (lt : A → A → Bool) where
  -- `x` came before the items of the list, and stays before those that are not greater
  insert_desc : A → List A → List A
  insert_desc x [] = x ∷ []
  insert_desc x (y ∷ ys) = if lt x y then y ∷ insert_desc x ys else x ∷ y ∷ ys

  unfoldable pub sort_desc : List A → List A
  unfolding insert_desc
  sort_desc [] = []
  sort_desc (x ∷ xs) = insert_desc x (sort_desc xs)

  insert_desc-perm : (x : A) (ys : List A) → Perm (insert_desc x ys) (x ∷ ys)
  unfolding insert_desc
  insert_desc-perm x [] = Perm.refl (x ∷ [])
  insert_desc-perm x (y ∷ ys) = elim (Bool-cases (lt x y)) [
    | inl e ↦ rw e (Perm.trans (Perm.cons y (insert_desc-perm x ys)) (Perm.swap x y ys))
    | inr e ↦ rw e (Perm.refl (x ∷ y ∷ ys))
  ]

  -- The sort keeps every item, as often as it stands.
  pub sort_desc-perm : (xs : List A) → Perm (sort_desc xs) xs
  unfolding sort_desc
  sort_desc-perm [] = Perm.refl []
  sort_desc-perm (x ∷ xs) =
      Perm.trans (insert_desc-perm x (sort_desc xs)) (Perm.cons x (sort_desc-perm xs))

module _ {ℓ κ} {A : Type ℓ} (lt : A → A → Bool) (P : A → Type κ) where
  insert-All : (x : A) (ys : List A) → P x → All P ys → All P (insert_desc lt x ys)
  unfolding insert_desc
  insert-All x [] h k = (h, tt)
  insert-All x (y ∷ ys) h k = elim (Bool-cases (lt x y)) [
    | inl e ↦ rw (e, insert_desc) (k.0, insert-All x ys h k.1)
    | inr e ↦ rw (e, insert_desc) (h, k)
  ]

  pub sort_desc-All : (xs : List A) → All P xs → All P (sort_desc lt xs)
  unfolding sort_desc
  sort_desc-All [] h = tt
  sort_desc-All (x ∷ xs) h = insert-All x (sort_desc lt xs) h.0 (sort_desc-All xs h.1)

-- Python's `sorted(…)`: the smallest first, also stable.
unfoldable pub sort_asc {ℓ} : {A : Type ℓ} (lt : A → A → Bool) → List A → List A
unfolding sort_desc
sort_asc lt xs = sort_desc (λ x y. lt y x) xs

-- A strict order in which items may tie, as `<` is on floats that are no NaN.
pub record IsStrictOrder {ℓ} {A : Type ℓ} (lt : A → A → Bool) : Type ℓ where
  pub asym : (x y : A) → lt x y ≡ true → lt y x ≡ false
  pub neg_trans : (x y z : A) → lt x y ≡ false → lt y z ≡ false → lt x z ≡ false

-- Each item is in the relation to all that stand behind it.
abbrev pub Sorted {ℓ κ} : {A : Type ℓ} → (A → A → Type κ) → List A → Type κ
Sorted R [] = Unit
Sorted R (x ∷ xs) = All (R x) xs × Sorted R xs

module _ {ℓ κ} {A : Type ℓ} (lt : A → A → Bool) (P : A → Type κ) where
  insert-All_inv : (x : A) (ys : List A) → All P (insert_desc lt x ys) → P x × All P ys
  unfolding insert_desc
  insert-All_inv x [] h = (h.0, tt)
  insert-All_inv x (y ∷ ys) h = elim (Bool-cases (lt x y)) [
    | inl e ↦
        let k : P y × All P (insert_desc lt x ys) = rw (e, insert_desc) at h in
        let (px, rest) = insert-All_inv x ys k.1 in (px, (k.0, rest))
    | inr e ↦ let k : P x × (P y × All P ys) = rw (e, insert_desc) at h in k
  ]

  -- What holds of the sorted items holds of the items.
  pub sort_desc-All_inv : (xs : List A) → All P (sort_desc lt xs) → All P xs
  unfolding sort_desc
  sort_desc-All_inv [] h = tt
  sort_desc-All_inv (x ∷ xs) h =
      let (px, rest) = insert-All_inv x (sort_desc lt xs) h in (px, sort_desc-All_inv xs rest)

module _ {ℓ} {A : Type ℓ} (lt : A → A → Bool) (order : IsStrictOrder lt) where
  not_below :
      (x y : A) (ys : List A)
      → lt x y ≡ false
      → All (λ z. lt y z ≡ false) ys
      → All (λ z. lt x z ≡ false) ys
  not_below x y [] e h = tt
  not_below x y (z ∷ ys) e h = (order.neg_trans x y z e h.0, not_below x y ys e h.1)

  insert-Descending :
      (x : A) (ys : List A)
      → Sorted (λ y z. lt y z ≡ false) ys
      → Sorted (λ y z. lt y z ≡ false) (insert_desc lt x ys)
  unfolding insert_desc
  insert-Descending x [] h = (tt, tt)
  insert-Descending x (y ∷ ys) h = elim (Bool-cases (lt x y)) [
    | inl e ↦
        rw (e, insert_desc)
          (
            insert-All lt (λ z. lt y z ≡ false) x ys (order.asym x y e) h.0,
            insert-Descending x ys h.1,
          )
    | inr e ↦ rw (e, insert_desc) ((e, not_below x y ys e h.0), h)
  ]

  -- No item is below one that stands behind it.
  pub sort_desc-Descending : (xs : List A) → Sorted (λ y z. lt y z ≡ false) (sort_desc lt xs)
  unfolding sort_desc
  sort_desc-Descending [] = tt
  sort_desc-Descending (x ∷ xs) = insert-Descending x (sort_desc lt xs) (sort_desc-Descending xs)

module _ {ℓ} {K : Type ℓ} (lt : K → K → Bool) (order : IsStrictOrder lt) where
  abbrev by_key : ℕ × K → ℕ × K → Bool
  by_key (i, s) (j, t) = lt s t

  -- The first has the greater key, or the keys tie and it has the smaller number.
  abbrev pub Before : ℕ × K → ℕ × K → Type 0
  Before (i, s) (j, t) = (lt s t ≡ false) × (lt t s ≡ false → i < j)

  -- What stands behind an item that ties or falls stands behind the greater one too.
  behind :
      (x y : ℕ × K) (ys : List (ℕ × K))
      → lt x.1 y.1 ≡ false
      → All (Before y) ys
      → All (λ z. x.0 < z.0) ys
      → All (Before x) ys
  behind x y [] e h k = tt
  behind x y (z ∷ ys) e h k =
      ((order.neg_trans x.1 y.1 z.1 e h.0.0, λ _. k.0), behind x y ys e h.1 k.1)

  insert-Sorted :
      (x : ℕ × K) (ys : List (ℕ × K))
      → All (λ z. x.0 < z.0) ys
      → Sorted Before ys
      → Sorted Before (insert_desc by_key x ys)
  unfolding insert_desc
  insert-Sorted x [] k h = (tt, tt)
  insert-Sorted x (y ∷ ys) k h = elim (Bool-cases (by_key x y)) [
    | inl e ↦
        rw (e, insert_desc)
          (
            insert-All by_key (Before y) x ys (order.asym x.1 y.1 e, λ f. absurd (cc)) h.0,
            insert-Sorted x ys k.1 h.1,
          )
    | inr e ↦ rw (e, insert_desc) (((e, λ _. k.0), behind x y ys e h.0 k.1), h)
  ]

  -- Numbered items come out with the greater keys first, and ties in the order of their numbers.
  pub sort_desc-Sorted :
      (xs : List (ℕ × K)) → Sorted (λ x y. x.0 < y.0) xs → Sorted Before (sort_desc by_key xs)
  unfolding sort_desc
  sort_desc-Sorted [] h = tt
  sort_desc-Sorted (x ∷ xs) h =
      insert-Sorted x (sort_desc by_key xs) (sort_desc-All by_key (λ z. x.0 < z.0) xs h.0)
        (sort_desc-Sorted xs h.1)

module _ {ℓ κ} {A : Type ℓ} (lt : A → A → Bool) (P : A → Type κ) where
  pub sort_asc-All : (xs : List A) → All P xs → All P (sort_asc lt xs)
  unfolding sort_asc
  sort_asc-All xs h = sort_desc-All (λ x y. lt y x) P xs h

module _ {ℓ} {A : Type ℓ} (lt : A → A → Bool) where
  insert_desc-cons : (x : A) (ys : List A) → insert_desc lt x ys ≡ [] → ⊥
  unfolding insert_desc
  insert_desc-cons x [] h = cc
  insert_desc-cons x (y ∷ ys) h = elim (Bool-cases (lt x y)) [ inl e ↦ cc | inr e ↦ cc ]

-- Only no items are sorted to none.
pub sort_asc-nil {ℓ} :
    {A : Type ℓ} (lt : A → A → Bool) (xs : List A) → sort_asc lt xs ≡ [] → xs ≡ []
unfolding sort_asc sort_desc
sort_asc-nil lt [] h = refl
sort_asc-nil lt (x ∷ xs) h =
    absurd (insert_desc-cons (λ a b. lt b a) x (sort_desc (λ a b. lt b a) xs) h)

module _ {ℓ} {A : Type ℓ} (lt : A → A → Bool) where
  length-insert_desc : (x : A) (ys : List A) → length (insert_desc lt x ys) ≡ suc (length ys)
  unfolding insert_desc
  length-insert_desc x [] = refl
  length-insert_desc x (y ∷ ys) = elim (Bool-cases (lt x y)) [
    | inl e ↦ rw (e, insert_desc) (omega (arith, length-insert_desc x ys))
    | inr e ↦ rw (e, insert_desc) refl
  ]

  pub length-sort_desc : (xs : List A) → length (sort_desc lt xs) ≡ length xs
  unfolding sort_desc
  length-sort_desc [] = refl
  length-sort_desc (x ∷ xs) =
      omega (arith, length-insert_desc x (sort_desc lt xs), length-sort_desc xs)

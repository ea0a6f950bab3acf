-- ===== src/Validation/Reasoning/Labels.antt =====
-- The labels of the three files, where no problem is found with them.
use package.true.Catalog.Bm25.{bump_all}
use package.true.Catalog.Bm25.Counts.{get_or-bump_all, occurrences}
use package.true.Dict.{Dict, get, get_or}
use package.true.Prelude.{
  All, Bool, Bool-cases, List, [], arith, inl, inr, ltb, map, not, refl, select, true, ℕ, ◌∷◌, ◌≡◌,
  ◌≤◌,
}
use package.true.Sort.{sort_asc-nil}
use package.true.Text.{Distinct, Text, contains, text_less, to_set}
use package.true.Text.Among.{All-to_set}
use package.true.Validation.Reasoning.{only_in, repeated}

-- What is counted once at most is repeated nowhere.
counts_low :
    (counts : Dict ℕ) (w : Text)
    → select (λ (value, count). ltb 1 count) counts ≡ []
    → get_or counts w 0 ≤ 1
unfolding get_or get
counts_low [] w h = omega arith
counts_low ((k, n) ∷ counts) w h = elim (Bool-cases (ltb 1 n)) [
  | inl e ↦ absurd (cc (h, e))
  | inr e ↦ ground (arith, e, counts_low counts w (rw (e, select) at h))
]

occurs_in : (w : Text) (values : List Text) → contains values w ≡ true → 1 ≤ occurrences w values
occurs_in w [] h = absurd cc
occurs_in w (x ∷ values) h = ground (arith, occurs_in w values)

once-Distinct : (values : List Text) → ((w : Text) → occurrences w values ≤ 1) → Distinct values
once-Distinct [] h = tt
once-Distinct (x ∷ values) h = elim (Bool-cases (contains values x)) [
  | inl e ↦ absurd (ground (arith, h x, occurs_in x values e))
  | inr e ↦ (e, once-Distinct values (λ w. ground (arith, h w)))
]

map_nil {ℓ κ} : {A : Type ℓ} {B : Type κ} (f : A → B) (xs : List A) → map f xs ≡ [] → xs ≡ []
map_nil f [] h = refl
map_nil f (x ∷ xs) h = absurd cc

pub repeated-Distinct : (values : List Text) → repeated values ≡ [] → Distinct values
unfolding repeated get_or get
repeated-Distinct values h =
    let none_twice =
      map_nil (λ (value, count). value)
        (select (λ (value, count). ltb 1 count) (bump_all [] values))
        (sort_asc-nil text_less
          (map (λ (value, count). value)
            (select (λ (value, count). ltb 1 count) (bump_all [] values)))
          h) in
    once-Distinct values
      λ w. omega (arith, get_or-bump_all values [] w, counts_low (bump_all [] values) w none_twice)

select_nil {ℓ} :
    {A : Type ℓ} (p : A → Bool) (xs : List A)
    → select (λ x. not (p x)) xs ≡ []
    → All (λ x. p x ≡ true) xs
select_nil p [] h = tt
select_nil p (x ∷ xs) h = elim (Bool-cases (p x)) [
  | inl e ↦ (e, select_nil p xs (rw (e, select) at h))
  | inr e ↦ absurd (cc (h, e))
]

pub only_in-All : (a b : List Text) → only_in a b ≡ [] → All (λ name. contains b name ≡ true) a
unfolding only_in
only_in-All a b h =
    All-to_set (λ name. contains b name ≡ true) a
      (select_nil (contains b) (to_set a)
        (sort_asc-nil text_less (select (λ name. not (contains b name)) (to_set a)) h))

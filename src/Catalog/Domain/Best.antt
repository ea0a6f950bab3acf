-- ===== src/Catalog/Domain/Best.antt =====
-- The domain that `detect_domain` names.
use mathlib.Core.List.Perm
use mathlib.Core.List.{Mem, mem-cons_self}
use mathlib.Core.Path.{subst}
use package.true.Catalog.Domain.{
  Row, best_of, detect_domain, domain_keywords, domain_scores, ranks_below, tiebreak_rank,
}
use package.true.Catalog.Normalize.{normalize}
use package.true.Dict.{Dict}
use package.true.Prelude.{
  All, All-imp, Bool-cases, List, Option, [], arith, false, inl, inr, ltb, refl, sym, ℕ, ◌<◌, ◌∷◌,
  ◌≡◌, ◌≤◌, ◌⊎◌,
}
use package.true.Sort.{
  IsStrictOrder, Sorted, sort_desc, sort_desc-All_inv, sort_desc-Descending, sort_desc-perm,
}
use package.true.Text.{Text, lit, lower}

ranks_below-IsStrictOrder : IsStrictOrder ranks_below
unfolding ranks_below
ranks_below-IsStrictOrder = record {
  asym = λ (d, s) (e, t) h. ground arith;
  neg_trans = λ (d, s) (e, t) (f, u) h k. ground arith;
}

-- The domain has points, no domain has more, and of those that have as many it ranks first.
pub record IsBest (scores : Dict ℕ) (domain : Text) : Type 0 where
  pub points : ℕ
  pub scored : Mem (domain, points) scores
  pub positive : 0 < points
  pub best :
      All (λ (d, s). (s ≤ points) × (s ≡ points → tiebreak_rank domain ≤ tiebreak_rank d)) scores

abbrev pub NoPoints : Dict ℕ → Type 0
NoPoints scores = All (λ (d, s). s ≡ 0) scores

ranks-le :
    (d : Text) (s : ℕ) (z : Text × ℕ)
    → ranks_below (d, s) z ≡ false
    → (z.1 ≤ s) × (z.1 ≡ s → tiebreak_rank d ≤ tiebreak_rank z.0)
unfolding ranks_below
ranks-le d s (e, t) h = (ground arith, λ k. ground arith)

ranks_below_self : (d : Text) (s : ℕ) → ranks_below (d, s) (d, s) ≡ false
unfolding ranks_below
ranks_below_self d s = ground arith

best_of-IsBest :
    (scores ys : Dict ℕ)
    → ys ≡ sort_desc ranks_below scores
    → IsBest scores (best_of ys).0 ⊎ ((best_of ys).0 ≡ lit "style") × NoPoints scores
unfolding best_of
best_of-IsBest scores [] e =
    inr (refl, sort_desc-All_inv ranks_below _ scores (subst (λ ys. NoPoints ys) e tt))
best_of-IsBest scores ((d, s) ∷ rest) e =
    let falls =
      subst (Sorted (λ y z. ranks_below y z ≡ false)) (sym e)
        (sort_desc-Descending ranks_below ranks_below-IsStrictOrder scores) in
    let none_above =
      sort_desc-All_inv ranks_below (λ z. ranks_below (d, s) z ≡ false) scores
        (subst (All (λ z. ranks_below (d, s) z ≡ false)) e (ranks_below_self d s, falls.0)) in
    elim (Bool-cases (ltb 0 s)) [
      | inl pos ↦ inl (
          rw pos (record {
            points = s;
            scored =
                (Perm.mem_iff (sort_desc-perm ranks_below scores)).0
                  (subst (λ ys. Mem (d, s) ys) e mem-cons_self);
            positive = ground (arith, pos);
            best = All-imp (ranks-le d s) scores none_above;
          }))
      | inr zero_points ↦ inr (
        rw zero_points,
        All-imp
            (λ (z : Text × ℕ) (h : ranks_below (d, s) z ≡ false).
              let k = (ranks-le d s z h).0 in ground (arith, k, zero_points))
            scores none_above,
      )
    ]

-- The domain that is named has points and no domain has more; of domains with as many points it
-- stands first in the tie-break order. Where no domain has points it is the style domain.
pub detect_domain-IsBest :
    (products : Option (List Row)) (query : Text)
    → IsBest
        (domain_scores (domain_keywords products) (normalize (lower query)))
        (detect_domain products query).0
      ⊎ ((detect_domain products query).0 ≡ lit "style")
        × NoPoints (domain_scores (domain_keywords products) (normalize (lower query)))
unfolding detect_domain
detect_domain-IsBest products query = best_of-IsBest _ _ refl

-- ===== src/Text/Among.antt =====
-- What holds of all texts of a list or a set holds of each that is in it.
use mathlib.Core.Path.{subst}
use package.true.Prelude.{All, Bool-cases, List, [], arith, inl, inr, sym, true, ◌∷◌, ◌≡◌}
use package.true.Text.{==_eq, Text, contains, to_set, ◌==◌}

module _ {ℓ} (P : Text → Type ℓ) where
  pub All-contains : (ts : List Text) (t : Text) → All P ts → contains ts t ≡ true → P t
  All-contains [] t h m = absurd cc
  All-contains (u ∷ ts) t h m = elim (Bool-cases (t == u)) [
    | inl e ↦ subst P (sym (==_eq t u e)) h.0
    | inr e ↦ All-contains ts t h.1 (ground (arith, e, m))
  ]

  pub All-to_set : (ts : List Text) → All P (to_set ts) → All P ts
  unfolding to_set
  All-to_set [] h = tt
  All-to_set (t ∷ ts) h = elim (Bool-cases (contains ts t)) [
    | inl e ↦
        let rest : All P (to_set ts) = rw (e, to_set) at h in
        let every = All-to_set ts rest in (All-contains ts t every e, every)
    | inr e ↦
        let both : P t × All P (to_set ts) = rw (e, to_set) at h in (both.0, All-to_set ts both.1)
  ]

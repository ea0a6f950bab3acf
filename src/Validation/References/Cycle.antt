-- ===== src/Validation/References/Cycle.antt =====
-- The loop over a chain of parents ends.
-- The chain ends, or comes back to a style that was seen.
use package.true.Dict.{Dict, get, get_or}
use package.true.Prelude.{
  All, Bool-cases, List, Option, [], ap, arith, false, if-P_of, inl, inr, is_empty, length,
  length-map, map, refl, some, suc, true, zero, ℕ, ◌+◌, ◌<◌, ◌∙◌, ◌∷◌, ◌≡◌, ◌≤◌,
}
use package.true.Text.{Distinct, Text, contains}
use package.true.Text.Pigeonhole.{length_of_Distinct}
use package.true.Validation.References.{chain_length, comes_back, cycle_through}

abbrev Decides : Option Text → Type 0
Decides result = (t : Text) × (result ≡ some t)

keys_of_dict : Dict Text → List Text
keys_of_dict = map (λ (k, v). k)

get_or-keys : (d : Dict Text) (k : Text) → contains (keys_of_dict d) k ≡ false → get_or d k [] ≡ []
unfolding get_or get keys_of_dict
get_or-keys [] k h = refl
get_or-keys ((j, v) ∷ d) k h = ground (arith, get_or-keys d k)

length-keys : (d : Dict Text) → length (keys_of_dict d) ≡ length d
unfolding keys_of_dict
length-keys d = length-map (λ (k, v). k) d

contains-keys : (d : Dict Text) (k v : Text) → get d k ≡ some v → contains (keys_of_dict d) k ≡ true
unfolding get keys_of_dict
contains-keys [] k v h = absurd cc
contains-keys ((j, w) ∷ d) k v h = ground (arith, contains-keys d k v)

ends_at_once :
    (fuel : ℕ) (parents : Dict Text) (seen : List Text)
    → 0 < fuel
    → comes_back fuel parents seen [] ≡ some []
unfolding comes_back
ends_at_once zero parents seen h = absurd (omega arith)
ends_at_once (suc fuel) parents seen h = refl

comes_back-Decides :
    (fuel : ℕ) (parents : Dict Text) (seen : List Text) (current : Text)
    → Distinct seen
    → All (λ id. contains (keys_of_dict parents) id ≡ true) seen
    → length parents + 2 ≤ fuel + length seen
    → Decides (comes_back fuel parents seen current)
unfolding comes_back
comes_back-Decides zero parents seen current d known enough =
    absurd
      (omega (arith, length_of_Distinct seen (keys_of_dict parents) d known, length-keys parents))
comes_back-Decides (suc fuel) parents seen current d known enough =
    if-P_of Decides (is_empty current) (λ _. ([], refl))
      λ going.
        if-P_of Decides (contains seen current) (λ _. (current, refl))
          λ new. elim (Bool-cases (contains (keys_of_dict parents) current)) [
            | inl e ↦
                comes_back-Decides fuel parents (current ∷ seen) (get_or parents current [])
                  (new, d) (e, known) (omega arith)
            | inr e ↦ (
              [],
              ap (λ (t : Text). comes_back fuel parents (current ∷ seen) t)
                    (get_or-keys parents current e)
                  ∙ ends_at_once fuel parents (current ∷ seen) (
                      omega (
                        arith,
                        length_of_Distinct seen (keys_of_dict parents) d known,
                        length-keys parents,
                      )),
            )
          ]

chain-Decides :
    (parents : Dict Text) (style_id parent : Text)
    → get parents style_id ≡ some parent
    → Decides (comes_back (chain_length parents) parents (style_id ∷ []) parent)
unfolding chain_length
chain-Decides parents style_id parent h =
    comes_back-Decides (length parents + 2) parents (style_id ∷ []) parent (refl, tt)
      (contains-keys parents style_id parent h, tt) (omega arith)

-- The fuel is enough for the chain of any style that has an entry: the loop ends.
pub chain_length-enough :
    (parents : Dict Text) (style_id parent : Text)
    → get parents style_id ≡ some parent
    → comes_back (chain_length parents) parents (style_id ∷ []) parent
      ≡ some (cycle_through parents style_id parent)
unfolding cycle_through
chain_length-enough parents style_id parent h =
    let (t, e) = chain-Decides parents style_id parent h in rw (e, cycle_through) refl

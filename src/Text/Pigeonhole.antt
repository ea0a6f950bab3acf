-- ===== src/Text/Pigeonhole.antt =====
-- Texts that do not repeat, counted against a list that has them all.
-- the texts without the first that is a given one
use package.true.Prelude.{
  All, List, [], arith, false, if◌then◌else◌, length, suc, true, ◌∷◌, ◌≡◌, ◌≤◌,
}
use package.true.Text.{Distinct, Text, contains, ◌==◌}

without : Text → List Text → List Text
without t [] = []
without t (u ∷ ts) = let rest = without t ts in if u == t then ts else u ∷ rest

length-without :
    (t : Text) (ts : List Text) → contains ts t ≡ true → suc (length (without t ts)) ≡ length ts
unfolding without
length-without t [] h = absurd (cc)
length-without t (u ∷ ts) h = ground (arith, length-without t ts)

contains-without :
    (t s : Text) (ts : List Text)
    → contains ts s ≡ true
    → (s == t) ≡ false
    → contains (without t ts) s ≡ true
unfolding without
contains-without t s [] h n = h
contains-without t s (u ∷ ts) h n = ground (arith, contains-without t s ts)

All-without :
    (t : Text) (ss ts : List Text)
    → contains ss t ≡ false
    → All (λ s. contains ts s ≡ true) ss
    → All (λ s. contains (without t ts) s ≡ true) ss
All-without t [] ts n h = tt
All-without t (s ∷ ss) ts n h =
    (contains-without t s ts h.0 (ground arith), All-without t ss ts (ground arith) h.1)

-- Texts that do not repeat and are among others are not more than those.
pub length_of_Distinct :
    (ss ts : List Text) → Distinct ss → All (λ s. contains ts s ≡ true) ss → length ss ≤ length ts
length_of_Distinct [] ts d h = omega arith
length_of_Distinct (s ∷ ss) ts d h = omega (
  arith,
  length_of_Distinct ss (without s ts) d.1 (All-without s ss ts d.0 h.1),
  length-without s ts h.0,
)

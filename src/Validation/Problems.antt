-- ===== src/Validation/Problems.antt =====
-- Lists of problems, and the small functions of validate_data.py that the contracts share.
-- `if test: problems.append(message)`
use package.true.Prelude.{
  Bool, List, Option, [], ap, false, is_empty, map, none, not, refl, select, some, true, ℕ, ◌++◌,
  ◌∷◌, ◌≡◌,
}
use package.true.Text.{Text}
use package.true.Text.Cut.{split_on, strip}

unfoldable pub flag {ℓ} : {A : Type ℓ} → Bool → A → List A
flag true message = message ∷ []
flag false message = []

-- A part that may raise, and what comes after it.
module _ {ℓ κ} {A : Type ℓ} {B : Type κ} where
  infixl 5 ◌>>=◌
  abbrev pub ◌>>=◌ : Option A → (A → Option B) → Option B
  none >>= next = none
  some value >>= next = next value

-- `_split`
unfoldable pub split_parts : ℕ → Text → List Text
unfolding split_on strip
split_parts delimiter value =
    select (λ part. not (is_empty part)) (map strip (split_on delimiter value))

pub flag-nil {ℓ} : {A : Type ℓ} (b : Bool) (message : A) → flag b message ≡ [] → b ≡ false
unfolding flag
flag-nil true message h = absurd (cc (ap is_empty h))
flag-nil false message h = refl

-- No problem in two lists of them is none in each.
pub append_nil {ℓ} : {A : Type ℓ} (xs ys : List A) → xs ++ ys ≡ [] → (xs ≡ []) × (ys ≡ [])
append_nil [] ys h = (refl, h)
append_nil (x ∷ xs) ys h = absurd cc

-- ===== src/DecisionRules/Json.antt =====
-- What `json.loads` hands to the rule parser, and the hook that refuses an object with a key twice.
-- The decoder itself is Python's: a parameter of the parser.
use package.true.Prelude.{
  All, Bool, Bool-cases, List, [], arith, false, if◌then◌else◌, inl, inr, refl, ◌∷◌, ◌≡◌, ◌⊎◌,
}
use package.true.Text.{Distinct, Text, contains}

pub data Problem : Type 0 where
  bad_json not_object : Problem
  duplicate_key unknown_condition no_actions duplicate_actions : Text → Problem
  no_prefix unknown_action bad_token no_pattern bad_mode : Text → Problem
  not_text : Problem

-- A result, or the ValueError that was raised.
pub data Result {ℓ} (A : Type ℓ) : Type ℓ where
  ok : A → Result A
  raised : Problem → Result A

module _ {ℓ κ} {A : Type ℓ} {B : Type κ} where
  infixl 5 ◌>>=◌
  abbrev pub ◌>>=◌ : Result A → (A → Result B) → Result B
  ok value >>= next = next value
  raised problem >>= next = raised problem

  -- A sequence that returns has a first part that returned.
  pub returns-bind :
      (first : Result A) (next : A → Result B) {last : B}
      → (first >>= next) ≡ ok last
      → (value : A) × (first ≡ ok value) × (next value ≡ ok last)
  returns-bind (raised problem) next h = absurd (cc)
  returns-bind (ok value) next h = (value, refl, h)

pub returns-both {ℓ κ μ} :
    {A : Type ℓ} {B : Type κ} {C : Type μ} (m : Result A) (n : Result B) (f : A → B → C) {c : C}
    → (m >>= λ a. n >>= λ b. ok (f a b)) ≡ ok c
    → (a : A) × (b : B) × (m ≡ ok a) × (n ≡ ok b) × (c ≡ f a b)
returns-both (ok a) (ok b) f h = (a, b, refl, refl, cc)
returns-both (ok a) (raised e) f h = absurd (cc)
returns-both (raised e) n f h = absurd (cc)

pub Result-cases {ℓ} :
    {A : Type ℓ} (r : Result A)
    → ((problem : Problem) × (r ≡ raised problem)) ⊎ ((value : A) × (r ≡ ok value))
Result-cases (ok value) = inr (value, refl)
Result-cases (raised problem) = inl (problem, refl)

mutual
  pub data Json : Type 0 where
    null : Json
    boolean : Bool → Json
    number : Text → Json
    str : Text → Json
    arr : Items → Json
    obj : Fields → Json

  pub data Items : Type 0 where
    nil : Items
    cons : Json → Items → Items

  pub data Fields : Type 0 where
    end : Fields
    field : Text → Json → Fields → Fields

abbrev pub keys : Fields → List Text
keys end = []
keys (field k v fs) = k ∷ keys fs

-- `_object_without_duplicates`: the loop over the pairs, with the keys that `result` has so far
unfoldable pub without_duplicates : List Text → Fields → Result Fields
without_duplicates seen end = ok end
without_duplicates seen (field k v fs) =
    let rest = without_duplicates (k ∷ seen) fs in
    if contains seen k then raised (duplicate_key k) else (do gs ← rest; ok (field k v gs))

-- `json.loads` calls the hook on each object, the inner ones first.
unfoldable mutual
  pub hook : Json → Result Json
  hook null = ok null
  hook (boolean b) = ok (boolean b)
  hook (number n) = ok (number n)
  hook (str t) = ok (str t)
  hook (arr xs) = do ys ← hook_items xs; ok (arr ys)
  hook (obj fs) = do gs ← hook_fields fs; hs ← without_duplicates [] gs; ok (obj hs)

  pub hook_items : Items → Result Items
  hook_items nil = ok nil
  hook_items (cons x xs) = do y ← hook x; ys ← hook_items xs; ok (cons y ys)

  pub hook_fields : Fields → Result Fields
  hook_fields end = ok end
  hook_fields (field k v fs) = do w ← hook v; gs ← hook_fields fs; ok (field k w gs)

fresh_split :
    (k : Text) (seen ks : List Text)
    → All (λ j. contains (k ∷ seen) j ≡ false) ks
    → (contains ks k ≡ false) × All (λ j. contains seen j ≡ false) ks
fresh_split k seen [] h = (refl, tt)
fresh_split k seen (j ∷ ks) h = ground (arith, fresh_split k seen ks h.1)

fresh_join :
    (k : Text) (seen ks : List Text)
    → contains ks k ≡ false
    → All (λ j. contains seen j ≡ false) ks
    → All (λ j. contains (k ∷ seen) j ≡ false) ks
fresh_join k seen [] n h = tt
fresh_join k seen (j ∷ ks) n h = ground (arith, fresh_join k seen ks)

-- What passes the loop is the object itself, with keys that are distinct and unseen.
pub without_duplicates_sound :
    (seen : List Text) (fs : Fields) {gs : Fields}
    → without_duplicates seen fs ≡ ok gs
    → (gs ≡ fs) × Distinct (keys fs) × All (λ k. contains seen k ≡ false) (keys fs)
unfolding without_duplicates
without_duplicates_sound seen end h = (cc, tt, tt)
without_duplicates_sound seen (field k v fs) h = elim (Bool-cases (contains seen k)) [
  | inl e ↦ absurd (ground (arith, e))
  | inr e ↦
      let (hs, r, s) =
        returns-bind (without_duplicates (k ∷ seen) fs) (λ gs. ok (field k v gs)) (rw e at h) in
      let (same, distinct, fresh) = without_duplicates_sound (k ∷ seen) fs r in
      let (lone, unseen) = fresh_split k seen (keys fs) fresh in (cc, (lone, distinct), (e, unseen))
]

pub without_duplicates_complete :
    (seen : List Text) (fs : Fields)
    → Distinct (keys fs)
    → All (λ k. contains seen k ≡ false) (keys fs)
    → without_duplicates seen fs ≡ ok fs
unfolding without_duplicates
without_duplicates_complete seen end d h = refl
without_duplicates_complete seen (field k v fs) d h =
    rw (without_duplicates_complete (k ∷ seen) fs d.1 (fresh_join k seen (keys fs) d.0 h.1))
      (rw (h.0))

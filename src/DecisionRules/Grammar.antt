-- ===== src/DecisionRules/Grammar.antt =====
-- The actions of a rule: `_validate_action`, and the grammar that it is meant to accept.
use package.true.DecisionRules.Json.{
  Json, Result, arr, bad_mode, bad_token, boolean, raised, no_pattern, no_prefix, not_text, null,
  number, obj, ok, str, unknown_action,
}
use package.true.Prelude.{
  All, Bool, List, Option, Option-cases, [], arith, false, if◌then◌else◌, inl, inr, is_empty, none,
  not, refl, some, true, ℕ, ◌&&◌, ◌++◌, ◌||◌, ◌∷◌, ◌≡◌, ◌≢◌, ◌⊎◌,
}
use package.true.Regex.{
  Matches, Regex, class, fullmatch, fullmatch_complete, fullmatch_sound, plus, seq, star, symbol,
}
use package.true.Text.{
  Distinct, Text, Text-discrete, contains, is_digit, is_lower_letter, lit, ◌==◌,
}
use package.true.Text.Cut.{split_first, split_first-append, split_first_sound, strip}

abbrev pub colon : ℕ
colon = b':'

-- [a-z0-9]
unfoldable pub is_token_char : ℕ → Bool
unfolding is_lower_letter is_digit
is_token_char c = is_lower_letter c || is_digit c

-- TOKEN_RE
unfoldable pub token : Regex
token = seq (plus (class is_token_char)) (star (seq (symbol b'-') (plus (class is_token_char))))

-- ACTION_PREFIXES
unfoldable pub action_prefixes : List Text
action_prefixes = lit "constraint" ∷ lit "style" ∷ lit "pattern" ∷ lit "mode" ∷ []

-- the checks behind the split, on the prefix and the value
unfoldable pub check_value : Text → Text → Text → Result Text
unfolding action_prefixes
check_value action prefix value =
    if not (contains action_prefixes prefix)
    then raised (unknown_action action)
    else if contains (lit "constraint" ∷ lit "style" ∷ []) prefix && not (fullmatch token value)
    then raised (bad_token value)
    else if prefix == lit "pattern" && is_empty (strip value)
    then raised (no_pattern value)
    else if prefix == lit "mode" && not (contains (lit "dark" ∷ lit "light" ∷ []) value)
    then raised (bad_mode value)
    else ok action

check_split : Text → Option (Text × Text) → Result Text
unfolding check_value
check_split action none = raised (no_prefix action)
check_split action (some (prefix, value)) = check_value action prefix value

-- `_validate_action`, which hands the action back where the source returns nothing
unfoldable pub validate_action : Json → Result Text
unfolding check_split
validate_action (str action) = check_split action (split_first colon action)
validate_action _ = raised not_text

-- What may stand behind a prefix.
pub data IsValue : Text → Text → Type 0 where
  v_constraint : {p v : Text} → p ≡ lit "constraint" → Matches token v → IsValue p v
  v_style : {p v : Text} → p ≡ lit "style" → Matches token v → IsValue p v
  v_pattern : {p v : Text} → p ≡ lit "pattern" → strip v ≢ [] → IsValue p v
  v_mode : {p v : Text} → p ≡ lit "mode" → (v ≡ lit "dark") ⊎ (v ≡ lit "light") → IsValue p v

-- A prefix with no colon, a colon and a value.
pub record IsAction (action : Text) : Type 0 where
  pub prefix : Text
  pub value : Text
  pub shape : action ≡ prefix ++ (colon ∷ value)
  pub meaning : IsValue prefix value

is_empty-nil : (t : Text) → is_empty t ≡ false → t ≢ []
is_empty-nil [] h = absurd (cc)
is_empty-nil (c ∷ t) h = λ e. cc

nil-is_empty : (t : Text) → t ≢ [] → is_empty t ≡ false
nil-is_empty [] h = absurd (h refl)
nil-is_empty (c ∷ t) h = refl

check_value_action : (action p v : Text) {r : Text} → check_value action p v ≡ ok r → r ≡ action
unfolding check_value
check_value_action action p v h = ground arith

mode_cases :
    (v : Text)
    → contains (lit "dark" ∷ lit "light" ∷ []) v ≡ true
    → (v ≡ lit "dark") ⊎ (v ≡ lit "light")
mode_cases v h = elim (Text-discrete v (lit "dark")) [
  | yes e ↦ inl e
  | no n ↦ inr (ground (arith, n))
]

check_value_sound : (action p v : Text) {r : Text} → check_value action p v ≡ ok r → IsValue p v
unfolding check_value
check_value_sound action p v h = elim (Text-discrete p (lit "constraint")) [
  | yes e ↦ v_constraint e (fullmatch_sound token v (ground (arith, e)))
  | no n₁ ↦ elim (Text-discrete p (lit "style")) [
    | yes e ↦ v_style e (fullmatch_sound token v (ground (arith, e)))
    | no n₂ ↦ elim (Text-discrete p (lit "pattern")) [
      | yes e ↦ v_pattern e (is_empty-nil (strip v) (ground (arith, e)))
      | no n₃ ↦ v_mode (ground arith) (mode_cases v (ground arith))
    ]
  ]
]

lit_no_colon :
    All (λ c. c ≢ colon) (lit "constraint")
    × All (λ c. c ≢ colon) (lit "style")
    × All (λ c. c ≢ colon) (lit "pattern")
    × All (λ c. c ≢ colon) (lit "mode")
unfolding lit
lit_no_colon = (omega arith, omega arith, omega arith, omega arith)

-- the four prefixes and the two modes are different texts
pub prefixes_apart : Distinct (lit "constraint" ∷ lit "style" ∷ lit "pattern" ∷ lit "mode" ∷ [])
unfolding lit Text-discrete
prefixes_apart = (refl, (refl, (refl, (refl, tt))))

check_value_complete : (action p v : Text) → IsValue p v → check_value action p v ≡ ok action
unfolding check_value
check_value_complete action p v (v_constraint e m) =
    ground (arith, fullmatch_complete v m, prefixes_apart)
check_value_complete action p v (v_style e m) =
    ground (arith, fullmatch_complete v m, prefixes_apart)
check_value_complete action p v (v_pattern e n) =
    ground (arith, prefixes_apart, nil-is_empty (strip v) n)
check_value_complete action p v (v_mode e (inl d)) = ground (arith, prefixes_apart)
check_value_complete action p v (v_mode e (inr l)) = ground (arith, prefixes_apart)

prefix_no_colon : {p v : Text} → IsValue p v → All (λ c. c ≢ colon) p
prefix_no_colon (v_constraint e m) = rw e lit_no_colon.0
prefix_no_colon (v_style e m) = rw e lit_no_colon.1
prefix_no_colon (v_pattern e n) = rw e lit_no_colon.2
prefix_no_colon (v_mode e m) = rw e lit_no_colon.3

-- The split of a well-formed action is its prefix and its value.
pub split-IsAction : (a : Text) (w : IsAction a) → split_first colon a ≡ some (w.prefix, w.value)
split-IsAction a w =
    rw w.shape (split_first-append colon w.prefix w.value (prefix_no_colon w.meaning))

pub validate_action_complete : (a : Text) → IsAction a → validate_action (str a) ≡ ok a
unfolding validate_action
validate_action_complete a w =
    rw (split-IsAction a w) (check_value_complete a w.prefix w.value w.meaning)

pub validate_action_sound :
    (j : Json) {a : Text} → validate_action j ≡ ok a → (j ≡ str a) × IsAction a
unfolding validate_action
validate_action_sound (str t) h = elim (Option-cases (split_first colon t)) [
  | inl e ↦ absurd (ground (arith, e))
  | inr ((p, v), e) ↦
      let k : check_value t p v ≡ ok _ = rw (e, check_split) at h in
      let same = check_value_action t p v k in
      (
        cc,
        rw same (record {
          prefix = p;
          value = v;
          shape = split_first_sound colon t e;
          meaning = check_value_sound t p v k;
        }),
      )
]
validate_action_sound null h = absurd (cc)
validate_action_sound (boolean b) h = absurd (cc)
validate_action_sound (number n) h = absurd (cc)
validate_action_sound (arr xs) h = absurd (cc)
validate_action_sound (obj fs) h = absurd (cc)

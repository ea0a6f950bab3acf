-- ===== src/Validation/Reasoning/Sound.antt =====
-- What holds of the products, the colours and the rules that `_check_reasoning_contract` accepts.
use package.true.Catalog.Domain.{Row}
use package.true.DecisionRules.Json.{Json, Result-cases, ok}
use package.true.DecisionRules.Parse.{IsRules, Rules}
use package.true.DecisionRules.Parse.Sound.{parse_decision_rules-IsRules}
use package.true.Dict.{get_or}
use package.true.Floats.{Floats}
use package.true.Prelude.{
  All, Bool, List, Option, Option-cases, [], all, ap, arith, eqb, false, inl, inr, is_empty,
  is_none, length, not, refl, some, true, ◌&&◌, ◌++◌, ◌||◌, ◌∙◌, ◌∷◌, ◌≡◌,
}
use package.true.Text.{Distinct, Text, contains, lit}
use package.true.Validation.Problems.{append_nil, flag, flag-nil}
use package.true.Validation.Reasoning.{
  Finding, bad_confidence, column_findings, is_share, label_findings, labels, labels_differ,
  missing_rows, only_in, read_findings, repeated, repeated_labels, rules_findings, rules_of_row,
  same_set, set_findings, unknown_pattern, unknown_rows, wrong_count,
}
use package.true.Validation.Reasoning.Actions.{
  AreKnown, append_none, rules_findings-AreKnown, rules_findings-returns,
}
use package.true.Validation.Reasoning.Labels.{only_in-All, repeated-Distinct}

-- The labels of the rows: one for each of 192 rows.
pub record AreLabels (key : Text) (rows : List Row) : Type 0 where
  pub count : length rows ≡ 192
  pub apart : Distinct (labels key rows)

empty_list {ℓ} : {A : Type ℓ} (xs : List A) → not (is_empty xs) ≡ false → xs ≡ []
empty_list [] h = refl
empty_list (x ∷ xs) h = absurd cc

all-All {ℓ} : {A : Type ℓ} (p : A → Bool) (xs : List A) → all p xs ≡ true → All (λ x. p x ≡ true) xs
all-All p [] h = tt
all-All p (x ∷ xs) h = (ground arith, all-All p xs (ground arith))

-- Each of the labels is one of the others.
abbrev pub AreAmong : List Text → List Text → Type 0
AreAmong names others = All (λ name. contains others name ≡ true) names

-- The three files have the same labels.
pub record AreSame (products colors reasoning : List Text) : Type 0 where
  pub products_colored : AreAmong products colors
  pub colors_sold : AreAmong colors products
  pub products_reasoned : AreAmong products reasoning
  pub reasoned_sold : AreAmong reasoning products

pub label_findings-AreSame :
    (products colors reasoning : List Text)
    → label_findings products colors reasoning ≡ []
    → AreSame products colors reasoning
unfolding label_findings same_set
label_findings-AreSame products colors reasoning h =
    let (differ, later) =
      append_nil (flag (not (same_set products colors)) labels_differ)
        (flag (not (is_empty (only_in products reasoning)))
            (missing_rows (only_in products reasoning))
          ++ flag (not (is_empty (only_in reasoning products)))
              (unknown_rows (only_in reasoning products)))
        h in
    let (missing, unknown) =
      append_nil
        (flag (not (is_empty (only_in products reasoning)))
          (missing_rows (only_in products reasoning)))
        (flag (not (is_empty (only_in reasoning products)))
          (unknown_rows (only_in reasoning products)))
        later in
    let same = flag-nil (not (same_set products colors)) labels_differ differ in
    record {
      products_colored = all-All (contains colors) products (ground (arith, same));
      colors_sold = all-All (contains products) colors (ground (arith, same));
      products_reasoned = only_in-All products reasoning (
          empty_list (only_in products reasoning) (
            flag-nil (not (is_empty (only_in products reasoning)))
              (missing_rows (only_in products reasoning)) missing));
      reasoned_sold = only_in-All reasoning products (
          empty_list (only_in reasoning products) (
            flag-nil (not (is_empty (only_in reasoning products)))
              (unknown_rows (only_in reasoning products)) unknown));
    }

pub set_findings-AreLabels :
    (label : Text) (rows : List Row) (key : Text)
    → set_findings label rows key ≡ []
    → AreLabels key rows
unfolding set_findings
set_findings-AreLabels label rows key h =
    let (count, apart) =
      append_nil (flag (not (eqb (length rows) 192)) (wrong_count label (length rows)))
        (flag (not (is_empty (repeated (labels key rows))))
          (repeated_labels label (repeated (labels key rows))))
        h in
    record {
      count =
          ground
            (arith, flag-nil (not (eqb (length rows) 192)) (wrong_count label (length rows)) count);
      apart = repeated-Distinct (labels key rows) (
          empty_list (repeated (labels key rows)) (
            flag-nil (not (is_empty (repeated (labels key rows))))
              (repeated_labels label (repeated (labels key rows))) apart));
    }

module _ (style_ids patterns : List Text) (fl : Floats) (float_of : Text → Option fl.Float)
    (loads : Text → Option Json) where
  -- The row has rules of the grammar that name styles and patterns that there are, a pattern that there
  -- is, and a confidence from 0 to 1 or none.
  pub record IsReasoned (row : Row) : Type 0 where
    pub rules : Rules
    pub read : rules_of_row loads row ≡ ok rules
    pub grammar : IsRules rules
    pub names : AreKnown style_ids patterns rules
    pub pattern : contains patterns (get_or row (lit "Recommended_Pattern") []) ≡ true
    pub confidence :
        (is_empty (get_or row (lit "Confidence") [])
          || is_share fl (float_of (get_or row (lit "Confidence") [])))
        ≡ true

  column_findings-nil :
      (category : Text) (row : Row)
      → column_findings style_ids patterns fl float_of loads category row ≡ []
      → (contains patterns (get_or row (lit "Recommended_Pattern") []) ≡ true)
        × ((is_empty (get_or row (lit "Confidence") [])
              || is_share fl (float_of (get_or row (lit "Confidence") [])))
            ≡ true)
  unfolding column_findings
  column_findings-nil category row h =
      let pattern = get_or row (lit "Recommended_Pattern") [] in
      let confidence = get_or row (lit "Confidence") [] in
      let share = is_share fl (float_of confidence) in
      let (here, later) =
        append_nil (flag (not (contains patterns pattern)) (unknown_pattern category pattern))
          (flag (not (is_empty confidence) && not share) (bad_confidence category confidence)) h in
      (
        ground (
          arith,
          flag-nil (not (contains patterns pattern)) (unknown_pattern category pattern) here,
        ),
        ground (
          arith,
          flag-nil (not (is_empty confidence) && not share) (bad_confidence category confidence)
              later,
        ),
      )

  pub read_findings-IsReasoned :
      (category : Text) (row : Row)
      → read_findings style_ids patterns fl float_of loads category row (rules_of_row loads row)
        ≡ some []
      → IsReasoned row
  unfolding read_findings rules_of_row
  read_findings-IsReasoned category row h = elim (Result-cases (rules_of_row loads row)) [
    | inl (error, e) ↦ absurd (cc (h, e))
    | inr (rules, e) ↦ elim (Option-cases (rules_findings style_ids patterns category rules)) [
      | inl f ↦ absurd (cc (h, e, f))
      | inr (found, f) ↦
          let (here, later) =
            append_none found (column_findings style_ids patterns fl float_of loads category row)
              (rw (e, f) at h) in
          let (pattern, confidence) = column_findings-nil category row later in
          record {
            rules = rules;
            read = e;
            grammar =
                parse_decision_rules-IsRules loads (some (get_or row (lit "Decision_Rules") []))
                  rules e;
            names =
                rules_findings-AreKnown style_ids patterns category rules
                  (f ∙ ap (λ (l : List Finding). some l) here);
            pattern = pattern;
            confidence = confidence;
          }
    ]
  ]

  pub read_findings-returns :
      (category : Text) (row : Row)
      → is_none
          (read_findings style_ids patterns fl float_of loads category row (rules_of_row loads row))
        ≡ false
  unfolding read_findings rules_of_row
  read_findings-returns category row = elim (Result-cases (rules_of_row loads row)) [
    | inl (error, e) ↦ rw (e, read_findings) refl
    | inr (rules, e) ↦ elim (Option-cases (rules_findings style_ids patterns category rules)) [
      | inl f ↦ absurd (
          cc (
            f,
            rules_findings-returns style_ids patterns category rules
                (parse_decision_rules-IsRules loads (some (get_or row (lit "Decision_Rules") []))
                  rules e).each,
          ))
      | inr (found, f) ↦ rw (e, f, read_findings) refl
    ]
  ]

-- ===== src/Validation/Reasoning/Contract.antt =====
-- `_check_reasoning_contract` as a whole.
use package.true.Catalog.Domain.{Row}
use package.true.DecisionRules.Json.{Json}
use package.true.Dict.{get_or}
use package.true.Floats.{Floats}
use package.true.Prelude.{
  All, List, Option, Option-cases, [], ap, false, inl, inr, is_none, refl, some, ◌++◌, ◌∙◌, ◌∷◌,
  ◌≡◌, ◌≢◌, ◌⊎◌,
}
use package.true.Text.{Text, lit}
use package.true.Validation.Problems.{append_nil}
use package.true.Validation.Reasoning.{
  Finding, check_reasoning_contract, label_findings, labels, read_findings, reasoning_findings,
  rules_of_row, set_findings,
}
use package.true.Validation.Reasoning.Actions.{append_none}
use package.true.Validation.Reasoning.Sound.{
  AreLabels, AreSame, IsReasoned, label_findings-AreSame, read_findings-IsReasoned,
  read_findings-returns, set_findings-AreLabels,
}

nil_or_not {ℓ} : {A : Type ℓ} (xs : List A) → (xs ≢ []) ⊎ (xs ≡ [])
nil_or_not [] = inr refl
nil_or_not (x ∷ xs) = inl (λ e. cc)

module _ (style_ids patterns : List Text) (fl : Floats) (float_of : Text → Option fl.Float)
    (loads : Text → Option Json) where
  reasoning_findings-returns :
      (rows : List Row)
      → is_none (reasoning_findings style_ids patterns fl float_of loads rows) ≡ false
  unfolding reasoning_findings
  reasoning_findings-returns [] = refl
  reasoning_findings-returns (row ∷ rows) =
      let category = get_or row (lit "UI_Category") [] in
      elim (Option-cases (
        read_findings style_ids patterns fl float_of loads category row (rules_of_row loads row))) [
          | inl e ↦
              absurd
                (cc (read_findings-returns style_ids patterns fl float_of loads category row, e))
          | inr (found, e) ↦
              elim (Option-cases (reasoning_findings style_ids patterns fl float_of loads rows)) [
                | inl f ↦ absurd (cc (reasoning_findings-returns rows, f))
                | inr (rest, f) ↦ rw (e, f) refl
              ]
        ]

  pub reasoning_findings-IsReasoned :
      (rows : List Row)
      → reasoning_findings style_ids patterns fl float_of loads rows ≡ some []
      → All (IsReasoned style_ids patterns fl float_of loads) rows
  unfolding reasoning_findings
  reasoning_findings-IsReasoned [] h = tt
  reasoning_findings-IsReasoned (row ∷ rows) h =
      let category = get_or row (lit "UI_Category") [] in
      elim (Option-cases (
        read_findings style_ids patterns fl float_of loads category row (rules_of_row loads row))) [
          | inl e ↦ absurd (cc (h, e))
          | inr (found, e) ↦
              elim (Option-cases (reasoning_findings style_ids patterns fl float_of loads rows)) [
                | inl f ↦ absurd (cc (h, e, f))
                | inr (rest, f) ↦
                    let (here, later) = append_none found rest (rw (e, f) at h) in
                    (
                      read_findings-IsReasoned style_ids patterns fl float_of loads category row
                          (e ∙ ap (λ (l : List Finding). some l) here),
                      reasoning_findings-IsReasoned rows
                          (f ∙ ap (λ (l : List Finding). some l) later),
                    )
              ]
        ]

  -- The three files as the contract wants them.
  pub record AreReasoned (products colors reasoning : List Row) : Type 0 where
    pub sold : AreLabels (lit "Product Type") products
    pub colored : AreLabels (lit "Product Type") colors
    pub reasoned : AreLabels (lit "UI_Category") reasoning
    pub same :
        AreSame
          (labels (lit "Product Type") products)
          (labels (lit "Product Type") colors)
          (labels (lit "UI_Category") reasoning)
    pub rows : All (IsReasoned style_ids patterns fl float_of loads) reasoning

  parts-AreReasoned :
      (products colors reasoning : List Row) (found : List Finding)
      → reasoning_findings style_ids patterns fl float_of loads reasoning ≡ some found
      → set_findings (lit "products") products (lit "Product Type")
          ++ (set_findings (lit "colors") colors (lit "Product Type")
              ++ (set_findings (lit "reasoning") reasoning (lit "UI_Category")
                  ++ (label_findings
                        (labels (lit "Product Type") products)
                        (labels (lit "Product Type") colors)
                        (labels (lit "UI_Category") reasoning)
                      ++ found)))
        ≡ []
      → AreReasoned products colors reasoning
  parts-AreReasoned products colors reasoning found e h =
      let names =
        label_findings (labels (lit "Product Type") products) (labels (lit "Product Type") colors)
          (labels (lit "UI_Category") reasoning) in
      let third = set_findings (lit "reasoning") reasoning (lit "UI_Category") in
      let second = set_findings (lit "colors") colors (lit "Product Type") in
      let (a, h1) =
        append_nil (set_findings (lit "products") products (lit "Product Type"))
          (second ++ (third ++ (names ++ found))) h in
      let (b, h2) = append_nil second (third ++ (names ++ found)) h1 in
      let (c, h3) = append_nil third (names ++ found) h2 in
      let (d, none_left) = append_nil names found h3 in
      record {
        sold = set_findings-AreLabels (lit "products") products (lit "Product Type") a;
        colored = set_findings-AreLabels (lit "colors") colors (lit "Product Type") b;
        reasoned = set_findings-AreLabels (lit "reasoning") reasoning (lit "UI_Category") c;
        same =
            label_findings-AreSame (labels (lit "Product Type") products)
              (labels (lit "Product Type") colors) (labels (lit "UI_Category") reasoning) d;
        rows =
            reasoning_findings-IsReasoned reasoning
              (e ∙ ap (λ (l : List Finding). some l) none_left);
      }

  -- The contract of the rules raises nothing, and either finds something or the files are these: each
  -- has 192 rows with labels that do not repeat, the labels of the products, the colours and the rules
  -- are the same, and each row of the rules has rules of the grammar that name styles and patterns that
  -- there are, a pattern that there is, and a confidence from 0 to 1 or none.
  pub check_reasoning_contract-AreReasoned :
      (products colors reasoning : List Row)
      → (found : List Finding) × (check_reasoning_contract style_ids patterns fl float_of loads
            products colors reasoning
          ≡ some found)
        × ((found ≢ []) ⊎ AreReasoned products colors reasoning)
  unfolding check_reasoning_contract
  check_reasoning_contract-AreReasoned products colors reasoning =
      elim (Option-cases (reasoning_findings style_ids patterns fl float_of loads reasoning)) [
        | inl e ↦ absurd (cc (reasoning_findings-returns reasoning, e))
        | inr (found, e) ↦
            let whole =
              set_findings (lit "products") products (lit "Product Type")
              ++ (set_findings (lit "colors") colors (lit "Product Type")
                  ++ (set_findings (lit "reasoning") reasoning (lit "UI_Category")
                      ++ (label_findings (labels (lit "Product Type") products)
                            (labels (lit "Product Type") colors)
                            (labels (lit "UI_Category") reasoning)
                          ++ found))) in
            (
              whole,
              rw e refl,
              elim (nil_or_not whole) [
                | inl some_left ↦ inl some_left
                | inr none_left ↦
                    inr (parts-AreReasoned products colors reasoning found e none_left)
              ],
            )
      ]

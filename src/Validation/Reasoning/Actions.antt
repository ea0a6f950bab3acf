-- ===== src/Validation/Reasoning/Actions.antt =====
-- The actions of the rules of a row: what they name, and that their check raises nothing.
use package.true.DecisionRules.Apply.Loop.{cuts}
use package.true.DecisionRules.Grammar.{IsAction, colon, split-IsAction}
use package.true.DecisionRules.Parse.{IsRule, Rules}
use package.true.Prelude.{
  All, Bool, Bool-cases, List, Option-cases, [], ap, arith, false, inl, inr, is_none, not, refl,
  some, true, ◌&&◌, ◌++◌, ◌∙◌, ◌∷◌, ◌≡◌,
}
use package.true.Text.{==_eq, Text, contains, lit, ◌==◌}
use package.true.Text.Cut.{split_first}
use package.true.Validation.Problems.{flag}
use package.true.Validation.Reasoning.{
  Finding, action_findings, rules_findings, unknown_pattern_action, unknown_style_action,
}

-- A prefix and its value: a style that there is, a pattern that there is, or neither.
pub data IsKnown (style_ids patterns : List Text) : Text × Text → Type 0 where
  known_style :
      {p v : Text}
      → p ≡ lit "style"
      → contains style_ids v ≡ true
      → IsKnown style_ids patterns (p, v)
  known_pattern :
      {p v : Text}
      → p ≡ lit "pattern"
      → contains patterns v ≡ true
      → IsKnown style_ids patterns (p, v)
  no_name :
      {p v : Text}
      → (p == lit "style") ≡ false
      → (p == lit "pattern") ≡ false
      → IsKnown style_ids patterns (p, v)

pub append_none {ℓ} :
    {A : Type ℓ} (xs ys : List A) → some (xs ++ ys) ≡ some [] → (xs ≡ []) × (ys ≡ [])
append_none [] [] h = (refl, refl)
append_none [] (y ∷ ys) h = absurd cc
append_none (x ∷ xs) ys h = absurd cc

flags_none :
    (s q : Bool) (a b : Finding) (rest : List Finding)
    → some (flag s a ++ (flag q b ++ rest)) ≡ some []
    → (s ≡ false) × (q ≡ false) × (rest ≡ [])
unfolding flag
flags_none true q a b rest h = absurd cc
flags_none false true a b rest h = absurd cc
flags_none false false a b [] h = (refl, refl, refl)
flags_none false false a b (x ∷ rest) h = absurd cc

module _ (style_ids patterns : List Text) where
  abbrev pub AreKnown : Rules → Type 0
  AreKnown rules =
      All (λ (condition, actions). All (IsKnown style_ids patterns) (cuts actions)) rules

  action-IsKnown :
      (p v : Text)
      → (p == lit "style" && not (contains style_ids v)) ≡ false
      → (p == lit "pattern" && not (contains patterns v)) ≡ false
      → IsKnown style_ids patterns (p, v)
  action-IsKnown p v s q = elim (Bool-cases (p == lit "style")) [
    | inl e ↦ known_style (==_eq p (lit "style") e) (ground (arith, e, s))
    | inr e ↦ elim (Bool-cases (p == lit "pattern")) [
      | inl f ↦ known_pattern (==_eq p (lit "pattern") f) (ground (arith, f, q))
      | inr f ↦ no_name e f
    ]
  ]

  action_findings-IsKnown :
      (category : Text) (actions : List Text)
      → action_findings style_ids patterns category actions ≡ some []
      → All (IsKnown style_ids patterns) (cuts actions)
  unfolding action_findings cuts
  action_findings-IsKnown category [] h = tt
  action_findings-IsKnown category (action ∷ actions) h =
      elim (Option-cases (split_first colon action)) [
        | inl e ↦ absurd (cc (h, e))
        | inr ((p, v), e) ↦
            elim (Option-cases (action_findings style_ids patterns category actions)) [
              | inl f ↦ absurd (cc (h, e, f))
              | inr (rest, f) ↦
                  let (s, q, none_left) =
                    flags_none (p == lit "style" && not (contains style_ids v))
                      (p == lit "pattern" && not (contains patterns v))
                      (unknown_style_action category v) (unknown_pattern_action category v) rest
                      (rw (e, f) at h) in
                  rw (e, cuts)
                    (
                      action-IsKnown p v s q,
                      action_findings-IsKnown category actions
                          (f ∙ ap (λ (l : List Finding). some l) none_left),
                    )
            ]
      ]

  -- Actions of the grammar are cut in two.
  action_findings-returns :
      (category : Text) (actions : List Text)
      → All IsAction actions
      → is_none (action_findings style_ids patterns category actions) ≡ false
  unfolding action_findings
  action_findings-returns category [] h = refl
  action_findings-returns category (action ∷ actions) h =
      elim (Option-cases (action_findings style_ids patterns category actions)) [
        | inl e ↦ absurd (cc (action_findings-returns category actions h.1, e))
        | inr (found, e) ↦ rw (split-IsAction action h.0, e) refl
      ]

  pub rules_findings-returns :
      (category : Text) (rules : Rules)
      → All (λ (condition, actions). IsRule condition actions) rules
      → is_none (rules_findings style_ids patterns category rules) ≡ false
  unfolding rules_findings
  rules_findings-returns category [] h = refl
  rules_findings-returns category ((condition, actions) ∷ rules) h =
      elim (Option-cases (action_findings style_ids patterns category actions)) [
        | inl e ↦ absurd (cc (action_findings-returns category actions h.0.well_formed, e))
        | inr (found, e) ↦ elim (Option-cases (rules_findings style_ids patterns category rules)) [
          | inl f ↦ absurd (cc (rules_findings-returns category rules h.1, f))
          | inr (rest, f) ↦ rw (e, f) refl
        ]
      ]

  pub rules_findings-AreKnown :
      (category : Text) (rules : Rules)
      → rules_findings style_ids patterns category rules ≡ some []
      → AreKnown rules
  unfolding rules_findings
  rules_findings-AreKnown category [] h = tt
  rules_findings-AreKnown category ((condition, actions) ∷ rules) h =
      elim (Option-cases (action_findings style_ids patterns category actions)) [
        | inl e ↦ absurd (cc (h, e))
        | inr (found, e) ↦ elim (Option-cases (rules_findings style_ids patterns category rules)) [
          | inl f ↦ absurd (cc (h, e, f))
          | inr (rest, f) ↦
              let (here, later) = append_none found rest (rw (e, f) at h) in
              (
                action_findings-IsKnown category actions
                    (e ∙ ap (λ (l : List Finding). some l) here),
                rules_findings-AreKnown category rules
                    (f ∙ ap (λ (l : List Finding). some l) later),
              )
        ]
      ]

-- ===== src/DecisionRules/Apply/Audit.antt =====
-- What `apply_decision_rules` returns on rules of the grammar.
-- The rules whose condition the text meets, in their order.
use mathlib.Core.Path.{subst}
use package.true.DecisionRules.Apply.{
  Outcome, apply_decision_rules, apply_rules, is_active, normalized, nothing_set,
}
use package.true.DecisionRules.Apply.Loop.{
  append_new, apply_actions-run, cuts, last_or, passes, run-summary, summary, values,
}
use package.true.DecisionRules.Grammar.{
  IsAction, IsValue, prefixes_apart, split-IsAction, token, v_constraint, v_mode, v_pattern,
  v_style,
}
use package.true.DecisionRules.Json.{ok}
use package.true.DecisionRules.Parse.{IsRule, IsRules, Rules}
use package.true.Prelude.{
  All, All-append, Bool-cases, List, Option, [], append-nil, append_assoc, arith, inl, inr, none,
  select, some, ◌++◌, ◌∙◌, ◌∷◌, ◌≡◌, ◌⊎◌,
}
use package.true.Regex.{Matches}
use package.true.Text.{==_eq, Text, lit, ◌==◌}

abbrev pub active : Text → Rules → Rules
active text rules = select (λ (condition, actions). is_active text condition) rules

-- The pairs of their actions.
abbrev pub pairs : Rules → List (Text × Text)
pairs [] = []
pairs ((condition, actions) ∷ rules) = cuts actions ++ pairs rules

apply_rules-summary :
    (rules : Rules) (text : Text) (o : Outcome)
    → All (λ (condition, actions). IsRule condition actions) rules
    → apply_rules rules text o
      ≡ ok (
          summary
            (pairs (active text rules))
            (record o { activated = o.activated ++ active text rules }))
unfolding apply_rules
apply_rules-summary [] text o h = rw append-nil
apply_rules-summary ((k, actions) ∷ rules) text o h = elim (Bool-cases (is_active text k)) [
  | inl e ↦
      let o₁ = record o { activated = o.activated ++ (k, actions) ∷ [] } in
      rw (e, apply_rules, select)
        (rw (apply_actions-run actions o₁ h.0.well_formed) (
          rw run-summary (
            apply_rules-summary rules text (summary (cuts actions) o₁) h.1
            ∙ simp (passes, append_assoc))))
  | inr e ↦ rw (e, apply_rules, select) (apply_rules-summary rules text o h.1)
]

-- What the active rules say.
abbrev pub audit : Rules → Outcome
audit act = record {
  activated = act;
  style_ids = append_new [] (values (lit "style") (pairs act));
  constraints = append_new [] (values (lit "constraint") (pairs act));
  pattern = last_or none (values (lit "pattern") (pairs act));
  mode = last_or none (values (lit "mode") (pairs act));
}

-- On rules of the grammar the function raises nothing, and returns exactly this: the active rules
-- in their order; the values of their style and of their constraint actions, each once, in the
-- order in which they first stand; the value of the last pattern action and of the last mode action.
pub apply_decision_rules-audit :
    (rules : Rules) (query : Option Text)
    → IsRules rules
    → apply_decision_rules rules query ≡ ok (audit (active (normalized query) rules))
unfolding apply_decision_rules
apply_decision_rules-audit rules query h =
    apply_rules-summary rules (normalized query) nothing_set h.each

-- No mode, or one of the two.
abbrev pub IsMode : Option Text → Type 0
IsMode none = Unit
IsMode (some m) = (m ≡ lit "dark") ⊎ (m ≡ lit "light")

-- Pairs of well-formed actions.
abbrev pub AreValues : List (Text × Text) → Type 0
AreValues cs = All (λ (p, v). IsValue p v) cs

cuts-AreValues : (actions : List Text) → All IsAction actions → AreValues (cuts actions)
unfolding cuts
cuts-AreValues [] h = tt
cuts-AreValues (a ∷ actions) h =
    rw (split-IsAction a h.0, cuts) (h.0.meaning, cuts-AreValues actions h.1)

pub pairs-AreValues :
    (text : Text) (rules : Rules)
    → All (λ (condition, actions). IsRule condition actions) rules
    → AreValues (pairs (active text rules))
pairs-AreValues text [] h = tt
pairs-AreValues text ((k, actions) ∷ rules) h = elim (Bool-cases (is_active text k)) [
  | inl e ↦
      rw (e, pairs)
        (All-append _ (cuts actions) _ (cuts-AreValues actions h.0.well_formed)
          (pairs-AreValues text rules h.1))
  | inr e ↦ rw (e, pairs) (pairs-AreValues text rules h.1)
]

-- A value behind one of the prefixes meets that prefix's condition.
pub IsValue-inv :
    {p v : Text}
    → IsValue p v
    → (p ≡ lit "style" → Matches token v)
      × (p ≡ lit "constraint" → Matches token v)
      × (p ≡ lit "mode" → (v ≡ lit "dark") ⊎ (v ≡ lit "light"))
IsValue-inv (v_constraint e m) = (λ k. m, λ k. m, λ k. absurd (ground (arith, prefixes_apart)))
IsValue-inv (v_style e m) = (λ k. m, λ k. m, λ k. absurd (ground (arith, prefixes_apart)))
IsValue-inv (v_pattern e n) = (
  λ k. absurd (ground (arith, prefixes_apart)),
  λ k. absurd (ground (arith, prefixes_apart)),
  λ k. absurd (ground (arith, prefixes_apart)),
)
IsValue-inv (v_mode e m) = (
  λ k. absurd (ground (arith, prefixes_apart)),
  λ k. absurd (ground (arith, prefixes_apart)),
  λ k. m,
)

pub values-All :
    (P : Text → Type 0) (q : Text) (cs : List (Text × Text))
    → ((v : Text) → IsValue q v → P v)
    → AreValues cs
    → All P (values q cs)
values-All P q [] f h = tt
values-All P q ((p, v) ∷ cs) f h = elim (Bool-cases (p == q)) [
  | inl e ↦
      rw (e, values) (f v (subst (λ k. IsValue k v) (==_eq p q e) h.0), values-All P q cs f h.1)
  | inr e ↦ rw (e, values) (values-All P q cs f h.1)
]

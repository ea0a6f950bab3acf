-- ===== src/Validation/Reasoning/Applies.antt =====
-- What `apply_decision_rules` sets by the rules of a catalog that the contract accepts.
use mathlib.Core.Path.{subst}
use package.true.Catalog.Domain.{Row}
use package.true.DecisionRules.Apply.{Outcome, apply_decision_rules, is_active, normalized}
use package.true.DecisionRules.Apply.Audit.{active, apply_decision_rules-audit, audit, pairs}
use package.true.DecisionRules.Apply.Loop.{cuts, last_or, values}
use package.true.DecisionRules.Apply.Safe.{append_new-All}
use package.true.DecisionRules.Grammar.{prefixes_apart}
use package.true.DecisionRules.Json.{Json, ok}
use package.true.DecisionRules.Parse.{Rules}
use package.true.Floats.{Floats}
use package.true.Prelude.{
  All, All-append, All-imp, AllSome, Bool-cases, List, Option, [], arith, inl, inr, none, refl,
  some, true, ◌∷◌, ◌≡◌,
}
use package.true.Text.{==_eq, Text, contains, lit, ◌==◌}
use package.true.Validation.Reasoning.{reasoning_findings, rules_of_row}
use package.true.Validation.Reasoning.Actions.{
  AreKnown, IsKnown, known_pattern, known_style, no_name,
}
use package.true.Validation.Reasoning.Contract.{reasoning_findings-IsReasoned}

last_or-AllSome :
    (P : Text → Type 0) (o : Option Text) (vs : List Text)
    → AllSome P o
    → All P vs
    → AllSome P (last_or o vs)
last_or-AllSome P o [] h k = h
last_or-AllSome P o (v ∷ vs) h k = last_or-AllSome P (some v) vs k.0 k.1

module _ (style_ids patterns : List Text) where
  -- A value behind one of the two prefixes is known.
  IsKnown-inv :
      (c : Text × Text)
      → IsKnown style_ids patterns c
      → (c.0 ≡ lit "style" → contains style_ids c.1 ≡ true)
        × (c.0 ≡ lit "pattern" → contains patterns c.1 ≡ true)
  IsKnown-inv c (known_style e m) = (λ k. m, λ k. absurd (ground (arith, prefixes_apart)))
  IsKnown-inv c (known_pattern e m) = (λ k. absurd (ground (arith, prefixes_apart)), λ k. m)
  IsKnown-inv c (no_name s p) = (λ k. absurd (ground arith), λ k. absurd (ground arith))

  values-P :
      (P : Text → Type 0) (q : Text) (cs : List (Text × Text))
      → ((v : Text) → IsKnown style_ids patterns (q, v) → P v)
      → All (IsKnown style_ids patterns) cs
      → All P (values q cs)
  values-P P q [] f h = tt
  values-P P q ((p, v) ∷ cs) f h = elim (Bool-cases (p == q)) [
    | inl e ↦
        rw (e, values)
          (
            f v (subst (λ k. IsKnown style_ids patterns (k, v)) (==_eq p q e) h.0),
            values-P P q cs f h.1,
          )
    | inr e ↦ rw (e, values) (values-P P q cs f h.1)
  ]

  pairs-IsKnown :
      (text : Text) (rules : Rules)
      → AreKnown style_ids patterns rules
      → All (IsKnown style_ids patterns) (pairs (active text rules))
  pairs-IsKnown text [] h = tt
  pairs-IsKnown text ((k, actions) ∷ rules) h = elim (Bool-cases (is_active text k)) [
    | inl e ↦
        rw (e, pairs)
          (All-append (IsKnown style_ids patterns) (cuts actions) _ h.0
            (pairs-IsKnown text rules h.1))
    | inr e ↦ rw (e, pairs) (pairs-IsKnown text rules h.1)
  ]

  -- What is set names styles that there are, and a pattern that there is or none.
  pub record NamesKnown (o : Outcome) : Type 0 where
    pub styles : All (λ id. contains style_ids id ≡ true) o.style_ids
    pub pattern : AllSome (λ p. contains patterns p ≡ true) o.pattern

  audit-NamesKnown :
      (act : Rules) → All (IsKnown style_ids patterns) (pairs act) → NamesKnown (audit act)
  audit-NamesKnown act h = record {
    styles =
        append_new-All (λ id. contains style_ids id ≡ true) [] (values (lit "style") (pairs act)) tt
          (values-P (λ id. contains style_ids id ≡ true) (lit "style") (pairs act)
            (λ v k. (IsKnown-inv (lit "style", v) k).0 refl) h);
    pattern =
        last_or-AllSome (λ p. contains patterns p ≡ true) none (values (lit "pattern") (pairs act))
          tt
          (values-P (λ p. contains patterns p ≡ true) (lit "pattern") (pairs act)
            (λ v k. (IsKnown-inv (lit "pattern", v) k).1 refl) h);
  }

  module _ (fl : Floats) (float_of : Text → Option fl.Float) (loads : Text → Option Json) where
    -- The rules of the row are read, and apply to the query without an error.
    abbrev pub Applies : Option Text → Row → Type 0
    Applies query row =
        (rules : Rules) × (o : Outcome) × (rules_of_row loads row ≡ ok rules)
        × (apply_decision_rules rules query ≡ ok o)
        × NamesKnown o

    -- Where no problem is found with the rules of a catalog, the rules of each row apply to any query
    -- without an error, and name only styles and patterns that there are.
    pub reasoning_findings-Applies :
        (query : Option Text) (rows : List Row)
        → reasoning_findings style_ids patterns fl float_of loads rows ≡ some []
        → All (Applies query) rows
    reasoning_findings-Applies query rows h =
        All-imp
          (λ row fine. (
            fine.rules,
            audit (active (normalized query) fine.rules),
            fine.read,
            apply_decision_rules-audit fine.rules query fine.grammar,
            audit-NamesKnown (active (normalized query) fine.rules)
                (pairs-IsKnown (normalized query) fine.rules fine.names),
          ))
          rows (reasoning_findings-IsReasoned style_ids patterns fl float_of loads rows h)

-- ===== src/DecisionRules/Apply/Safe.antt =====
-- What the caller of `apply_decision_rules` may rely on, whatever the query.
use package.true.DecisionRules.Apply.{Outcome, apply_decision_rules, normalized}
use package.true.DecisionRules.Apply.Audit.{
  AreValues, IsMode, IsValue-inv, active, apply_decision_rules-audit, audit, pairs, pairs-AreValues,
  values-All,
}
use package.true.DecisionRules.Apply.Loop.{append_new, last_or, values}
use package.true.DecisionRules.Grammar.{token}
use package.true.DecisionRules.Json.{Json, ok}
use package.true.DecisionRules.Parse.{Rules, parse_decision_rules}
use package.true.DecisionRules.Parse.Sound.{parse_decision_rules-IsRules}
use package.true.Prelude.{
  All, All-append, Bool-cases, List, Option, [], inl, inr, none, refl, some, ◌++◌, ◌∷◌, ◌≡◌, ◌⊎◌,
}
use package.true.Regex.{Matches}
use package.true.Text.{Distinct, Text, contains, lit, snoc-Distinct}

append_new-Distinct : (seen vs : List Text) → Distinct seen → Distinct (append_new seen vs)
append_new-Distinct seen [] d = d
append_new-Distinct seen (v ∷ vs) d = elim (Bool-cases (contains seen v)) [
  | inl e ↦ rw (e, append_new) (append_new-Distinct seen vs d)
  | inr e ↦ rw (e, append_new) (append_new-Distinct (seen ++ v ∷ []) vs (snoc-Distinct seen v d e))
]

pub append_new-All :
    (P : Text → Type 0) (seen vs : List Text) → All P seen → All P vs → All P (append_new seen vs)
append_new-All P seen [] h k = h
append_new-All P seen (v ∷ vs) h k = elim (Bool-cases (contains seen v)) [
  | inl e ↦ rw (e, append_new) (append_new-All P seen vs h k.1)
  | inr e ↦
      rw (e, append_new)
        (append_new-All P (seen ++ v ∷ []) vs (All-append P seen (v ∷ []) h (k.0, tt)) k.1)
]

last_or-IsMode :
    (o : Option Text) (vs : List Text)
    → IsMode o
    → All (λ v. (v ≡ lit "dark") ⊎ (v ≡ lit "light")) vs
    → IsMode (last_or o vs)
last_or-IsMode o [] h k = h
last_or-IsMode o (v ∷ vs) h k = last_or-IsMode (some v) vs k.0 k.1

-- The styles and the constraints are tokens, none of them twice, and the mode is dark or light.
pub record IsSafe (o : Outcome) : Type 0 where
  pub styles_once : Distinct o.style_ids
  pub styles_tokens : All (Matches token) o.style_ids
  pub constraints_once : Distinct o.constraints
  pub constraints_tokens : All (Matches token) o.constraints
  pub mode_known : IsMode o.mode

audit-IsSafe : (act : Rules) → AreValues (pairs act) → IsSafe (audit act)
audit-IsSafe act h = record {
  styles_once = append_new-Distinct [] (values (lit "style") (pairs act)) tt;
  styles_tokens =
      append_new-All (Matches token) [] (values (lit "style") (pairs act)) tt
        (values-All (Matches token) (lit "style") (pairs act) (λ v w. (IsValue-inv w).0 refl) h);
  constraints_once = append_new-Distinct [] (values (lit "constraint") (pairs act)) tt;
  constraints_tokens =
      append_new-All (Matches token) [] (values (lit "constraint") (pairs act)) tt (
        values-All (Matches token) (lit "constraint") (pairs act) (λ v w. (IsValue-inv w).1 refl)
          h);
  mode_known =
      last_or-IsMode none (values (lit "mode") (pairs act)) tt
        (values-All _ (lit "mode") (pairs act) (λ v w. (IsValue-inv w).2 refl) h);
}

-- From a text that the parser accepts, the rules apply to every query without an error, and what
-- they set is safe: every style and constraint is a token that stands once, and the mode, if one is
-- set, is dark or light.
pub apply-parse-IsSafe :
    (loads : Text → Option Json) (raw query : Option Text) (rules : Rules)
    → parse_decision_rules loads raw ≡ ok rules
    → (o : Outcome) × (apply_decision_rules rules query ≡ ok o) × IsSafe o
apply-parse-IsSafe loads raw query rules h =
    let r = parse_decision_rules-IsRules loads raw rules h in
    let text = normalized query in
    (
      audit (active text rules),
      apply_decision_rules-audit rules query r,
      audit-IsSafe (active text rules) (pairs-AreValues text rules r.each),
    )

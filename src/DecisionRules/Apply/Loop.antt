-- ===== src/DecisionRules/Apply/Loop.antt =====
-- The loops of `apply_decision_rules` as one pass over the prefix-value pairs of the active rules.
-- The prefix and the value of each action that has a colon.
use package.true.DecisionRules.Apply.{Outcome, apply_action, apply_actions}
use package.true.DecisionRules.Grammar.{IsAction, colon, prefixes_apart, split-IsAction}
use package.true.DecisionRules.Json.{ok}
use package.true.Prelude.{
  All, List, Option, [], arith, if◌then◌else◌, none, refl, some, ◌++◌, ◌∙◌, ◌∷◌, ◌≡◌,
}
use package.true.Text.{Text, contains, lit, ◌==◌}
use package.true.Text.Cut.{split_first}

unfoldable pub cuts : List Text → List (Text × Text)
cuts [] = []
cuts (a ∷ actions) = elim (split_first colon a) [ none ↦ cuts actions | some c ↦ c ∷ cuts actions ]

pub run : List (Text × Text) → Outcome → Outcome
run [] o = o
run (c ∷ cs) o = run cs (apply_action c o)

pub apply_actions-run :
    (actions : List Text) (o : Outcome)
    → All IsAction actions
    → apply_actions actions o ≡ ok (run (cuts actions) o)
unfolding apply_actions cuts run
apply_actions-run [] o h = refl
apply_actions-run (a ∷ actions) o h =
    rw (split-IsAction a h.0, apply_actions, cuts)
      (apply_actions-run actions (apply_action (h.0.prefix, h.0.value) o) h.1)

-- The values behind one prefix, in their order.
abbrev pub values : Text → List (Text × Text) → List Text
values p [] = []
values p ((q, v) ∷ cs) = if q == p then v ∷ values p cs else values p cs

-- The last of the values, or what was there before.
abbrev pub last_or : Option Text → List Text → Option Text
last_or o [] = o
last_or o (v ∷ vs) = last_or (some v) vs

-- The values that are new, appended in their order.
abbrev pub append_new : List Text → List Text → List Text
append_new seen [] = seen
append_new seen (v ∷ vs) = append_new (if contains seen v then seen else seen ++ v ∷ []) vs

-- One action moves one value over to its field.
module _ (q v : Text) (cs : List (Text × Text)) (o : Outcome) where
  step_mode :
      last_or (apply_action (q, v) o).mode (values (lit "mode") cs)
      ≡ last_or o.mode (values (lit "mode") ((q, v) ∷ cs))
  unfolding apply_action
  step_mode = ground (arith, prefixes_apart)

  step_pattern :
      last_or (apply_action (q, v) o).pattern (values (lit "pattern") cs)
      ≡ last_or o.pattern (values (lit "pattern") ((q, v) ∷ cs))
  unfolding apply_action
  step_pattern = ground (arith, prefixes_apart)

  step_styles :
      append_new (apply_action (q, v) o).style_ids (values (lit "style") cs)
      ≡ append_new o.style_ids (values (lit "style") ((q, v) ∷ cs))
  unfolding apply_action
  step_styles = ground (arith, prefixes_apart)

  step_constraints :
      append_new (apply_action (q, v) o).constraints (values (lit "constraint") cs)
      ≡ append_new o.constraints (values (lit "constraint") ((q, v) ∷ cs))
  unfolding apply_action
  step_constraints = ground (arith, prefixes_apart)

  step_activated : (apply_action (q, v) o).activated ≡ o.activated
  unfolding apply_action
  step_activated = ground arith

-- What a pass over pairs leaves in each field.
abbrev pub summary : List (Text × Text) → Outcome → Outcome
summary cs o = record {
  activated = o.activated;
  style_ids = append_new o.style_ids (values (lit "style") cs);
  constraints = append_new o.constraints (values (lit "constraint") cs);
  pattern = last_or o.pattern (values (lit "pattern") cs);
  mode = last_or o.mode (values (lit "mode") cs);
}

pub run-summary : (cs : List (Text × Text)) (o : Outcome) → run cs o ≡ summary cs o
unfolding run
run-summary [] o = refl
run-summary ((q, v) ∷ cs) o = run-summary cs (apply_action (q, v) o) ∙ (λ i. record {
  activated = step_activated q v cs o i;
  style_ids = step_styles q v cs o i;
  constraints = step_constraints q v cs o i;
  pattern = step_pattern q v cs o i;
  mode = step_mode q v cs o i;
})

pub append_new-append :
    (seen vs ws : List Text) → append_new (append_new seen vs) ws ≡ append_new seen (vs ++ ws)
append_new-append seen [] ws = refl
append_new-append seen (v ∷ vs) ws =
    append_new-append (if contains seen v then seen else seen ++ v ∷ []) vs ws

pub last_or-append :
    (o : Option Text) (vs ws : List Text) → last_or (last_or o vs) ws ≡ last_or o (vs ++ ws)
last_or-append o [] ws = refl
last_or-append o (v ∷ vs) ws = last_or-append (some v) vs ws

pub values-append :
    (p : Text) (cs ds : List (Text × Text)) → values p (cs ++ ds) ≡ values p cs ++ values p ds
values-append p [] ds = refl
values-append p ((q, v) ∷ cs) ds = ground (arith, values-append p cs ds)

-- Two passes make one.
pub ruleset passes = (values-append, append_new-append, last_or-append)

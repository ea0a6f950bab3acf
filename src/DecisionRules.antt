-- ===== src/DecisionRules.antt =====
-- The decision rules of a design system: .agents/skills/ui-ux-pro-max/scripts/reasoning_contract.py.
pub mod Json
pub mod Signals
pub mod Grammar
pub mod Parse
pub mod Apply
mod Tests

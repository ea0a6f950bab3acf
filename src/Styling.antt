-- ===== src/Styling.antt =====
-- The styling scripts: .agents/skills/ui-styling/scripts/shadcn_add.py and tailwind_config_gen.py.
pub mod Shadcn
pub mod Tailwind
mod Tests

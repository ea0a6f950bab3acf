-- ===== src/SlideSearch.antt =====
-- The search over the slide databases: .agents/skills/design-system/scripts/slide_search_core.py.
pub mod Index
pub mod Search
pub mod Decisions
pub mod Deck
pub mod Context
mod Tests

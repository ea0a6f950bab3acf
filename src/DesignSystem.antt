-- ===== src/DesignSystem.antt =====
-- The design system generator, design_system.py.
pub mod Dials
pub mod Colors
pub mod Mode
pub mod Resolve
pub mod Reasoning
pub mod Match
pub mod Generator
pub mod Recommendation
pub mod Persist
mod Tests

-- ===== src/Validation.antt =====
-- The contracts that validate_data.py checks the catalogs against.
pub mod Problems
pub mod Styles
pub mod References
pub mod Reasoning
pub mod Colors
pub mod Tests

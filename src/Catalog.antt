-- ===== src/Catalog.antt =====
-- The search over the design catalogs: .agents/skills/ui-ux-pro-max/scripts/core.py.
pub mod Normalize
pub mod Tokens
pub mod Bm25
pub mod Config
pub mod Domain
pub mod Identity
pub mod Similarity
pub mod Rewrite
pub mod Detailed
pub mod Suggest
pub mod Search
pub mod Cache
pub mod Stack
mod Tests

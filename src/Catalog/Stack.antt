-- ===== src/Catalog/Stack.antt =====
-- `search_stack` of core.py, and what it asks of a query and of the rows of a stack.
pub mod Versions
pub mod Legacy
pub mod Filter
pub mod Answer
pub mod Generation
pub mod Coherent
mod Tests

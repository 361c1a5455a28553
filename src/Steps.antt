-- ===== src/Steps.antt =====
-- internal/steps: the step catalogue, and what it does through the ledger.
pub mod Step
pub mod Numbers
pub mod Ensure
pub mod Delete
pub mod Rollback
pub mod Catalog
pub mod References
pub mod App
pub mod Forge
pub mod Tagging
pub mod Validate
pub mod Examples

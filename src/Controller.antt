-- ===== src/Controller.antt =====
-- internal/controller: driving a run through its steps and rolling it back.
pub mod Status
pub mod Backoff
pub mod Instance
pub mod Advance
pub mod Reconcile
pub mod Examples

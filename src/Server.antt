-- ===== src/Server.antt =====
-- internal/apiserver: the wizard's HTTP API. Routing, JSON and the response writer are input and
-- output; a handler returns the reply that it writes.
pub mod Reply
pub mod Auth
pub mod Runs
pub mod Bulk
pub mod Examples
pub mod Create

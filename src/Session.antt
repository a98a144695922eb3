-- ===== src/Session.antt =====
-- A client's session on a backend connection: pkg/pgfox/query.go, with the parts of
-- pkg/pgfox/client.go and pkg/pgfox/backend.go that it changes.
pub mod State
pub mod Reconcile
pub mod Responses
pub mod Query
pub mod Dispatch
pub mod Statements
pub mod Pipeline

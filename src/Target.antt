-- ===== src/Target.antt =====
-- A target's pools: pkg/pgfox/pool.go and the connection budget of pkg/pgfox/target.go.
pub mod State
pub mod Connections
pub mod Growth
pub mod Accounting
pub mod Life

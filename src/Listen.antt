-- ===== src/Listen.antt =====
-- LISTEN/NOTIFY fan-out: pkg/pgfox/listen_notify.go, with the listen fields and methods of
-- `Client` (pkg/pgfox/client.go).
pub mod Channel
pub mod Registry
pub mod Client
pub mod Handlers

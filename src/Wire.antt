-- ===== src/Wire.antt =====
-- The PostgreSQL wire format as PgFox reads and writes it: pkg/pgfox/protocol.go, the message
-- bodies of pkg/pgfox/extended.go, and the framing in client.go and backend.go.
pub mod Ints
pub mod CString
pub mod Frame
pub mod Parse
pub mod Bind
pub mod Describe
pub mod Notification
pub mod Startup

-- ===== src/Sql.antt =====
-- Query parameterization: the token readers and the rewriting of pkg/pgfox/parser.go.
pub mod Tokens
pub mod Suffix
pub mod Decimal
pub mod Tree
pub mod Scan
pub mod Rewrite
pub mod Classify

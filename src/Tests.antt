-- ===== src/Tests.antt =====
-- Each theorem of the Results list at a concrete input, and runs of the definitions.
mod Wire
mod Access
mod Listen
mod Session
mod Target
mod Sql
mod Server
mod Startup

-- ===== src/Sql.antt =====
-- The SQL that the MCP table tools accept and build: crates/summer-mcp/src/table_tools.
pub mod Scanner
pub mod Guards
pub mod Schema
pub mod Shorthand
pub mod Filters
pub mod Assignments
pub mod Selection
mod Tests

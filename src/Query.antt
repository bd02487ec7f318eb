-- ===== src/Query.antt =====
-- cmd/server/table_query.go: the filter of a table's list, from its text to the WHERE clause.
pub mod Syntax
pub mod Scanner
pub mod Parser
pub mod Statement
pub mod Filter

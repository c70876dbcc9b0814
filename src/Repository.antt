-- ===== src/Repository.antt =====
-- database/repository.go: the SQL that a repository builds (Clause, Columns, Statements) and the
-- operations that send it.
pub mod Clause
pub mod Columns
pub mod Statements

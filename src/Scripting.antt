-- ===== src/Scripting.antt =====
-- src/bqemulator/scripting: scripts of BigQuery SQL, run by walking their tree.
pub mod Syntax
pub mod Frames
pub mod Scopes
pub mod Database
pub mod Transactions
pub mod Simple
pub mod Interpreter
pub mod Rollback
pub mod Aborted
pub mod Settled
pub mod Lexer

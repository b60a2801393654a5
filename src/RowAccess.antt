-- ===== src/RowAccess.antt =====
-- src/bqemulator/row_access: who calls, and which row access policies apply to the caller.
pub mod Strings
pub mod Identity
pub mod Matcher
pub mod Addresses
pub mod Callers
pub mod Grants
pub mod Policies
pub mod Trimmed
pub mod Resolved

-- ===== src/Examples.antt =====
-- Concrete inputs at which the theorems apply, and tests of the definitions.
mod Store
mod Streams
mod Ids
mod WriteCalls
mod Access
mod Scripts
mod Cached
mod Catalogs
mod Scopes
mod Puts
mod Travel
mod Reads
mod Lexing
mod Spans
mod Staleness

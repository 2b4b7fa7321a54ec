-- ===== src/StringKeyed.antt =====
-- internal/stringkeyed/set.go: a set of strings kept as one string.
pub mod Base64
pub mod Encoding
pub mod Order
pub mod Canonical
pub mod Operations
pub mod Laws
pub mod Tokens
pub mod Examples

-- ===== src/Addrtrie.antt =====
-- The matchers of enimul/internal/addrtrie: domain patterns and IP prefixes.
pub mod Domain
pub mod Bits
pub mod Ip

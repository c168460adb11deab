-- ===== src/Examples.antt =====
-- Concrete runs: each theorem of the library with hypotheses, at an input that meets them.
mod Packets
mod Policies
mod Tries
mod Ttls
mod FakeIps
mod Counters
mod Pools
mod Plans

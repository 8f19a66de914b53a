-- ===== src/Tests/Chain.antt =====
-- The theorems of the core at concrete blocks and transactions.
mod Sealed
mod Money
mod Settled
mod States

-- ===== src/Tests/Services.antt =====
-- The trust model, request authentication, ranges, the pool and escrows at concrete values.
mod Delegates
mod Requests
mod Ranges
mod Pool
mod Contracts

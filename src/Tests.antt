-- ===== src/Tests.antt =====
-- The concrete values, and the theorems applied to them.
mod Values
mod Chain
mod Layer2
mod Services
mod Network
mod Wire

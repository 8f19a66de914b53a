-- ===== src/Core/Wire.antt =====
-- crates/aevum-core/src/wire.rs and wire_zero_copy.rs: what is sent over the wire. The modules follow
-- the cursor that reads a buffer, the views that it reads, and the format that they are read from.
pub mod Cursor
pub mod Views
pub mod Format
pub mod Reading
pub mod Parsing
pub mod Extent
pub mod Messages
pub mod Decoding
pub mod Header
pub mod Bounds
pub mod Iteration

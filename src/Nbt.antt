-- ===== src/Nbt.antt =====
-- The crate crates/nbt: the NBT data model, identity keys, the path language and the JSON form.
pub mod Error
pub mod Value
pub mod Decimal
pub mod Identity
pub mod Path
pub mod Json

-- ===== src/Anvil.antt =====
-- crates/anvil: the region files of a world and the sections of its chunks.
pub mod Chunk
pub mod Sections
pub mod Region
pub mod Writer

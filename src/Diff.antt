-- ===== src/Diff.antt =====
-- The crate crates/diff: the comparison of NBT trees.
pub mod Comparer

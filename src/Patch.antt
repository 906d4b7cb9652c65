-- ===== src/Patch.antt =====
-- The crate crates/patch: patches as lists of node changes, and their application.
pub mod Apply

-- ===== src/Tests.antt =====
-- The theorems at concrete inputs.
pub mod Sample
pub mod Merging
pub mod Storing
pub mod Patching
pub mod Bisecting
pub mod Selecting
pub mod Replaying
pub mod Containing
pub mod Packing
pub mod Keeping

-- ===== src/Repo.antt =====
-- The crate crates/repo: snapshots, history and merging.
pub mod Result
pub mod Manifest
pub mod Store
pub mod Merge
pub mod History
pub mod Bisect
pub mod Pathspec
pub mod Replay
pub mod Status
pub mod Wirepack
pub mod Directory
pub mod Refs
pub mod Revision
pub mod Closure

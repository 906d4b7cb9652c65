-- ===== src/Lib.antt =====
-- mcagit: version control for Minecraft worlds, modelled and verified part by part.
--
-- A world is a set of region files (each a table of chunks), loose NBT files and other files. The
-- program stores each of them as a content-addressed object, describes a world by a manifest of
-- object ids, links manifests into commits, merges commits by comparing ids, and compares and
-- patches the NBT trees inside chunks and files.
--
-- Files and the code they are about:
--   Common (Tests, Lists, Int, Text, Members, Dict, Words, Split, Sorted): shared definitions; a text
--     is a list of bytes.
--   Repo/Result, Repo/Manifest: RepoError, Manifest, CommitObject and TagObject (crates/repo/src/lib.rs,
--     manifest.rs).
--   Repo/Store: ObjectStore::read and write (crates/repo/src/object_store.rs), and read_commit,
--     write_commit, read_manifest, write_manifest, create_commit, parents_of of
--     crates/repo/src/repository.rs. A repository is the packed and the loose objects and the shallow
--     boundary; operations take it and return the new one. The digest and serde_json are the
--     parameter `Format`.
--   Repo/History: ancestors and merge_base of crates/repo/src/merge.rs as a worklist loop on fuel.
--   Repo/Merge: three_way, merge_map, three_way_manifest and merge of crates/repo/src/merge.rs.
--   Repo/Bisect: ancestors_incl, the marks and compute of crates/repo/src/bisect.rs.
--   Repo/Replay: cherry_pick and revert of crates/repo/src/replay.rs.
--   Repo/Pathspec: matches_any, matches_one, glob_match and seg_match of crates/repo/src/pathspec.rs;
--     a position is the text from there on.
--   Repo/Status: status_full with its diff (crates/repo/src/status.rs).
--   Repo/Wirepack: build and parse of crates/repo/src/wirepack.rs; zstd and the digest are parameters.
--   Repo/Directory: a directory of files, as the references are kept in one.
--   Repo/Refs, Repo/Revision: branches, tags, HEAD and the resolution of revisions
--     (crates/repo/src/repository.rs).
--   Repo/Closure: the reachable objects, gc and the copying of objects (crates/repo/src/gc.rs,
--     transfer.rs).
--   Anvil/Chunk: ChunkPos, ChunkCompression and RawChunk (crates/anvil/src/chunk.rs, compression.rs).
--   Anvil/Sections: bits_for, section_blocks and block_at (crates/anvil/src/blockstate.rs).
--   Anvil/Region, Anvil/Writer: RegionFile::parse and RegionWriter::write
--     (crates/anvil/src/region.rs).
--   Nbt/Value: NbtValue, tag_id and the derived equality (crates/nbt/src/value.rs).
--   Nbt/Identity: identity_key (crates/nbt/src/identity.rs).
--   Nbt/Decimal: the decimal text of integers, as to_string and parse have it.
--   Nbt/Path: NbtPath::parse, get, set, remove and step (crates/nbt/src/path.rs).
--   Nbt/Json: to_json and from_json (crates/nbt/src/json.rs); the text of floats is the parameter
--     `Floats`.
--   Diff/Comparer: walk, compare, compare_compound, compare_list, compare_keyed, list_keys and
--     child_path (crates/diff/src/comparer.rs); a sink is the list of its events.
--   Patch/Apply: PatchOp, PatchOpSink, node_ops and apply_op (crates/patch/src/model.rs, op_sink.rs,
--     extract.rs, apply.rs) on one chunk or loose file.
--   Tests: concrete runs.
--
-- What is taken for granted: paths are those of a Unix file system, on which empty parts and `.` are
-- passed over. Which objects fail to decode is a part of the repository, `damaged`.
--
-- Fuel: a walk over history gets one round for its start and one for each parent that a stored
-- object names: each commit is expanded once, and pushes its parents then. The closure of objects
-- gets one round for each object it starts from and, for each stored object, one for each of its
-- parents and one for the target of a tag. A revision gets one round for each of its bytes, and the
-- parser of paths too, since a round takes a byte at least. `diverged` marks a loop that ran out; the
-- program has no such error.
--
-- Not modelled: compression, the network (remote, serve, cloud, bucket), signing, hooks, rendering
-- and the command line, which are input and output or call other libraries; the file of the staging
-- index and the adding of paths, checkout, the scan of a world, packs on disk, rebase, stash, fsck and
-- world-level comparison are left for later.
pub mod Anvil
pub mod Common
pub mod Repo
pub mod Nbt
pub mod Diff
pub mod Patch
pub mod Tests

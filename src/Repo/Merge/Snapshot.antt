-- ===== src/Repo/Merge/Snapshot.antt =====
-- `three_way_manifest` on whole snapshots: the merged entries, and when there is a conflict.
use mcagit.Common.{[], ◌++◌, true, false, ◌||◌, Option, ◌≡◌, ◌≢◌, ◌↔◌, append_assoc, arith, ap}
use mcagit.Common.Text.{Text}
use mcagit.Common.Members.{contains}
use mcagit.Common.Dict.{lookup, contains-collect, contains-append}
use mcagit.Repo.Manifest.{Manifest}
use mcagit.Repo.Merge.{three_way, chunk_label, merge_map, union_keys, three_way_manifest}
use mcagit.Repo.Merge.ThreeWay.{
  kept, is_conflict, three_way-eq-err_iff, three_way-eq-ok, three_way_comm, three_way_unchanged,
}
use mcagit.Repo.Merge.Entries.{
  conflicts_of, lookup-merge_union, merge_keys-conflicts, conflict_listed, conflicts_of-nil,
}
use mcagit.Repo.Merge.Regions.{
  chunk_at, regions_conflicts, merge_regions-conflicts, chunk_at-merge_union, chunk_conflict_listed,
  regions_conflicts-nil,
}

-- The places that a snapshot fills: chunks of region files, loose NBT files and other files.
pub data Place : Type 0 where
  chunk : Text → Text → Place
  nbt_file : Text → Place
  blob_file : Text → Place

unfoldable pub entry : Manifest → Place → Option Text
entry m (chunk rel pos) = chunk_at rel pos m.regions
entry m (nbt_file rel) = lookup rel m.nbt
entry m (blob_file rel) = lookup rel m.blobs

-- The conflicting path that stands for a place.
abbrev pub path_of : Place → Text
path_of (chunk rel pos) = chunk_label rel pos
path_of (nbt_file rel) = rel
path_of (blob_file rel) = rel

module _ (b o t : Manifest) where
  abbrev decides : Place → Option Text
  decides p = kept (three_way (entry b p) (entry o p) (entry t p))

  -- Each entry of the merged snapshot is what `three_way` keeps of it.
  pub entry-three_way_manifest : (p : Place) → entry (three_way_manifest b o t).0 p ≡ decides p
  unfolding three_way_manifest entry merge_map
  entry-three_way_manifest (chunk rel pos) = chunk_at-merge_union b o t [] rel pos
  entry-three_way_manifest (nbt_file rel) = lookup-merge_union _ b.nbt o.nbt t.nbt _ rel
  entry-three_way_manifest (blob_file rel) = lookup-merge_union _ b.blobs o.blobs t.blobs _ rel

  all_conflicts :
      (three_way_manifest b o t).1
      ≡ regions_conflicts b o t (union_keys b.regions o.regions t.regions)
        ++ (conflicts_of (λ k. k) b.nbt o.nbt t.nbt (union_keys b.nbt o.nbt t.nbt)
            ++ conflicts_of (λ k. k) b.blobs o.blobs t.blobs (union_keys b.blobs o.blobs t.blobs))
  unfolding three_way_manifest merge_map
  all_conflicts = rw (
    merge_keys-conflicts (λ k. k) b.blobs o.blobs t.blobs,
    merge_keys-conflicts (λ k. k) b.nbt o.nbt t.nbt,
    merge_regions-conflicts b o t ([], []),
    append_assoc,
  )

  conflict_reported :
      (p : Place)
      → is_conflict (three_way (entry b p) (entry o p) (entry t p)) ≡ true
      → contains (three_way_manifest b o t).1 (path_of p) ≡ true
  unfolding entry
  conflict_reported (chunk rel pos) e =
      rw (all_conflicts, contains-append) (ground (arith, chunk_conflict_listed b o t rel pos))
  conflict_reported (nbt_file rel) e =
      rw (all_conflicts, contains-append, contains-append)
        (ground (arith, conflict_listed (λ k. k) b.nbt o.nbt t.nbt rel))
  conflict_reported (blob_file rel) e =
      rw (all_conflicts, contains-append, contains-append)
        (ground (arith, conflict_listed (λ k. k) b.blobs o.blobs t.blobs rel))

  no_conflict :
      ((p : Place) → is_conflict (three_way (entry b p) (entry o p) (entry t p)) ≡ false)
      → (three_way_manifest b o t).1 ≡ []
  unfolding entry
  no_conflict h = rw (
    all_conflicts,
    regions_conflicts-nil b o t _ (λ rel pos. h (chunk rel pos)),
    conflicts_of-nil (λ k. k) b.nbt o.nbt t.nbt _ (λ k. h (nbt_file k)),
    conflicts_of-nil (λ k. k) b.blobs o.blobs t.blobs _ (λ k. h (blob_file k)),
  )

  clean_place :
      (p : Place)
      → (three_way_manifest b o t).1 ≡ []
      → is_conflict (three_way (entry b p) (entry o p) (entry t p)) ≡ false
  unfolding contains
  clean_place p h = ground (arith, conflict_reported p)

-- The two sides changed this place, and not to the same thing.
abbrev pub Clash : Manifest → Manifest → Manifest → Place → Type 0
Clash b o t p = (entry o p ≢ entry b p) × (entry t p ≢ entry b p) × (entry o p ≢ entry t p)

-- The merge of three snapshots reports no conflict exactly if there is no chunk, NBT file or blob
-- at which ours and theirs both differ from the base and from each other.
pub three_way_manifest-clean_iff :
    (b o t : Manifest) → ((three_way_manifest b o t).1 ≡ []) ↔ ((p : Place) → ¬ Clash b o t p)
three_way_manifest-clean_iff b o t = (
  λ clean p.
      ground (
        arith,
        clean_place b o t p clean,
        three_way-eq-err_iff (entry b p) (entry o p) (entry t p),
      ),
  λ h.
      no_conflict b o t
        λ p. ground (arith, h p, three_way-eq-err_iff (entry b p) (entry o p) (entry t p)),
)

-- A chunk, NBT file or blob at which ours and theirs both differ from the base and from each other
-- is reported among the conflicts under its path.
pub Clash-reported :
    (b o t : Manifest) (p : Place)
    → Clash b o t p
    → contains (three_way_manifest b o t).1 (path_of p) ≡ true
Clash-reported b o t p h =
    ground
      (arith, three_way-eq-err_iff (entry b p) (entry o p) (entry t p), conflict_reported b o t p)

-- If the merge of three snapshots reports no conflict, then at each chunk, NBT file and blob the
-- merged snapshot has the entry of the side that changed it against the base, and the base's entry
-- where neither side changed it.
pub three_way_manifest-changes :
    (b o t : Manifest) (p : Place)
    → (three_way_manifest b o t).1 ≡ []
    → let m = (three_way_manifest b o t).0 in
      (entry o p ≢ entry b p → entry m p ≡ entry o p)
      × (entry t p ≢ entry b p → entry m p ≡ entry t p)
      × (entry o p ≡ entry b p → entry t p ≡ entry b p → entry m p ≡ entry b p)
three_way_manifest-changes b o t p clean = rw (entry-three_way_manifest b o t p) (
    ground (
      arith,
      clean_place b o t p clean,
      three_way-eq-ok (entry b p) (entry o p) (entry t p) (decides b o t p),
    ))

-- Exchanging ours and theirs does not change the merged snapshot at any chunk, NBT file or blob.
pub three_way_manifest_comm :
    (b o t : Manifest) (p : Place)
    → entry (three_way_manifest b o t).0 p ≡ entry (three_way_manifest b t o).0 p
three_way_manifest_comm b o t p =
    rw (entry-three_way_manifest, entry-three_way_manifest)
      (ap kept (three_way_comm (entry b p) (entry o p) (entry t p)))

-- If theirs is the base, the merge reports no conflict and has our entry at every chunk, NBT file
-- and blob.
pub three_way_manifest-unchanged :
    (b o : Manifest)
    → ((three_way_manifest b o b).1 ≡ [])
      × ((p : Place) → entry (three_way_manifest b o b).0 p ≡ entry o p)
three_way_manifest-unchanged b o = (
  no_conflict b o b (λ p. rw (three_way_unchanged (entry b p) (entry o p))),
  λ p. rw (entry-three_way_manifest, three_way_unchanged (entry b p) (entry o p)),
)

-- The merged snapshot lists an empty directory exactly if ours or theirs lists it.
pub three_way_manifest-dirs :
    (b o t : Manifest) (dir : Text)
    → contains (three_way_manifest b o t).0.empty_dirs dir
      ≡ (contains o.empty_dirs dir || contains t.empty_dirs dir)
unfolding three_way_manifest
three_way_manifest-dirs b o t dir = rw (contains-collect, contains-append)

-- ===== src/Repo/Merge/Regions.antt =====
-- The loop over the region files, chunk by chunk.
use mcagit.Common.{
  List, [], ◌∷◌, ◌++◌, true, false, Option, none, ◌≡◌, ◌⊎◌, inl, refl, sym, append_assoc,
  append-nil, arith, if◌then◌else◌,
}
use mcagit.Common.Text.{Text, text_eq, text_eq_iff, text_eq_refl}
use mcagit.Common.Members.{contains}
use mcagit.Common.Dict.{
  Dict, lookup, keys, lookup-insert, contains-keys, contains-collect, contains-append,
}
use mcagit.Repo.Manifest.{Manifest}
use mcagit.Repo.Merge.{
  Outcome, ok, is_empty, chunks_of, chunk_label, merge_keys, merge_region, merge_regions,
  union_keys,
}
use mcagit.Repo.Merge.ThreeWay.{kept, is_conflict, three_way-none}
use mcagit.Repo.Merge.Entries.{
  decision, conflicts_of, lookup-merge_union, merge_keys-conflicts, conflict_listed,
  conflicts_of-nil,
}

-- The id of one chunk of a snapshot.
abbrev pub chunk_at : Text → Text → Dict (Dict Text) → Option Text
chunk_at rel pos regions = lookup pos (chunks_of rel regions)

lookup-is_empty : (k : Text) (m : Dict Text) → is_empty m ≡ true → lookup k m ≡ none
unfolding lookup
lookup-is_empty k [] h = refl
lookup-is_empty k (_ ∷ _) h = cc

module _ (mb mo mt : Manifest) where
  abbrev pub chunk_decision : Text → Text → Outcome
  chunk_decision rel pos =
      decision (chunks_of rel mb.regions) (chunks_of rel mo.regions) (chunks_of rel mt.regions) pos

  abbrev merged_region : Text → List Text → Dict Text × List Text
  merged_region rel cs =
      let bcm = chunks_of rel mb.regions in
      let ocm = chunks_of rel mo.regions in
      let tcm = chunks_of rel mt.regions in
      merge_keys (chunk_label rel) bcm ocm tcm ([], cs) (union_keys bcm ocm tcm)

  chunk_at-merge_region_self :
      (acc : Dict (Dict Text) × List Text) (rel pos : Text)
      → (chunk_at rel pos acc.0 ≡ none) ⊎ (chunk_at rel pos acc.0 ≡ kept (chunk_decision rel pos))
      → chunk_at rel pos (merge_region mb mo mt acc rel).0 ≡ kept (chunk_decision rel pos)
  unfolding merge_region chunks_of
  chunk_at-merge_region_self acc rel pos h = ground (
    arith,
    lookup-is_empty pos (merged_region rel acc.1).0,
    lookup-insert rel rel (merged_region rel acc.1).0 acc.0,
    text_eq_refl rel,
    lookup-merge_union (chunk_label rel) (chunks_of rel mb.regions) (chunks_of rel mo.regions)
        (chunks_of rel mt.regions) acc.1 pos,
  )

  chunk_at-merge_region_other :
      (acc : Dict (Dict Text) × List Text) (r rel pos : Text)
      → text_eq r rel ≡ false
      → chunk_at rel pos (merge_region mb mo mt acc r).0 ≡ chunk_at rel pos acc.0
  unfolding merge_region chunks_of
  chunk_at-merge_region_other acc r rel pos h =
      ground (arith, lookup-insert r rel (merged_region r acc.1).0 acc.0)

  chunk_at-merge_regions :
      (acc : Dict (Dict Text) × List Text) (rels : List Text) (rel pos : Text)
      → (chunk_at rel pos acc.0 ≡ none) ⊎ (chunk_at rel pos acc.0 ≡ kept (chunk_decision rel pos))
      → chunk_at rel pos (merge_regions mb mo mt acc rels).0
        ≡ (if contains rels rel then kept (chunk_decision rel pos) else chunk_at rel pos acc.0)
  unfolding merge_regions contains
  chunk_at-merge_regions acc [] rel pos h = refl
  chunk_at-merge_regions acc (r ∷ rels) rel pos h = ground (
    arith,
    text_eq_iff r rel,
    chunk_at-merge_region_self acc rel pos,
    chunk_at-merge_region_other acc r rel pos,
    chunk_at-merge_regions (merge_region mb mo mt acc r) rels rel pos,
  )

  -- The conflicts of one region file, and of several.
  pub region_conflicts : Text → List Text
  region_conflicts rel =
      let bcm = chunks_of rel mb.regions in
      let ocm = chunks_of rel mo.regions in
      let tcm = chunks_of rel mt.regions in
      conflicts_of (chunk_label rel) bcm ocm tcm (union_keys bcm ocm tcm)

  pub regions_conflicts : List Text → List Text
  regions_conflicts [] = []
  regions_conflicts (rel ∷ rels) = region_conflicts rel ++ regions_conflicts rels

  pub merge_regions-conflicts :
      (acc : Dict (Dict Text) × List Text) (rels : List Text)
      → (merge_regions mb mo mt acc rels).1 ≡ acc.1 ++ regions_conflicts rels
  unfolding merge_regions merge_region regions_conflicts region_conflicts
  merge_regions-conflicts acc [] = sym (append-nil acc.1)
  merge_regions-conflicts acc (rel ∷ rels) = ground (
    arith,
    merge_keys-conflicts (chunk_label rel) (chunks_of rel mb.regions) (chunks_of rel mo.regions)
        (chunks_of rel mt.regions) ([], acc.1)
        (union_keys (chunks_of rel mb.regions) (chunks_of rel mo.regions)
          (chunks_of rel mt.regions)),
    merge_regions-conflicts (merge_region mb mo mt acc rel) rels,
    append_assoc acc.1 (region_conflicts rel) (regions_conflicts rels),
  )

  -- A region file of none of the three snapshots has no chunk to decide.
  chunk_decision-absent :
      (rel pos : Text)
      → contains (union_keys mb.regions mo.regions mt.regions) rel ≡ false
      → chunk_decision rel pos ≡ ok none
  unfolding union_keys chunks_of lookup
  chunk_decision-absent rel pos h = ground (
    arith,
    three_way-none,
    contains-collect rel (keys mb.regions ++ (keys mo.regions ++ keys mt.regions)),
    contains-append (keys mb.regions) (keys mo.regions ++ keys mt.regions) rel,
    contains-append (keys mo.regions) (keys mt.regions) rel,
    contains-keys rel mb.regions,
    contains-keys rel mo.regions,
    contains-keys rel mt.regions,
  )

  -- From an empty output, over the region files of all three, every chunk gets its decision.
  pub chunk_at-merge_union :
      (cs : List Text) (rel pos : Text)
      → chunk_at rel pos
          (merge_regions mb mo mt ([], cs) (union_keys mb.regions mo.regions mt.regions)).0
        ≡ kept (chunk_decision rel pos)
  unfolding chunks_of lookup
  chunk_at-merge_union cs rel pos = ground (
    arith,
    chunk_decision-absent rel pos,
    chunk_at-merge_regions ([], cs) (union_keys mb.regions mo.regions mt.regions) rel pos
        (inl refl),
  )

  region_conflict_listed :
      (rels : List Text) (rel pos : Text)
      → contains rels rel ≡ true
      → is_conflict (chunk_decision rel pos) ≡ true
      → contains (regions_conflicts rels) (chunk_label rel pos) ≡ true
  unfolding regions_conflicts region_conflicts contains
  region_conflict_listed [] rel pos h e = cc
  region_conflict_listed (r ∷ rels) rel pos h e = ground (
    arith,
    text_eq_iff r rel,
    contains-append (region_conflicts r) (regions_conflicts rels) (chunk_label rel pos),
    conflict_listed (chunk_label rel) (chunks_of rel mb.regions) (chunks_of rel mo.regions)
        (chunks_of rel mt.regions) pos,
    region_conflict_listed rels rel pos,
  )

  pub chunk_conflict_listed :
      (rel pos : Text)
      → is_conflict (chunk_decision rel pos) ≡ true
      → contains
          (regions_conflicts (union_keys mb.regions mo.regions mt.regions))
          (chunk_label rel pos)
        ≡ true
  chunk_conflict_listed rel pos e = ground (
    arith,
    chunk_decision-absent rel pos,
    region_conflict_listed (union_keys mb.regions mo.regions mt.regions) rel pos,
  )

  pub regions_conflicts-nil :
      (rels : List Text)
      → ((rel pos : Text) → is_conflict (chunk_decision rel pos) ≡ false)
      → regions_conflicts rels ≡ []
  unfolding regions_conflicts region_conflicts
  regions_conflicts-nil [] h = refl
  regions_conflicts-nil (rel ∷ rels) h =
      rw
        (conflicts_of-nil (chunk_label rel) (chunks_of rel mb.regions) (chunks_of rel mo.regions)
          (chunks_of rel mt.regions) _ (h rel))
        (regions_conflicts-nil rels h)

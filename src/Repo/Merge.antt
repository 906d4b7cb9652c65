-- ===== src/Repo/Merge.antt =====
-- crates/repo/src/merge.rs: the 3-way merge of snapshots, entry by entry.
pub mod ThreeWay
pub mod Entries
pub mod Regions
pub mod Snapshot
pub mod Commits
use mcagit.Common.{List, [], ◌∷◌, ◌++◌, Bool, true, false, Option, none, some, if◌then◌else◌}
use mcagit.Common.Text.{Text, text_eq, codes}
use mcagit.Common.Dict.{Dict, lookup, insert, keys, collect}
use mcagit.Repo.Manifest.{Manifest}
use mathlib.Core.List.{foldl}

-- `Option<&String> == Option<&String>`
unfoldable pub id_eq : Option Text → Option Text → Bool
id_eq none none = true
id_eq (some a) (some b) = text_eq a b
id_eq _ _ = false

-- `Result<Option<String>, ()>`
pub data Outcome : Type 0 where
  ok : Option Text → Outcome
  err : Outcome

unfoldable pub three_way : Option Text → Option Text → Option Text → Outcome
three_way base ours theirs =
    if id_eq ours theirs
    then ok ours
    else if id_eq ours base
    then ok theirs
    else if id_eq theirs base
    then ok ours
    else err

-- The keys of three maps, `b.keys().chain(o.keys()).chain(t.keys())`, as a sorted set.
unfoldable pub union_keys {ℓ} : {V : Type ℓ} → Dict V → Dict V → Dict V → List Text
union_keys b o t = collect (keys b ++ (keys o ++ keys t))

-- The body of the loops over keys: what `three_way` decides goes to the output or to the conflicts.
unfoldable pub merge_key :
    (Text → Text)
    → Dict Text
    → Dict Text
    → Dict Text
    → Dict Text × List Text
    → Text
    → Dict Text × List Text
merge_key label b o t (out, conflicts) k = elim (three_way (lookup k b) (lookup k o) (lookup k t)) [
  | ok h ↦ elim h [ some id ↦ (insert k id out, conflicts) | none ↦ (out, conflicts) ]
  | err ↦ (out, conflicts ++ (label k ∷ []))
]

unfoldable pub merge_keys :
    (Text → Text)
    → Dict Text
    → Dict Text
    → Dict Text
    → Dict Text × List Text
    → List Text
    → Dict Text × List Text
merge_keys label b o t acc [] = acc
merge_keys label b o t acc (k ∷ ks) = merge_keys label b o t (merge_key label b o t acc k) ks

unfoldable pub merge_map :
    Dict Text → Dict Text → Dict Text → Dict Text × List Text → Dict Text × List Text
merge_map base ours theirs acc =
    merge_keys (λ k. k) base ours theirs acc (union_keys base ours theirs)

-- `regions.get(rel).unwrap_or(&empty)`
unfoldable pub chunks_of : Text → Dict (Dict Text) → Dict Text
chunks_of rel regions = elim (lookup rel regions) [ some cm ↦ cm | none ↦ [] ]

-- `format!("{rel} chunk {pos}")`
unfoldable pub chunk_label : Text → Text → Text
chunk_label rel pos = rel ++ (codes " chunk " ++ pos)

abbrev is_empty {ℓ} : {V : Type ℓ} → Dict V → Bool
is_empty [] = true
is_empty (_ ∷ _) = false

-- The body of the loop over the region files.
unfoldable pub merge_region :
    Manifest
    → Manifest
    → Manifest
    → Dict (Dict Text) × List Text
    → Text
    → Dict (Dict Text) × List Text
merge_region mb mo mt (regions, conflicts) rel =
    let bcm = chunks_of rel mb.regions in
    let ocm = chunks_of rel mo.regions in
    let tcm = chunks_of rel mt.regions in
    let (merged_chunks, conflicts') =
      merge_keys (chunk_label rel) bcm ocm tcm ([], conflicts) (union_keys bcm ocm tcm) in
    (if is_empty merged_chunks then regions else insert rel merged_chunks regions, conflicts')

unfoldable pub merge_regions :
    Manifest
    → Manifest
    → Manifest
    → Dict (Dict Text) × List Text
    → List Text
    → Dict (Dict Text) × List Text
merge_regions mb mo mt acc [] = acc
merge_regions mb mo mt acc (rel ∷ rels) =
    merge_regions mb mo mt (merge_region mb mo mt acc rel) rels

unfoldable pub three_way_manifest : Manifest → Manifest → Manifest → Manifest × List Text
three_way_manifest mb mo mt =
    let (regions, c1) =
      merge_regions mb mo mt ([], []) (union_keys mb.regions mo.regions mt.regions) in
    let (nbt, c2) = merge_map mb.nbt mo.nbt mt.nbt ([], c1) in
    let (blobs, c3) = merge_map mb.blobs mo.blobs mt.blobs ([], c2) in
    let merged : Manifest = record {
      regions = regions;
      nbt = nbt;
      blobs = blobs;
      empty_dirs = collect (mo.empty_dirs ++ mt.empty_dirs);
    } in
    (merged, c3)

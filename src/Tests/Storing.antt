-- ===== src/Tests/Storing.antt =====
-- The object store, the walks over history and the merged entries on the sample repository.
use mcagit.Common.{List, [], ◌∷◌, true, false, none, some, ◌≡◌, ◌≢◌, ◌↔◌, ◌⊎◌, inl, refl, arith}
use mcagit.Common.Text.{Text, text_eq, text_eq_iff, codes}
use mcagit.Common.Members.{contains}
use mcagit.Common.Dict.{lookup}
use mcagit.Repo.Result.{ok}
use mcagit.Repo.Store.{Repository, read, write, is_object_id}
use mcagit.Repo.Store.Laws.{
  IsConsistent, NoCollision, write-IsConsistent, read-write, read-write_keeps,
}
use mcagit.Repo.Merge.{three_way_manifest}
use mcagit.Repo.Merge.Snapshot.{
  Place, chunk, nbt_file, entry, Clash, three_way_manifest-clean_iff, Clash-reported,
  three_way_manifest_comm,
}
use mcagit.Repo.History.{ancestors, merge_base}
use mcagit.Repo.History.Ancestors.{IsAncestor, ancestors_total}
use mcagit.Repo.History.Base.{IsBest, merge_base_total}
use mcagit.Tests.Sample.{
  sample, sample_format, hash, ours_id, theirs_id, root_files, ours_files, theirs_files,
  clash_files,
}

fresh_content : NoCollision sample_format sample (codes "7")
unfolding lookup text_eq
fresh_content = record { packed_only = inl refl; loose_only = inl refl; intact = refl }

read-write_example :
    read (write sample_format sample (codes "7")).0 (write sample_format sample (codes "7")).1
    ≡ ok (codes "7")
unfolding is_object_id
read-write_example = read-write sample_format sample (codes "7") refl fresh_content

read-write_keeps_example : read (write sample_format sample (codes "7")).0 ours_id ≡ ok (codes "b")
unfolding read is_object_id lookup text_eq
read-write_keeps_example =
    read-write_keeps sample_format sample (codes "7") ours_id (codes "b") refl

abbrev one_file : Repository
one_file = record {
  packed = [];
  loose = (hash b'9', codes "9") ∷ [];
  damaged = λ id. false;
  shallow = none;
}

one_file-IsConsistent : IsConsistent sample_format one_file
unfolding lookup
one_file-IsConsistent = record {
  packed_digest = λ id c e. cc;
  loose_digest = λ id c e. ground (arith, text_eq_iff (hash b'9') id);
}

write-IsConsistent_example : IsConsistent sample_format (write sample_format one_file (codes "7")).0
write-IsConsistent_example =
    write-IsConsistent sample_format one_file (codes "7") one_file-IsConsistent

ancestors_total_example :
    (r : List Text) × (ancestors sample_format sample ours_id ≡ ok r)
    × ((c : Text) → (contains r c ≡ true) ↔ IsAncestor sample_format sample ours_id c)
ancestors_total_example = ancestors_total sample_format sample ours_id

merge_base_total_example :
    ((m : Text) × (merge_base sample_format sample ours_id theirs_id ≡ ok (some m))
      × IsBest sample_format sample ours_id theirs_id m)
    ⊎ ((merge_base sample_format sample ours_id theirs_id ≡ ok none)
        × ((m : Text) → ¬ IsBest sample_format sample ours_id theirs_id m))
merge_base_total_example = merge_base_total sample_format sample ours_id theirs_id

three_way_manifest-clean_iff_example :
    ((three_way_manifest root_files ours_files theirs_files).1 ≡ [])
    ↔ ((p : Place) → ¬ Clash root_files ours_files theirs_files p)
three_way_manifest-clean_iff_example =
    three_way_manifest-clean_iff root_files ours_files theirs_files

some_apart : {a b : Text} → text_eq a b ≡ false → some a ≢ some b
some_apart {a} {b} h e = ground (arith, text_eq_iff a b)

level-Clash : Clash root_files theirs_files clash_files (nbt_file (codes "level.dat"))
unfolding entry lookup text_eq
level-Clash = (some_apart refl, some_apart refl, some_apart refl)

Clash-reported_example :
    contains (three_way_manifest root_files theirs_files clash_files).1 (codes "level.dat") ≡ true
Clash-reported_example =
    Clash-reported root_files theirs_files clash_files (nbt_file (codes "level.dat")) level-Clash

three_way_manifest_comm_example :
    entry
      (three_way_manifest root_files ours_files theirs_files).0
      (chunk (codes "r") (codes "0.0"))
    ≡ entry
        (three_way_manifest root_files theirs_files ours_files).0
        (chunk (codes "r") (codes "0.0"))
three_way_manifest_comm_example =
    three_way_manifest_comm root_files ours_files theirs_files (chunk (codes "r") (codes "0.0"))

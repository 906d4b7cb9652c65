-- ===== src/Repo/Merge/Commits/Stored.antt =====
-- What a clean merge leaves in the repository, and that a conflicting one leaves it alone.
use mcagit.Common.{
  List, [], ◌∷◌, true, Option, some, ◌≡◌, ◌≢◌, ap, ◌∙◌, arith, Bool-cases, inl, inr,
}
use mcagit.Common.Text.{Text, text_eq, text_eq_iff}
use mcagit.Common.Members.{contains}
use mcagit.Repo.Manifest.{Manifest}
use mcagit.Repo.Result.{ok, >>=-eq-ok}
use mcagit.Repo.Store.{Format, Repository, write_manifest, write_commit, create_commit}
use mcagit.Repo.Store.Commits.{
  Storable, tree_json, with_tree, commit, with_commit, commit_id, IsCommitted, stored-IsCommitted,
}
use mcagit.Repo.Merge.{three_way_manifest, id_eq}
use mcagit.Repo.Merge.ThreeWay.{id_eq_iff}
use mcagit.Repo.Merge.Snapshot.{Place, path_of, Clash, Clash-reported, three_way_manifest-clean_iff}
use mcagit.Repo.History.{merge_base}
use mcagit.Repo.Merge.Commits.{merged, conflicts, merge, snapshots, store_merge}

-- The repository with the merged snapshot and a commit on both sides in it.
abbrev pub IsMerged :
    Format → Repository → Manifest → Text → Text → Text → Text → Text → Repository → Text → Type 0
IsMerged fmt repo m ours theirs message author time repo' c =
    IsCommitted fmt repo m (ours ∷ theirs ∷ []) message author time repo' c

module _ (fmt : Format) (repo : Repository) (ours theirs message author time : Text) where
  -- The situation in which `merge` has to merge: neither side is the merge base, and the three
  -- snapshots can be read.
  pub record Diverged (base : Option Text) (mb mo mt : Manifest) : Type 0 where
    pub two : ours ≢ theirs
    pub common : merge_base fmt repo ours theirs ≡ ok base
    pub behind : base ≢ some theirs
    pub ahead : base ≢ some ours
    pub readable : snapshots fmt repo base ours theirs ≡ ok (mb, mo, mt)

  merge-Diverged :
      {base : Option Text} {mb mo mt : Manifest}
      → Diverged base mb mo mt
      → merge fmt repo ours theirs message author time
        ≡ ok (store_merge fmt repo ours theirs message author time (three_way_manifest mb mo mt))
  unfolding merge
  merge-Diverged {base} {mb} {mo} {mt} d =
      ground
        (arith, text_eq_iff ours theirs, id_eq_iff base (some theirs), id_eq_iff base (some ours))

  stored_conflicts :
      (out : Manifest × List Text) (repo' : Repository) (cs : List Text)
      → ok (store_merge fmt repo ours theirs message author time out) ≡ ok (repo', conflicts cs)
      → (repo' ≡ repo) × (cs ≡ out.1) × (out.1 ≢ [])
  unfolding store_merge
  stored_conflicts (m, []) repo' cs e = cc
  stored_conflicts (m, x ∷ xs) repo' cs e = (ground arith, ground arith, λ q. cc)

  -- If merge returns conflicts, then it leaves the repository as it was, ours and theirs differ,
  -- neither is their merge base, the snapshots of the two and of the base can be read, there is a
  -- clash among these (it is not so that at no chunk, NBT file and blob ours and theirs both differ
  -- from the base and from each other), and each clash is among the conflicts under its path.
  pub merge-conflicts :
      (repo' : Repository) (cs : List Text)
      → merge fmt repo ours theirs message author time ≡ ok (repo', conflicts cs)
      → (repo' ≡ repo)
        × (base : Option Text) × (mb : Manifest) × (mo : Manifest) × (mt : Manifest) × Diverged base
            mb mo mt
        × (¬ ((p : Place) → ¬ Clash mb mo mt p))
        × ((p : Place) → Clash mb mo mt p → contains cs (path_of p) ≡ true)
  unfolding merge store_merge
  merge-conflicts repo' cs e = elim (Bool-cases (text_eq ours theirs)) [
    | inl same ↦ absurd (ground (arith, same))
    | inr two ↦
        let (base, eb, e1) = >>=-eq-ok (merge_base fmt repo ours theirs) _ (rw two at e) in
        elim (Bool-cases (id_eq base (some theirs))) [
          | inl behind ↦ absurd (ground (arith, behind))
          | inr ahead ↦ elim (Bool-cases (id_eq base (some ours))) [
            | inl forward ↦ absurd (ground (arith, ahead, forward))
            | inr apart ↦
                let (three, es, e2) =
                  >>=-eq-ok (snapshots fmt repo base ours theirs) _ (rw (ahead, apart) at e1) in
                let (mb, mo, mt) = three in
                let (kept, listed, some_clash) =
                  stored_conflicts (three_way_manifest mb mo mt) repo' cs e2 in
                (
                  kept,
                  base,
                  mb,
                  mo,
                  mt,
                  record {
                    two = λ q. ground (arith, two, text_eq_iff ours theirs);
                    common = eb;
                    behind = λ q. ground (arith, ahead, id_eq_iff base (some theirs));
                    ahead = λ q. ground (arith, apart, id_eq_iff base (some ours));
                    readable = es;
                  },
                  λ free. some_clash ((three_way_manifest-clean_iff mb mo mt).1 free),
                  λ p clash.
                      ap (λ xs. contains xs (path_of p)) listed ∙ Clash-reported mb mo mt p clash,
                )
          ]
        ]
  ]

  -- If ours and theirs differ, neither is their merge base, their snapshots and the base's can be
  -- read and merge without conflict, the two written objects have well-formed ids that no other
  -- stored content and no object that fails to decode has, and serde_json reads back what it wrote
  -- of them, then merge returns a new commit that reads back with parents ours and theirs in this
  -- order, whose tree reads back as the merged snapshot, and every object that could be read before
  -- still reads the same.
  pub merge-IsMerged :
      {base : Option Text} {mb mo mt : Manifest}
      → Diverged base mb mo mt
      → (three_way_manifest mb mo mt).1 ≡ []
      → let m = (three_way_manifest mb mo mt).0 in
        Storable fmt repo (tree_json fmt repo m)
        → Storable fmt
            (with_tree fmt repo m)
            (fmt.commit_to_json (commit fmt repo m (ours ∷ theirs ∷ []) message author time))
        → fmt.manifest_from_json (tree_json fmt repo m) ≡ some m
        → fmt.commit_from_json
            (fmt.commit_to_json (commit fmt repo m (ours ∷ theirs ∷ []) message author time))
          ≡ some (commit fmt repo m (ours ∷ theirs ∷ []) message author time)
        → (repo' : Repository) × (c : Text) × (merge fmt repo ours theirs message author time
            ≡ ok (repo', merged c))
          × IsMerged fmt repo m ours theirs message author time repo' c
  unfolding store_merge write_manifest create_commit write_commit
  merge-IsMerged {base} {mb} {mo} {mt} d clean st sc bt bc =
      let m = (three_way_manifest mb mo mt).0 in
      (
        with_commit fmt repo m (ours ∷ theirs ∷ []) message author time,
        commit_id fmt repo m (ours ∷ theirs ∷ []) message author time,
        merge-Diverged d ∙ ap ok (ground arith),
        stored-IsCommitted fmt repo m (ours ∷ theirs ∷ []) message author time st sc bt bc,
      )

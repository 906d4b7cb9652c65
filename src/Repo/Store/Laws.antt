-- ===== src/Repo/Store/Laws.antt =====
-- The object store keeps what is written to it, and keeps it under its digest.
use mcagit.Common.{true, false, none, some, ◌≡◌, ◌⊎◌, arith}
use mcagit.Common.Text.{Text, text_eq_iff, text_eq_refl}
use mcagit.Common.Dict.{lookup, lookup-insert}
use mcagit.Repo.Result.{ok}
use mcagit.Repo.Store.{Format, Repository, is_object_id, read, write}

-- Every content is filed under its digest.
pub record IsConsistent (fmt : Format) (repo : Repository) : Type 0 where
  pub packed_digest : (id c : Text) → lookup id repo.packed ≡ some c → fmt.digest c ≡ id
  pub loose_digest : (id c : Text) → lookup id repo.loose ≡ some c → fmt.digest c ≡ id

-- No stored content has the digest of `content` and is another one or does not decode.
pub record NoCollision (fmt : Format) (repo : Repository) (content : Text) : Type 0 where
  pub packed_only :
      (lookup (fmt.digest content) repo.packed ≡ none)
      ⊎ (lookup (fmt.digest content) repo.packed ≡ some content)
  pub loose_only :
      (lookup (fmt.digest content) repo.loose ≡ none)
      ⊎ (lookup (fmt.digest content) repo.loose ≡ some content)
  pub intact : repo.damaged (fmt.digest content) ≡ false

module _ (fmt : Format) (repo : Repository) (content : Text) where
  -- What a write returns is the digest of the content.
  pub write-id : (write fmt repo content).1 ≡ fmt.digest content
  unfolding write
  write-id = ground arith

  -- If every stored content, packed or loose, is filed under its digest, then this also holds after
  -- a write.
  pub write-IsConsistent : IsConsistent fmt repo → IsConsistent fmt (write fmt repo content).0
  unfolding write
  write-IsConsistent h = record {
    packed_digest = λ id c e. ground (arith, h.packed_digest id c);
    loose_digest = λ id c e. ground (
      arith,
      h.loose_digest id c,
      lookup-insert (fmt.digest content) id content repo.loose,
      text_eq_iff (fmt.digest content) id,
    );
  }

  -- If the digest of a content is a well-formed object id, no other stored content has it and no
  -- object under it fails to decode, then reading the id that write returned gives the content.
  pub read-write :
      is_object_id (fmt.digest content) ≡ true
      → NoCollision fmt repo content
      → read (write fmt repo content).0 (write fmt repo content).1 ≡ ok content
  unfolding write read
  read-write valid single = ground (
    arith,
    single.packed_only,
    single.loose_only,
    single.intact,
    lookup-insert (fmt.digest content) (fmt.digest content) content repo.loose,
    text_eq_refl (fmt.digest content),
  )

  -- An object that can be read is read with the same content after any write.
  pub read-write_keeps :
      (id c : Text) → read repo id ≡ ok c → read (write fmt repo content).0 id ≡ ok c
  unfolding write read
  read-write_keeps id c e = ground (
    arith,
    lookup-insert (fmt.digest content) id content repo.loose,
    text_eq_iff (fmt.digest content) id,
  )

  -- Writing the same content a second time changes nothing and returns the same id.
  pub write-write : write fmt (write fmt repo content).0 content ≡ write fmt repo content
  unfolding write
  write-write = ground (
    arith,
    lookup-insert (fmt.digest content) (fmt.digest content) content repo.loose,
    text_eq_refl (fmt.digest content),
  )

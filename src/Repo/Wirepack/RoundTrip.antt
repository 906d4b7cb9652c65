-- ===== src/Repo/Wirepack/RoundTrip.antt =====
-- What `build` packs, `parse` gives back.
use Prim.Native.Nat.{Ordering}
use mcagit.Common.{
  ℕ, ◌≤◌, ◌<◌, ◌^◌, ◌/◌, ◌%◌, ◌≡◌, refl, ap, ◌∙◌, arith, List, [], ◌∷◌, ◌++◌, false, none, some,
  ltb, length, take, length-append, take-append,
}
use native.Mathlib.Nat.{zero-add}
use mcagit.Common.Text.{Text, compare_text}
use mcagit.Common.Dict.{Dict, lookup, insert}
use mcagit.Repo.Result.{ok, >>=-eq-ok}
use mcagit.Repo.Wirepack.{
  Codec, max_pack_total, be_bytes, be_value, feed_framed, for_each, collect_object, pack_objects,
  build, parse,
}
use mcagit.Repo.Wirepack.Verified.{Verified, total_size}
use mcagit.Repo.Wirepack.Matches.{distinct_objects, drop_first, Matches, pack_objects_lem}
use mcagit.Repo.Wirepack.Feed.{feed_lem}

module _ (codec : Codec) where
  Verified-insert :
      (id : Text) (content : List ℕ) (d : Dict (List ℕ))
      → codec.digest content ≡ id
      → Verified codec d
      → Verified codec (insert id content d)
  unfolding insert
  Verified-insert id content [] h v = (h, tt)
  Verified-insert id content ((j, c) ∷ d) h v =
      elim (compare_text id j)
        as (λ order. Verified codec (elim order [
          | Ordering.lt ↦ (id, content) ∷ (j, c) ∷ d
          | Ordering.eq ↦ (id, content) ∷ d
          | Ordering.gt ↦ (j, c) ∷ insert id content d
        ])) [
          | Ordering.lt ↦ (h, v)
          | Ordering.eq ↦ (h, v.1)
          | Ordering.gt ↦ (v.0, Verified-insert id content d h v.1)
        ]

  Verified-distinct :
      (objects : List (Text × List ℕ)) (d : Dict (List ℕ))
      → Verified codec objects
      → Verified codec d
      → Verified codec (distinct_objects objects d)
  unfolding distinct_objects
  Verified-distinct [] d v w = w
  Verified-distinct ((id, content) ∷ objects) d v w =
      elim (lookup id d)
        as (λ o. Verified codec (elim o [
          | some old ↦ distinct_objects objects d
          | none ↦ distinct_objects objects (insert id content d)
        ])) [
          | some old ↦ Verified-distinct objects d v.1 w
          | none ↦
              Verified-distinct objects (insert id content d) v.1
                (Verified-insert id content d v.0 w)
        ]

  framed_read :
      (json pack : List ℕ) (idx : Dict (ℕ × ℕ)) (d : Dict (List ℕ))
      → ((n : ℕ) (c p : List ℕ) → codec.deflate c ≡ some p → codec.inflate n p ≡ some (take n c))
      → codec.index_from_json json ≡ some idx
      → Matches codec pack idx d
      → length pack < 2 ^ 64
      → Verified codec d
      → total_size d ≤ max_pack_total
      → feed_framed codec collect_object (length json) (json ++ pack) [] ≡ ok (d, length d)
  unfolding feed_framed
  framed_read json pack idx d inflates read m short v small_total =
      let near : ltb (length (json ++ pack)) (length json) ≡ false =
        ground (arith, length-append json pack) in
      rw (near, take-append json pack, drop_first json pack, read)
        (feed_lem codec pack idx d 0 0 [] inflates m short v (omega (arith, small_total))
          ∙ rw (zero-add (length d)) refl)

  be_value-be_bytes :
      (n : ℕ)
      → n < 2 ^ 32
      → be_value (n / 0x100_0000 % 256) (n / 0x1_0000 % 256) (n / 0x100 % 256) (n % 256) ≡ n
  unfolding be_value
  be_value-be_bytes n h = omega (arith, h)

  laid_out_read :
      (json pack : List ℕ) (d : Dict (List ℕ))
      → feed_framed codec collect_object (length json) (json ++ pack) [] ≡ ok (d, length d)
      → length json < 2 ^ 32
      → parse codec (be_bytes (length json) ++ (json ++ pack)) ≡ ok d
  unfolding parse for_each be_bytes
  laid_out_read json pack d framed small = rw (be_value-be_bytes (length json) small, framed) refl

  body_sizes :
      (json pack body : List ℕ)
      → body ≡ be_bytes (length json) ++ (json ++ pack)
      → length body < 2 ^ 32
      → (length json < 2 ^ 32) × (length pack < 2 ^ 64)
  unfolding be_bytes
  body_sizes json pack body e h =
      let sizes = length-append json pack in
      let whole = ap length e in (omega (arith, sizes, whole, h), omega (arith, sizes, whole, h))

  -- Suppose that zstd inflates what it has deflated, cut at the asked length, that serde_json reads
  -- back the index that it wrote, that the objects are filed under their digests, and that the
  -- contents of distinct ids stay within the cap for a pack. If build returns a body below 2^32
  -- bytes, then parse of the body returns the objects in the order of their ids, the first one of
  -- each id.
  pub parse-build :
      (objects : List (Text × List ℕ)) (body : List ℕ)
      → ((n : ℕ) (c p : List ℕ) → codec.deflate c ≡ some p → codec.inflate n p ≡ some (take n c))
      → ((idx : Dict (ℕ × ℕ)) (pack : List ℕ)
          → pack_objects codec objects [] [] ≡ ok (idx, pack)
          → codec.index_from_json (codec.index_to_json idx) ≡ some idx)
      → Verified codec objects
      → total_size (distinct_objects objects []) ≤ max_pack_total
      → build codec objects ≡ ok body
      → length body < 2 ^ 32
      → parse codec body ≡ ok (distinct_objects objects [])
  unfolding build
  parse-build objects body inflates reads v small_total e short =
      let ((idx, pack), e1, f1) = >>=-eq-ok (pack_objects codec objects [] []) _ e in
      let json = codec.index_to_json idx in
      let laid : body ≡ be_bytes (length json) ++ (json ++ pack) = cc in
      let (small, packed) = body_sizes json pack body laid short in
      let m = pack_objects_lem codec objects [] idx [] pack [] e1 tt in
      let framed =
        framed_read json pack idx (distinct_objects objects []) inflates (reads idx pack e1) m
          packed (Verified-distinct objects [] v tt) small_total in
      rw laid (laid_out_read json pack (distinct_objects objects []) framed small)

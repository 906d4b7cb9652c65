-- ===== src/Repo/Wirepack.antt =====
-- crates/repo/src/wirepack.rs: many objects in one body, an index in JSON and the compressed contents.
-- A body that is read is untrusted.
pub mod Verified
pub mod Matches
pub mod Feed
pub mod RoundTrip
use mcagit.Common.{
  ℕ, zero, suc, ◌+◌, ◌*◌, ◌/◌, ◌%◌, ◌^◌, List, [], ◌∷◌, ◌++◌, Option, none, some, ltb, leb,
  if◌then◌else◌, length, take, drop,
}
use mcagit.Common.Text.{Text, text_eq}
use mcagit.Common.Dict.{Dict, lookup, insert}
use mcagit.Repo.Result.{Result, ok, err, ◌>>=◌, other}

-- The code of other crates: blake3's digest in hexadecimal, zstd, and serde_json on the index.
-- `inflate n` gives the first `n` bytes of the content at most.
pub record Codec : Type 0 where
  pub digest : List ℕ → Text
  pub deflate : List ℕ → Option (List ℕ)
  pub inflate : ℕ → List ℕ → Option (List ℕ)
  pub index_to_json : Dict (ℕ × ℕ) → List ℕ
  pub index_from_json : List ℕ → Option (Dict (ℕ × ℕ))

unfoldable pub max_object_size : ℕ
max_object_size = 512 * 1024 * 1024

unfoldable pub max_pack_total : ℕ
max_pack_total = 512 * 1024 * 1024

-- `?` on an error of another crate.
abbrev pub or_other {ℓ} : {A : Type ℓ} → Option A → Result A
or_other none = err other
or_other (some a) = ok a

-- `u32::to_be_bytes` and `from_be_bytes`
unfoldable pub be_bytes : ℕ → List ℕ
be_bytes n = (n / 0x100_0000 % 256) ∷ (n / 0x1_0000 % 256) ∷ (n / 0x100 % 256) ∷ (n % 256) ∷ []

unfoldable pub be_value : ℕ → ℕ → ℕ → ℕ → ℕ
be_value a b c d = a * 0x100_0000 + b * 0x1_0000 + c * 0x100 + d

-- The bytes `pack[off..end]` of an entry; the sum must not overflow, nor pass the end.
unfoldable pub entry_bytes : List ℕ → ℕ → ℕ → Result (List ℕ)
entry_bytes pack off len =
    if leb (2 ^ 64) (off + len)
    then err other
    else if ltb (length pack) (off + len)
    then err other
    else ok (take len (drop off pack))

abbrev pub collect_object : List (Text × List ℕ) → Text → List ℕ → Result (List (Text × List ℕ))
collect_object out id content = ok (out ++ ((id, content) ∷ []))

module _ (codec : Codec) where
  -- The loop of `build`: an id that is there already is skipped.
  unfoldable pub pack_objects :
      List (Text × List ℕ) → Dict (ℕ × ℕ) → List ℕ → Result (Dict (ℕ × ℕ) × List ℕ)
  pack_objects [] idx pack = ok (idx, pack)
  pack_objects ((id, content) ∷ objects) idx pack = elim (lookup id idx) [
    | some place ↦ pack_objects objects idx pack
    | none ↦ do
      packed ← or_other (codec.deflate content)
      pack_objects objects (insert id (length pack, length packed) idx) (pack ++ packed)
  ]

  unfoldable pub build : List (Text × List ℕ) → Result (List ℕ)
  build objects = do
    out ← pack_objects objects [] []
    let idx_json = codec.index_to_json out.0
    ok (be_bytes (length idx_json) ++ (idx_json ++ out.1))

  -- Decompression with a hard cap.
  unfoldable pub bounded_decode : List ℕ → Result (List ℕ)
  bounded_decode packed = do
    out ← or_other (codec.inflate (max_object_size + 1) packed)
    if ltb max_object_size (length out) then err other else ok out

  -- The checks of one entry: its content, and the new total.
  unfoldable pub check_entry : List ℕ → ℕ → Text → ℕ → ℕ → Result (List ℕ × ℕ)
  check_entry pack total id off len = do
    packed ← entry_bytes pack off len
    content ← bounded_decode packed
    if ltb max_pack_total (total + length content)
        then err other
        else if text_eq (codec.digest content) id
        then ok (content, total + length content)
        else err other

  module _ {S : Type 0} (sink : S → Text → List ℕ → Result S) where
    -- The loop of `for_each`: the state of the sink and the number of objects.
    unfoldable pub feed : List ℕ → Dict (ℕ × ℕ) → ℕ → ℕ → S → Result (S × ℕ)
    feed pack [] total n s = ok (s, n)
    feed pack ((id, (off, len)) ∷ idx) total n s = do
      checked ← check_entry pack total id off len
      s' ← sink s id checked.0
      feed pack idx checked.1 (suc n) s'

    -- The body behind the length of its index.
    unfoldable pub feed_framed : ℕ → List ℕ → S → Result (S × ℕ)
    feed_framed idx_len rest s = if ltb (length rest) idx_len then err other else (do
      idx ← or_other (codec.index_from_json (take idx_len rest))
      feed (drop idx_len rest) idx 0 0 s)

    unfoldable pub for_each : List ℕ → S → Result (S × ℕ)
    for_each (a ∷ b ∷ c ∷ d ∷ rest) s = feed_framed (be_value a b c d) rest s
    for_each _ s = err other

  unfoldable pub parse : List ℕ → Result (List (Text × List ℕ))
  parse body = for_each collect_object body [] >>= λ r. ok r.0

-- ===== src/Anvil/Writer/Beside.antt =====
-- The directory of the region file, after the writer put the large chunks beside it.
use mcagit.Common.{
  ℕ, ◌≤◌, ◌≡◌, ◌≢◌, ◌↔◌, refl, sym, ap, arith, List, [], ◌∷◌, ◌++◌, Bool, true, false, Option, none,
  some, if◌then◌else◌, length, eq_ℤ_iff, ◌&&◌, Bool-cases, inl, inr,
}
use mcagit.Anvil.Chunk.{ChunkPos, RawChunk, region_index}
use mcagit.Anvil.Region.{External, ok, max_external_chunk, external_payload, same_place}
use mcagit.Anvil.Writer.{spilled}
use mcagit.Anvil.Writer.Place.{Absent}
use mcagit.Anvil.Writer.Fields.{big}

-- The directory after files were written to it: the last content of each name.
unfoldable pub find_file : ChunkPos → List (ChunkPos × List ℕ) → Option (List ℕ)
find_file p [] = none
find_file p ((q, content) ∷ fs) = elim (find_file p fs) [
  | some later ↦ some later
  | none ↦ if same_place p q then some content else none
]

abbrev pub regular : Option (List ℕ) → Option (Bool × ℕ)
regular none = none
regular (some content) = some (true, length content)

unfoldable pub directory : List (ChunkPos × List ℕ) → External
directory fs = record { metadata = λ p. regular (find_file p fs); content = λ p. find_file p fs }

pub same_place_iff : (p q : ChunkPos) → (same_place p q ≡ true) ↔ (p ≡ q)
same_place_iff p q = ground (arith, eq_ℤ_iff p.x q.x, eq_ℤ_iff p.z q.z)

pub found_first : ChunkPos → RawChunk → Option (List ℕ) → Option (List ℕ)
found_first p c none = if big c && same_place p c.place then some c.payload else none
found_first p c (some later) = some later

pub find_spilled_cons :
    (p : ChunkPos) (c : RawChunk) (cs : List RawChunk)
    → find_file p (spilled (c ∷ cs)) ≡ found_first p c (find_file p (spilled cs))
unfolding spilled find_file found_first
find_spilled_cons p c cs = ground arith

pub other_place :
    (c : RawChunk) (p : ChunkPos)
    → region_index c.place ≢ region_index p
    → same_place p c.place ≡ false
other_place c p d = elim (Bool-cases (same_place p c.place)) [
  | inl e ↦ absurd (d (ap region_index (sym ((same_place_iff p c.place).0 e))))
  | inr e ↦ e
]

pub nothing : (p : ChunkPos) → find_file p (spilled []) ≡ none
unfolding spilled find_file
nothing p = refl

pub find-Absent :
    (cs : List RawChunk) (p : ChunkPos)
    → Absent (region_index p) cs
    → find_file p (spilled cs) ≡ none
unfolding found_first
find-Absent [] p a = nothing p
find-Absent (c ∷ cs) p a =
    ground (arith, find_spilled_cons p c cs, other_place c p a.0, find-Absent cs p a.1)

pub find_spilled :
    (pre post : List RawChunk) (c : RawChunk)
    → Absent (region_index c.place) post
    → big c ≡ true
    → find_file c.place (spilled (pre ++ (c ∷ post))) ≡ some c.payload
unfolding found_first
find_spilled [] post c a h = ground (
  arith,
  h,
  find_spilled_cons c.place c post,
  find-Absent post c.place a,
  (same_place_iff c.place c.place).1 refl,
)
find_spilled (d ∷ pre) post c a h =
    ground (arith, find_spilled_cons c.place d (pre ++ (c ∷ post)), find_spilled pre post c a h)

pub external_payload-ok :
    (fs : List (ChunkPos × List ℕ)) (p : ChunkPos) (content : List ℕ)
    → find_file p fs ≡ some content
    → length content ≤ max_external_chunk
    → external_payload (directory fs) p ≡ ok (some content)
unfolding external_payload directory
external_payload-ok fs p content found short = rw (found, external_payload) (ground arith)

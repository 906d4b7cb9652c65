-- ===== src/Repo/Wirepack/Feed.antt =====
-- The loop of `for_each` on a pack that holds what its index says.
use mcagit.Common.{
  ℕ, suc, ◌+◌, ◌≤◌, ◌<◌, ◌^◌, ◌≡◌, refl, sym, ◌∙◌, arith, List, [], ◌∷◌, ◌++◌, append_assoc,
  append-nil, some, length, take, drop, take_all,
}
use native.Mathlib.Nat.{add-zero}
use mcagit.Common.Text.{Text, text_eq_iff}
use mcagit.Common.Dict.{Dict}
use mcagit.Repo.Result.{ok}
use mcagit.Repo.Wirepack.{
  Codec, max_object_size, max_pack_total, entry_bytes, bounded_decode, check_entry, feed,
  collect_object,
}
use mcagit.Repo.Wirepack.Verified.{Verified, total_size}
use mcagit.Repo.Wirepack.Matches.{Matches}

module _ (codec : Codec) where
  pub entry_bytes-ok :
      (pack : List ℕ) (o l : ℕ)
      → o + l ≤ length pack
      → length pack < 2 ^ 64
      → entry_bytes pack o l ≡ ok (take l (drop o pack))
  unfolding entry_bytes
  entry_bytes-ok pack o l b short = ground arith

  pub bounded_decode-ok :
      (packed content : List ℕ)
      → codec.inflate (max_object_size + 1) packed ≡ some (take (max_object_size + 1) content)
      → length content ≤ max_object_size
      → bounded_decode codec packed ≡ ok content
  unfolding bounded_decode
  bounded_decode-ok packed content e small_total =
      ground (arith, e, take_all (max_object_size + 1) content)

  pub caps_agree : max_pack_total ≡ max_object_size
  unfolding max_pack_total max_object_size
  caps_agree = refl

  pub entry_read :
      (pack content : List ℕ) (total : ℕ) (id : Text) (o l : ℕ)
      → ((n : ℕ) (c p : List ℕ) → codec.deflate c ≡ some p → codec.inflate n p ≡ some (take n c))
      → codec.deflate content ≡ some (take l (drop o pack))
      → o + l ≤ length pack
      → length pack < 2 ^ 64
      → codec.digest content ≡ id
      → total + length content ≤ max_pack_total
      → check_entry codec pack total id o l ≡ ok (content, total + length content)
  unfolding check_entry
  entry_read pack content total id o l inflates e b short h small_total =
      let slice = take l (drop o pack) in
      let decoded =
        bounded_decode-ok slice content (inflates (max_object_size + 1) content slice e)
          (omega (arith, small_total, caps_agree)) in
      rw (entry_bytes-ok pack o l b short, decoded)
        (ground (arith, small_total, h, text_eq_iff (codec.digest content) id))

  pub feed_lem :
      (pack : List ℕ) (idx : Dict (ℕ × ℕ)) (d : Dict (List ℕ)) (total n : ℕ)
      (out : List (Text × List ℕ))
      → ((n : ℕ) (c p : List ℕ) → codec.deflate c ≡ some p → codec.inflate n p ≡ some (take n c))
      → Matches codec pack idx d
      → length pack < 2 ^ 64
      → Verified codec d
      → total + total_size d ≤ max_pack_total
      → feed codec collect_object pack idx total n out ≡ ok (out ++ d, n + length d)
  unfolding feed
  feed_lem pack [] [] total n out inflates m short v small_total =
      rw (append-nil out, add-zero n) refl
  feed_lem pack ((i, (o, l)) ∷ idx) ((j, c) ∷ d) total n out inflates m short v small_total =
      let read =
        entry_read pack c total i o l inflates m.0.1.0 m.0.1.1 short (v.0 ∙ sym m.0.0)
          (omega (arith, small_total)) in
      let rest =
        feed_lem pack idx d (total + length c) (suc n) (out ++ ((i, c) ∷ [])) inflates m.1 short v.1
          (omega (arith, small_total)) in
      let count : suc n + length d ≡ n + suc (length d) = omega arith in
      rw read (rest ∙ rw (append_assoc out ((i, c) ∷ []) d, m.0.0, count) refl)
  feed_lem pack [] (e ∷ d) total n out inflates m short v small_total = absurd m
  feed_lem pack (e ∷ idx) [] total n out inflates m short v small_total = absurd m

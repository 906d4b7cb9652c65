-- ===== src/Repo/Wirepack/Verified.antt =====
-- What `parse` hands on was checked.
use mcagit.Common.{
  ℕ, suc, ◌+◌, ◌≤◌, ◌≡◌, refl, sym, subst, arith, List, [], ◌∷◌, ◌++◌, ltb, length, take, drop,
}
use mcagit.Common.Text.{Text, text_eq_iff}
use mcagit.Common.Dict.{Dict}
use mcagit.Repo.Result.{ok, other, check_passed, >>=-eq-ok}
use mcagit.Repo.Wirepack.{
  Codec, max_pack_total, or_other, be_value, entry_bytes, bounded_decode, check_entry, feed,
  feed_framed, for_each, collect_object, parse,
}

abbrev pub total_size : List (Text × List ℕ) → ℕ
total_size [] = 0
total_size ((id, content) ∷ objects) = length content + total_size objects

total_size-append :
    (xs ys : List (Text × List ℕ)) → total_size (xs ++ ys) ≡ total_size xs + total_size ys
total_size-append [] ys = omega arith
total_size-append ((id, content) ∷ xs) ys = omega (arith, total_size-append xs ys)

module _ (codec : Codec) where
  -- Each content has its id for digest.
  abbrev pub Verified : List (Text × List ℕ) → Type 0
  Verified [] = Unit {0}
  Verified ((id, content) ∷ objects) = (codec.digest content ≡ id) × Verified objects

  Verified-append :
      (xs : List (Text × List ℕ)) (id : Text) (content : List ℕ)
      → Verified xs
      → codec.digest content ≡ id
      → Verified (xs ++ ((id, content) ∷ []))
  Verified-append [] id content v h = (h, tt)
  Verified-append ((j, c) ∷ xs) id content v h = (v.0, Verified-append xs id content v.1 h)

  check_entry_lem :
      (pack : List ℕ) (total : ℕ) (id : Text) (off len : ℕ) (content : List ℕ) (t : ℕ)
      → check_entry codec pack total id off len ≡ ok (content, t)
      → (codec.digest content ≡ id) × (t ≡ total + length content) × (t ≤ max_pack_total)
  unfolding check_entry
  check_entry_lem pack total id off len content t e =
      let (packed, e1, f1) = >>=-eq-ok (entry_bytes pack off len) _ e in
      let (decoded, e2, f2) = >>=-eq-ok (bounded_decode codec packed) _ f1 in
      ground (arith, text_eq_iff (codec.digest decoded) id)

  feed-Verified :
      (pack : List ℕ) (idx : Dict (ℕ × ℕ)) (total n : ℕ) (out : List (Text × List ℕ))
      (r : List (Text × List ℕ)) (k : ℕ)
      → feed codec collect_object pack idx total n out ≡ ok (r, k)
      → Verified out
      → total_size out ≡ total
      → total ≤ max_pack_total
      → Verified r × (total_size r ≤ max_pack_total)
  unfolding feed
  feed-Verified pack [] total n out r k e v s b =
      let same : r ≡ out = cc in
      subst (λ (l : List (Text × List ℕ)). Verified l × (total_size l ≤ max_pack_total)) (sym same)
        (v, omega (arith, s, b))
  feed-Verified pack ((id, (off, len)) ∷ idx) total n out r k e v s b =
      let ((content, t), e1, f1) = >>=-eq-ok (check_entry codec pack total id off len) _ e in
      let (good, sum, cap) = check_entry_lem pack total id off len content t e1 in
      feed-Verified pack idx t (suc n) (out ++ ((id, content) ∷ [])) r k f1
        (Verified-append out id content v good)
        (omega (arith, total_size-append out ((id, content) ∷ []))) cap

  framed-Verified :
      (idx_len : ℕ) (rest : List ℕ) (r : List (Text × List ℕ)) (k : ℕ)
      → feed_framed codec collect_object idx_len rest [] ≡ ok (r, k)
      → Verified r × (total_size r ≤ max_pack_total)
  unfolding feed_framed
  framed-Verified idx_len rest r k e =
      let (near, f) = check_passed (ltb (length rest) idx_len) other _ e in
      let (idx, e1, f1) = >>=-eq-ok (or_other (codec.index_from_json (take idx_len rest))) _ f in
      feed-Verified (drop idx_len rest) idx 0 0 [] r k f1 tt refl (omega arith)

  -- On every body, if parse returns objects, then each content has its id for digest, and together
  -- the contents are within the cap for a pack.
  pub parse-Verified :
      (body : List ℕ) (objects : List (Text × List ℕ))
      → parse codec body ≡ ok objects
      → Verified objects × (total_size objects ≤ max_pack_total)
  unfolding parse for_each
  parse-Verified (a ∷ b ∷ c ∷ d ∷ rest) objects e =
      let ((r, k), e1, f1) =
        >>=-eq-ok (feed_framed codec collect_object (be_value a b c d) rest []) _ e in
      let same : objects ≡ r = cc in
      subst (λ (l : List (Text × List ℕ)). Verified l × (total_size l ≤ max_pack_total)) (sym same)
        (framed-Verified (be_value a b c d) rest r k e1)
  parse-Verified [] objects e = cc
  parse-Verified (a ∷ []) objects e = cc
  parse-Verified (a ∷ b ∷ []) objects e = cc
  parse-Verified (a ∷ b ∷ c ∷ []) objects e = cc

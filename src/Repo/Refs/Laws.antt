-- ===== src/Repo/Refs/Laws.antt =====
-- What a branch reads as after it was written.
use mcagit.Common.{
  ℕ, Bool, ltb, not, ◌≡◌, refl, sym, ◌∙◌, ap, arith, List, [], ◌∷◌, ◌++◌, true, false, ◌&&◌, Option,
  none, some, ◌==◌, if◌then◌else◌, Bool-cases, Option-cases, inl, inr,
}
use mcagit.Common.Text.{Text, text_eq, codes}
use mcagit.Common.Dict.{Dict, lookup, insert, lookup-insert}
use mcagit.Common.Split.{
  is_space, trim, trim_start, trim_from, trim_end, space_at, latin_space, wide_space, split,
}
use mcagit.Repo.Result.{ok, >>=-eq-ok, test_passed, bad_ref}
use mcagit.Repo.Directory.{
  Directory, create_parents, write_file, read_file, file_key, same_file, canonical, solid, slashed,
  ends_blank,
}
use mcagit.Repo.Refs.{
  branch_path, branch_log_path, tag_path, nonempty, read_trimmed, read_branch, read_tag, write_ref,
  append_reflog, write_branch, safe_ref_name,
}

-- The byte of an ASCII character that is not white space.
abbrev pub is_mark : ℕ → Bool
is_mark c = ltb c 0x80 && not (is_space c)

-- A text of such characters, with at least one.
abbrev pub IsWord : Text → Type 0
IsWord [] = ⊥
IsWord (c ∷ []) = is_mark c ≡ true
IsWord (c ∷ d ∷ s) = (is_mark c ≡ true) × IsWord (d ∷ s)

trim_start_mark : (c : ℕ) (s : Text) → is_mark c ≡ true → trim_start (c ∷ s) ≡ c ∷ s
unfolding trim_start trim_from space_at
trim_start_mark c s h = ground (arith, h)

trim_end_mark : (c : ℕ) (s : Text) → is_mark c ≡ true → trim_end (c ∷ s) ≡ c ∷ trim_end s
unfolding trim_end
trim_end_mark c s h = rw (trim_start_mark c s h, trim_end) refl

trim_end_word : (s : Text) → IsWord s → trim_end (s ++ (10 ∷ [])) ≡ s
unfolding trim_end trim_start trim_from space_at latin_space wide_space
trim_end_word [] w = absurd w
trim_end_word (c ∷ []) w = trim_end_mark c (10 ∷ []) w
trim_end_word (c ∷ d ∷ s) w =
    trim_end_mark c (d ∷ (s ++ (10 ∷ []))) w.0 ∙ ap (λ t. c ∷ t) (trim_end_word (d ∷ s) w.1)

pub trim_word : (s : Text) → IsWord s → trim (s ++ (10 ∷ [])) ≡ s
unfolding trim
trim_word [] w = absurd w
trim_word (c ∷ []) w = rw (trim_end_word (c ∷ []) w) (trim_start_mark c [] w)
trim_word (c ∷ d ∷ s) w = rw (trim_end_word (c ∷ d ∷ s) w) (trim_start_mark c (d ∷ s) w.0)

nonempty_word : (s : Text) → IsWord s → nonempty s ≡ some s
nonempty_word [] w = absurd w
nonempty_word (c ∷ s) w = refl

split-cons : (b : ℕ) (s : Text) → (p : Text) × (ps : List Text) × (split b s ≡ p ∷ ps)
unfolding split
split-cons b [] = ([], [], refl)
split-cons b (c ∷ s) =
    let (p, ps, e) = split-cons b s in
    elim (Bool-cases (c == b)) [
      | inl h ↦ ([], p ∷ ps, rw (e, h) refl)
      | inr h ↦ (c ∷ p, ps, rw (e, h) refl)
    ]

-- Where the files of references stand.
branch_key :
    (name : Text) (k : Text)
    → file_key (branch_path name) ≡ some k
    → (t : Text) × (k ≡ codes "refs/heads" ++ t)
unfolding file_key canonical split solid slashed ends_blank
branch_key name k e =
    let (p, ps, q) = split-cons b'/' name in
    (slashed (solid (p ∷ ps)), sym (ground (arith, e, rw q at e)))

log_key :
    (name : Text) (k : Text)
    → file_key (branch_log_path name) ≡ some k
    → (t : Text) × (k ≡ codes "logs/refs/heads" ++ t)
unfolding file_key canonical split solid slashed ends_blank
log_key name k e =
    let (p, ps, q) = split-cons b'/' name in
    (slashed (solid (p ∷ ps)), sym (ground (arith, e, rw q at e)))

tag_key :
    (name : Text) (k : Text)
    → file_key (tag_path name) ≡ some k
    → (t : Text) × (k ≡ codes "refs/tags" ++ t)
unfolding file_key canonical split solid slashed ends_blank
tag_key name k e =
    let (p, ps, q) = split-cons b'/' name in
    (slashed (solid (p ∷ ps)), sym (ground (arith, e, rw q at e)))

-- The files after a write below directories that are made first.
made_files :
    (dir made : Directory) (path : Text)
    → create_parents dir path ≡ ok made
    → made.files ≡ dir.files
unfolding create_parents
made_files dir made path e = ground arith

written_files :
    (dir written : Directory) (path content : Text)
    → write_file dir path content ≡ ok written
    → (k : Text) × (file_key path ≡ some k) × (written.files ≡ insert k content dir.files)
unfolding write_file
written_files dir written path content e = elim (Option-cases (file_key path)) [
  | inl n ↦ absurd (ground (arith, e, n))
  | inr (k, s) ↦ (k, s, ground (arith, e, s))
]

-- A content that a write below new directories puts in place.
made_written :
    (dir made written : Directory) (path content : Text)
    → create_parents dir path ≡ ok made
    → write_file made path content ≡ ok written
    → (k : Text) × (file_key path ≡ some k) × (written.files ≡ insert k content dir.files)
made_written dir made written path content e f =
    let (k, s, files) = written_files made written path content f in
    (k, s, files ∙ ap (insert k content) (made_files dir made path e))

write_branch_files :
    (dir dir' : Directory) (name hash : Text)
    → write_branch dir name hash ≡ ok dir'
    → (k : Text) × (kl : Text) × (log : Text) × (file_key (branch_path name) ≡ some k)
      × (file_key (branch_log_path name) ≡ some kl)
      × (safe_ref_name name ≡ true)
      × (dir'.files ≡ insert kl log (insert k (hash ++ (10 ∷ [])) dir.files))
unfolding write_branch write_ref append_reflog
write_branch_files dir dir' name hash e =
    let (safe, f) = test_passed (safe_ref_name name) bad_ref _ e in
    let (written, e1, f1) = >>=-eq-ok (write_ref dir (branch_path name) hash) _ f in
    let (made, e2, f2) = >>=-eq-ok (create_parents dir (branch_path name)) _ e1 in
    let (made', e3, f3) = >>=-eq-ok (create_parents written (branch_log_path name)) _ f1 in
    let (k, s, files) = made_written dir made written (branch_path name) _ e2 f2 in
    let (kl, sl, files') = made_written written made' dir' (branch_log_path name) _ e3 f3 in
    (k, kl, _, s, sl, safe, files' ∙ ap (insert kl _) files)

-- What stands where after a branch was written: its content under its own key, and the old one under
-- every key that is not the one of its log.
lookup_after :
    (files moved : Dict Text) (k kl content log ko : Text)
    → moved ≡ insert kl log (insert k content files)
    → text_eq kl ko ≡ false
    → lookup ko moved ≡ (if text_eq k ko then some content else lookup ko files)
lookup_after files moved k kl content log ko e h =
    ap (lookup ko) e
    ∙ ground (
      arith,
      h,
      lookup-insert kl ko log (insert k content files),
      lookup-insert k ko content files,
    )

branch_file :
    (dir dir' : Directory) (name hash other : Text)
    → write_branch dir name hash ≡ ok dir'
    → read_file dir' (branch_path other) ≡ (
        if same_file (branch_path name) (branch_path other)
        then some (hash ++ (10 ∷ []))
        else read_file dir (branch_path other))
unfolding read_file text_eq
branch_file dir dir' name hash other e =
    let (k, kl, log, ek, el, safe, files) = write_branch_files dir dir' name hash e in
    elim (Option-cases (file_key (branch_path other))) [
      | inl n ↦ rw (n, ek) refl
      | inr (ko, s) ↦
          let (t, tk) = log_key name kl el in
          let (u, uk) = branch_key other ko s in
          let apart : text_eq kl ko ≡ false =
            ap (λ x. text_eq x ko) tk ∙ ap (text_eq (codes "logs/refs/heads" ++ t)) uk in
          rw (s, ek) (lookup_after dir.files dir'.files k kl (hash ++ (10 ∷ [])) log ko files apart)
    ]

tag_file :
    (dir dir' : Directory) (name hash other : Text)
    → write_branch dir name hash ≡ ok dir'
    → read_file dir' (tag_path other) ≡ read_file dir (tag_path other)
unfolding read_file text_eq
tag_file dir dir' name hash other e =
    let (k, kl, log, ek, el, safe, files) = write_branch_files dir dir' name hash e in
    elim (Option-cases (file_key (tag_path other))) [
      | inl n ↦ rw n refl
      | inr (ko, s) ↦
          let (t, tk) = log_key name kl el in
          let (u, uk) = tag_key other ko s in
          let (v, vk) = branch_key name k ek in
          let apart : text_eq kl ko ≡ false =
            ap (λ x. text_eq x ko) tk ∙ ap (text_eq (codes "logs/refs/heads" ++ t)) uk in
          let differ : text_eq k ko ≡ false =
            ap (λ x. text_eq x ko) vk ∙ ap (text_eq (codes "refs/heads" ++ v)) uk in
          rw s (
            lookup_after dir.files dir'.files k kl (hash ++ (10 ∷ [])) log ko files apart
            ∙ rw differ refl)
    ]

read_trimmed_as :
    (dir : Directory) (path : Text) (o : Option Text)
    → read_file dir path ≡ o
    → read_trimmed dir path ≡ (elim o [ none ↦ none | some s ↦ nonempty (trim s) ])
unfolding read_trimmed
read_trimmed_as dir path o e = rw (e, read_trimmed) refl

-- If write_branch returns for a hash of ASCII characters without white space, at least one, then
-- every safe name whose branch is kept in the same file (its parts are those of the name, apart
-- from empty ones and `.`) reads as the hash, every other name reads as it did before, and so does
-- every tag.
pub read_branch-write_branch :
    (dir dir' : Directory) (name hash other : Text)
    → write_branch dir name hash ≡ ok dir'
    → IsWord hash
    → (read_branch dir' other ≡ (
        if safe_ref_name other && same_file (branch_path name) (branch_path other)
        then some hash
        else read_branch dir other))
      × (read_tag dir' other ≡ read_tag dir other)
unfolding read_branch read_tag read_trimmed
read_branch-write_branch dir dir' name hash other e w = (
  elim (Bool-cases (same_file (branch_path name) (branch_path other))) [
    | inl same ↦
        let file : read_file dir' (branch_path other) ≡ some (hash ++ (10 ∷ [])) =
          branch_file dir dir' name hash other e ∙ rw same refl in
        let here : read_trimmed dir' (branch_path other) ≡ some hash =
          read_trimmed_as dir' (branch_path other) _ file
          ∙ rw (trim_word hash w) (nonempty_word hash w) in
        ground (arith, same, here)
    | inr apart ↦
        let file : read_file dir' (branch_path other) ≡ read_file dir (branch_path other) =
          branch_file dir dir' name hash other e ∙ rw apart refl in
        ground (arith, apart, file)
  ],
  ground (arith, tag_file dir dir' name hash other e),
)

-- ===== src/Tests/Packing.antt =====
-- Wire packs and the status at concrete inputs.
use mcagit.Common.{ℕ, ◌≤◌, ◌≡◌, refl, List, [], ◌∷◌, Option, none, some, take, arith}
use mcagit.Common.Text.{Text, codes, text_eq, compare_text}
use mcagit.Common.Dict.{Dict, lookup, insert}
use mcagit.Common.Members.{contains}
use mcagit.Repo.Result.{ok}
use mcagit.Repo.Wirepack.{Codec, max_pack_total, pack_objects, build, parse, be_bytes}
use mcagit.Repo.Wirepack.Matches.{distinct_objects}
use mcagit.Repo.Wirepack.Verified.{Verified, total_size, parse-Verified}
use mcagit.Repo.Wirepack.RoundTrip.{parse-build}
use mcagit.Repo.Status.{flatten, put_regions, put_ids, put_dirs, chunk_lines, status_full}
use mcagit.Repo.Status.At.{change_at, classify}
use mcagit.Repo.Status.Full.{status_full_exact, not_added, is_added}
use mcagit.Tests.Sample.{sample_format, root_files, ours_files}

-- A pack's one entry, as its index has it.
abbrev one_place : Dict (ℕ × ℕ)
one_place = (7 ∷ 8 ∷ [], (0, 2)) ∷ []

-- Ids are the contents themselves, nothing is compressed, and the one index is a byte.
abbrev plain_codec : Codec
plain_codec = record {
  digest = λ c. c;
  deflate = λ c. some c;
  inflate = λ n p. some (take n p);
  index_to_json = λ idx. 42 ∷ [];
  index_from_json = λ json. some one_place;
}

abbrev one_object : List (Text × List ℕ)
one_object = (7 ∷ 8 ∷ [], 7 ∷ 8 ∷ []) ∷ (7 ∷ 8 ∷ [], 7 ∷ 8 ∷ []) ∷ []

abbrev one_body : List ℕ
one_body = 0 ∷ 0 ∷ 0 ∷ 1 ∷ 42 ∷ 7 ∷ 8 ∷ []

one_object-built : build plain_codec one_object ≡ ok one_body
unfolding build pack_objects lookup insert text_eq be_bytes
one_object-built = refl

one_index :
    (idx : Dict (ℕ × ℕ)) (pack : List ℕ)
    → pack_objects plain_codec one_object [] [] ≡ ok (idx, pack)
    → ◌≡◌ {A = Option (Dict (ℕ × ℕ))} (some one_place) (some idx)
unfolding pack_objects lookup insert text_eq
one_index idx pack e = cc

parse-build_example : parse plain_codec one_body ≡ ok (distinct_objects one_object [])
unfolding distinct_objects max_pack_total lookup insert text_eq
parse-build_example =
    parse-build plain_codec one_object one_body (λ n c p e. ground arith) one_index
      (refl, (refl, tt)) (omega arith) one_object-built (omega arith)

parse-Verified_example :
    Verified plain_codec (distinct_objects one_object [])
    × (total_size (distinct_objects one_object []) ≤ max_pack_total)
parse-Verified_example =
    parse-Verified plain_codec one_body (distinct_objects one_object []) parse-build_example

status_full_exact_example :
    let report = status_full sample_format root_files none ours_files in
    (change_at (codes "empty") report.staged ≡ classify none none)
    × (change_at (codes "empty") report.unstaged ≡ not_added (classify none (some (codes "d:"))))
    × (contains report.untracked (codes "empty") ≡ is_added (classify none (some (codes "d:"))))
unfolding flatten put_regions put_ids put_dirs insert lookup text_eq compare_text chunk_lines
status_full_exact_example =
    status_full_exact sample_format root_files none ours_files (codes "empty")

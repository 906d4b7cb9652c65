-- ===== src/Tests/Bisecting.antt =====
-- Sessions of crates/repo/src/bisect.rs on the sample repository.
use mcagit.Common.{ℕ, List, [], ◌∷◌, Bool, true, false, Option, none, some, ◌≡◌, ◌≢◌, ◌⊎◌, refl}
use mcagit.Common.Text.{Text, text_eq, codes}
use mcagit.Common.Members.{contains}
use mcagit.Repo.Result.{ok, err, diverged}
use mcagit.Repo.Bisect.{Session, start, set_bad, add_good, add_skip, test, done, compute}
use mcagit.Repo.Bisect.State.{compute-ne-diverged}
use mcagit.Repo.Bisect.Answer.{IsSuspect, Halves, compute-Halves, compute-done}
use mcagit.Tests.Sample.{sample_format, with_merge, hash, root_id, ours_id, theirs_id}

-- The merge is bad and the root is good.
abbrev two_left : Session
two_left = add_good (set_bad (start (codes "main")) (hash b'd')) root_id

two_left_next : compute sample_format with_merge two_left ≡ ok (test ours_id 2)
unfolding compute mcagit.Repo.Bisect.compute_from mcagit.Repo.Bisect.append_unique contains text_eq
    mcagit.Repo.Bisect.compute_marked mcagit.Repo.Bisect.ancestors_incl mcagit.Repo.History.walk
    mcagit.Repo.Store.parents_of mcagit.Repo.Store.at_boundary mcagit.Repo.Store.read_commit
    mcagit.Repo.Store.read mcagit.Repo.Store.is_object_id mcagit.Common.Dict.lookup
    mcagit.Repo.History.push_all mcagit.Repo.History.unvisited mcagit.Repo.Bisect.exonerate
    mcagit.Repo.Bisect.pick mcagit.Common.Text.compare_text mcagit.Repo.Bisect.answer
    mcagit.Repo.Bisect.better mcagit.Repo.Bisect.candidates_of mcagit.Repo.Bisect.score_of
    mcagit.Repo.Bisect.without mcagit.Repo.History.insert_sorted mcagit.Repo.History.intersection
    mcagit.Repo.History.sort mcagit.Repo.Store.from_json
two_left_next = refl

compute-Halves_example :
    (bad : Text) × (two_left.bad ≡ some bad)
    × (suspects : List Text) × Halves sample_format with_merge bad two_left.good two_left.skip
        suspects ours_id 2
compute-Halves_example = compute-Halves sample_format with_merge two_left ours_id 2 two_left_next

-- One of the two candidates is skipped, the other is good.
abbrev none_left : Session
none_left = add_skip (add_good two_left ours_id) theirs_id

none_left_done : compute sample_format with_merge none_left ≡ ok (done (hash b'd'))
unfolding compute mcagit.Repo.Bisect.compute_from mcagit.Repo.Bisect.append_unique contains text_eq
    mcagit.Repo.Bisect.compute_marked mcagit.Repo.Bisect.ancestors_incl mcagit.Repo.History.walk
    mcagit.Repo.Store.parents_of mcagit.Repo.Store.at_boundary mcagit.Repo.Store.read_commit
    mcagit.Repo.Store.read mcagit.Repo.Store.is_object_id mcagit.Common.Dict.lookup
    mcagit.Repo.History.push_all mcagit.Repo.History.unvisited mcagit.Repo.Bisect.exonerate
    mcagit.Repo.Bisect.pick mcagit.Common.Text.compare_text mcagit.Repo.Bisect.answer
    mcagit.Repo.Bisect.better mcagit.Repo.Bisect.candidates_of mcagit.Repo.Bisect.score_of
    mcagit.Repo.Bisect.without mcagit.Repo.History.insert_sorted mcagit.Repo.History.intersection
    mcagit.Repo.History.sort mcagit.Repo.Store.from_json
none_left_done = refl

compute-done_example :
    (none_left.bad ≡ some (hash b'd'))
    × ((d : Text)
        → IsSuspect sample_format with_merge (hash b'd') none_left.good d
        → (d ≡ hash b'd') ⊎ (contains none_left.skip d ≡ true))
compute-done_example = compute-done sample_format with_merge none_left (hash b'd') none_left_done

compute-ne-diverged_example : compute sample_format with_merge two_left ≢ err diverged
compute-ne-diverged_example = compute-ne-diverged sample_format with_merge two_left

-- ===== src/Tests/Selecting.antt =====
-- Specifications of crates/repo/src/pathspec.rs, the cases of its own tests among them.
use mcagit.Common.{true, false, ◌≡◌, refl}
use mcagit.Common.Text.{text_eq, codes}
use mcagit.Repo.Pathspec.{
  seg_match, seg_loop, only_stars, glob_match, all_match, segments, below_dir, trim_end,
  matches_trimmed, matches_one,
}
use mcagit.Repo.Pathspec.Glob.{NoStar, glob}
use mcagit.Repo.Pathspec.Found.{seg_match-glob}

region_name : NoStar (codes "r.0.mca")
region_name = (refl, (refl, (refl, (refl, (refl, (refl, (refl, tt)))))))

seg_match-glob_example :
    seg_match (codes "r.*.mca") (codes "r.0.mca") ≡ glob (codes "r.*.mca") (codes "r.0.mca")
seg_match-glob_example = seg_match-glob (codes "r.*.mca") (codes "r.0.mca") region_name

wildcard_in_directory :
    (matches_one (codes "region/*") (codes "region/r.0") ≡ true)
    × (matches_one (codes "region/*") (codes "region/sub/r") ≡ false)
    × (matches_one (codes "*.dat") (codes "level.dat") ≡ true)
    × (matches_one (codes "*.dat") (codes "p/u.dat") ≡ false)
unfolding matches_one matches_trimmed trim_end text_eq below_dir glob_match segments all_match
    seg_match seg_loop only_stars
wildcard_in_directory = (refl, refl, refl, refl)

directory_prefix :
    (matches_one (codes "playerdata/") (codes "playerdata/u") ≡ true)
    × (matches_one (codes "playerdata") (codes "playerdataX/u") ≡ false)
unfolding matches_one matches_trimmed trim_end text_eq below_dir glob_match segments all_match
    seg_match seg_loop only_stars
directory_prefix = (refl, refl)

-- A star in the text is taken by the star of the pattern as an equal byte, and no way back is kept.
star_in_text : seg_match (codes "*b") (codes "*ab") ≡ false
unfolding seg_match seg_loop
star_in_text = refl

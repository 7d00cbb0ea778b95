-- ===== src/PathGlob/Examples.antt =====
-- A pattern with `**`.
use ghyll.Base.{String, Bool, ◌≡◌, ◌↔◌, ◌⊎◌, refl, true, Option, none, some, ◌==◌, string_key}
use ghyll.PathGlob.{PathMatch, cut_stars, glob_match}
use ghyll.PathGlob.Laws.{Matches, glob_match-Matches}

abbrev equal_only : PathMatch
equal_only p n = some (p == n)

deep : glob_match equal_only "src/**/main" "src/a/b/main" ≡ true
unfolding glob_match
deep = refl

glob_match-Matches_example : (glob_match equal_only "src/**/main" "src/a/b/main" ≡ true) ↔ (
    (◌≡◌ {A = String} "src/**/main" "src/a/b/main")
    ⊎ (((cut_stars "src/**/main" ≡ none)
          × (◌≡◌ {A = Option Bool} (equal_only "src/**/main" "src/a/b/main") (some true)))
        ⊎ ((b a : String) × (cut_stars "src/**/main" ≡ some (b, a))
            × Matches equal_only "src/**/main" "src/a/b/main")))
glob_match-Matches_example = glob_match-Matches equal_only "src/**/main" "src/a/b/main"

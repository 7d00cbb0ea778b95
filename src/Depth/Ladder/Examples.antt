-- ===== src/Depth/Ladder/Examples.antt =====
-- The ladder that ghyll ships.
use ghyll.Base.{ℤ, pos, String, ◌≡◌, ◌↔◌, refl, some, [], ◌∷◌, ok, trim_space}
use ghyll.Depth.{is_known_depth_rank}
use ghyll.Depth.Ladder.{DepthLadder, lowered, new_depth_ladder, label, parse_depth_rank}
use ghyll.Depth.Ladder.Laws.{parse_depth_rank-label}

abbrev ladder : DepthLadder
ladder = record {
  labels = "NONE" ∷ "SHALLOW" ∷ "MOCKED" ∷ "REALISTIC" ∷ [];
  by_label =
      (lowered "NONE", pos 0)
      ∷ (lowered "SHALLOW", pos 1)
      ∷ (lowered "MOCKED", pos 2)
      ∷ (lowered "REALISTIC", pos 3)
      ∷ [];
}

made : new_depth_ladder "NONE" " SHALLOW" "MOCKED" "REALISTIC" ≡ ok ladder
unfolding new_depth_ladder ghyll.Base.Map.member ghyll.Base.Map.insert
made = refl

parse_depth_rank-label_example :
    (t : String) × (label ladder (pos 2) ≡ some t)
    × (parse_depth_rank ladder t ≡ ok (pos 2))
    × ((s : String)
        → (parse_depth_rank ladder s ≡ ok (pos 2)) ↔ (lowered (trim_space s) ≡ lowered t))
unfolding is_known_depth_rank
parse_depth_rank-label_example =
    parse_depth_rank-label "NONE" " SHALLOW" "MOCKED" "REALISTIC" ladder (pos 2) made refl

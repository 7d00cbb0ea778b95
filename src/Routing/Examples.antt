-- ===== src/Routing/Examples.antt =====
-- Routing at concrete clauses.
use ghyll.Base.{String, ℤ, pos, ◌≡◌, refl, true, [], ◌∷◌, List, All, ◌⊎◌, ok}
use ghyll.Clause.{Clause}
use ghyll.Routing.{RoutingRequirement, route_arrow, validate_all}
use ghyll.Routing.Laws.{Meets, Drives, Any, route_arrow-max}

abbrev clause : String → String → ℤ → Clause
clause id depth tier = record {
  concept = "no-todo";
  args = [];
  project_dir = "";
  clause_id = id;
  pass_id = "";
  arrow_id = "a1";
  grid_version = 1;
  depth_type = depth;
  min_depth_tier = tier;
  depth_type_attestation_ref = "";
}

abbrev clauses : List Clause
clauses =
    clause "c1" "Depth_Robust" (pos 0)
    ∷ clause "c2" "depth-sensitive" (pos 2)
    ∷ clause "c3" "depth-sensitive" (pos 3)
    ∷ []

abbrev asked : RoutingRequirement
asked = record { routed = true; min_tier = pos 3; max_depth_clause_id = "c3" }

routed : route_arrow clauses ≡ ok asked
unfolding route_arrow ghyll.Routing.validate_depth_declaration
routed = refl

route_arrow-max_example :
    (asked.routed ≡ true)
    × (validate_all clauses ≡ ok tt)
    × All (Meets asked.min_tier) clauses
    × (((asked.min_tier ≡ pos 0) × (asked.max_depth_clause_id ≡ "")) ⊎ Any (Drives asked) clauses)
route_arrow-max_example = route_arrow-max clauses asked routed (λ e. cc, (λ e. cc, (λ e. cc, tt)))

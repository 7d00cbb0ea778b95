-- ===== src/Grid/Examples.antt =====
-- A grid with one arrow.
use ghyll.Base.{
  ℕ, ◌+◌, ◌%◌, ◌^◌, ℤ, pos, String, ◌≡◌, refl, true, false, none, some, List, [], ◌∷◌, ok, ◌==◌,
  string_key, trim_space, if◌then◌else◌,
}
use ghyll.Base.Map.{lookup}
use ghyll.Clause.{Clause}
use ghyll.Grid.{
  ArrowDefinition, Grid, GridEvent, new_grid, append_internal, append_event, lookup_arrow,
  validate_arrow,
}
use ghyll.Grid.Laws.{appending, on_the_spot, grid_run, append_internal-lookup, grid_run-kept}

abbrev clause : Clause
clause = record {
  concept = "no-todo";
  args = [];
  project_dir = "";
  clause_id = "c1";
  pass_id = "";
  arrow_id = "a1";
  grid_version = 1;
  depth_type = "depth-robust";
  min_depth_tier = pos 0;
  depth_type_attestation_ref = "";
}

abbrev arrow : String → ArrowDefinition
arrow role = record {
  id = "a1";
  source_role = role;
  target_role = "architect";
  stratum = "domain";
  context = "billing";
  clauses = clause ∷ [];
  requirements = [];
}

abbrev grid : Grid
grid = record { arrows = ("a1", arrow "analyst") ∷ []; version = 1; interruptions = 0 }

abbrev events : List GridEvent
events =
    record { kind = append_event; arrow_id = "a1"; definition = arrow "analyst"; version = 1 } ∷ []

appended : append_internal new_grid (arrow "analyst") append_event false ≡ ok (1, grid, events)
unfolding append_internal new_grid ghyll.Base.Map.member ghyll.Base.Map.insert
appended = refl

append_internal-lookup_example :
    (validate_arrow (arrow "analyst") ≡ ok tt)
    × (lookup "a1" new_grid.arrows ≡ none)
    × ((j : String)
        → lookup_arrow grid j
          ≡ (if "a1" == trim_space j then some (arrow "analyst") else lookup_arrow new_grid j))
    × (grid.version ≡ (new_grid.version + 1) % 2 ^ 64)
    × (1 ≡ grid.version)
append_internal-lookup_example =
    append_internal-lookup new_grid grid (arrow "analyst") append_event false 1 events appended

found : lookup_arrow grid " a1" ≡ some (arrow "analyst")
unfolding lookup_arrow lookup
found = refl

grid_run-kept_example :
    lookup_arrow
      (grid_run grid (appending (arrow "auditor") ∷ on_the_spot (arrow "owner") ∷ []))
      " a1"
    ≡ some (arrow "analyst")
grid_run-kept_example =
    grid_run-kept grid (appending (arrow "auditor") ∷ on_the_spot (arrow "owner") ∷ []) " a1"
      (arrow "analyst") found

-- ===== src/Passes/Examples.antt =====
-- Concrete passes.
use ghyll.Base.{
  String, ℕ, ℤ, pos, ◌≡◌, ◌≢◌, refl, true, false, some, none, [], ◌∷◌, List, get_elem?, All,
}
use ghyll.RoleLock.Slots.{key}
use ghyll.Passes.{
  Pass, PassOptions, World, Emission, new_world, active, closed, aborted, close_with, fresh_pass,
}
use ghyll.Passes.History.{PassCall, opening, closing, pass_run, pass_run-exclusive}

abbrev options : String → String → PassOptions
options id role = record {
  pass_id = id;
  role = role;
  context = "billing";
  arrow_id = "a1";
  grid_version = 1;
  lock_ttl = pos 0;
  has_bus = false;
}

-- The second opening is refused; the third finds the slot free again.
abbrev calls : List PassCall
calls =
    opening 1 1 (options "p1" "analyst")
    ∷ opening 2 2 (options "p2" "analyst")
    ∷ closing 3 0 "done"
    ∷ opening 4 4 (options "p3" "analyst")
    ∷ []

abbrev third : Pass
third =
    fresh_pass 4 (options "p3" "analyst") (record { key = key "analyst" "billing"; pass_id = "p3" })

there : get_elem? (pass_run new_world calls).passes 1 ≡ some third
unfolding pass_run new_world ghyll.Passes.open_pass ghyll.RoleLock.try_acquire ghyll.Base.Map.lookup
    ghyll.Passes.close_pass ghyll.Base.Map.insert ghyll.RoleLock.release ghyll.Base.Map.delete
there = refl

pass_run-exclusive_example : ◌≡◌ {A = ℕ} 1 1
pass_run-exclusive_example =
    pass_run-exclusive calls (refl, (refl, (tt, (refl, tt)))) 1 1 third third there there refl refl
      refl refl

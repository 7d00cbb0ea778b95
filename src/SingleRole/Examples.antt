-- ===== src/SingleRole/Examples.antt =====
-- An open pass asks for its own slot.
use ghyll.Base.{String, ℕ, ◌≡◌, refl, true, false, some, [], ◌∷◌, List, get_elem?, ok, pos}
use ghyll.Base.Map.{Map}
use ghyll.Clause.{Value, require_string_arg}
use ghyll.RoleLock.Slots.{key}
use ghyll.Passes.{Pass, PassOptions, new_world, active, fresh_pass}
use ghyll.Passes.History.{PassCall, opening, registering, pass_run}
use ghyll.SingleRole.{evaluate_single_role}
use ghyll.SingleRole.Laws.{evaluate_single_role-passes}

abbrev options : PassOptions
options = record {
  pass_id = "p1";
  role = "analyst";
  context = "billing";
  arrow_id = "a1";
  grid_version = 1;
  lock_ttl = pos 0;
  has_bus = false;
}

abbrev calls : List PassCall
calls = opening 1 1 options ∷ registering 2 0 ∷ []

abbrev the_pass : Pass
the_pass =
    record (fresh_pass 1 options (record { key = key "analyst" "billing"; pass_id = "p1" })) {
      has_registry = true;
    }

there : get_elem? (pass_run new_world calls).passes 0 ≡ some the_pass
unfolding pass_run new_world ghyll.Passes.register_pass ghyll.Passes.open_pass
    ghyll.RoleLock.try_acquire ghyll.Base.Map.lookup
there = refl

abbrev args : Map String Value
args = ("role", Value.text "analyst") ∷ ("context", Value.text "billing") ∷ []

role_given : require_string_arg args "role" ≡ ok "analyst"
unfolding require_string_arg ghyll.Base.Map.lookup
role_given = refl

context_given : require_string_arg args "context" ≡ ok "billing"
unfolding require_string_arg ghyll.Base.Map.lookup
context_given = refl

evaluate_single_role-passes_example :
    evaluate_single_role (some (pass_run new_world calls)) "p1" args
    ≡ ok (record { pass = true; unevaluated = false; reason = "" })
evaluate_single_role-passes_example =
    evaluate_single_role-passes calls 0 the_pass args (refl, (tt, tt)) there refl (λ e. cc)
      role_given context_given

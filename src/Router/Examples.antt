-- ===== src/Router/Examples.antt =====
-- The router at concrete inputs.
use ghyll.Base.{pos, ◌≡◌, ◌≢◌, refl, false, Bool, inr, inl}
use ghyll.Router.{RouterInputs, RoutingConfig, escalate, evaluate_route}
use ghyll.Router.Laws.{evaluate_route-floor}

abbrev settings : RoutingConfig
settings = record {
  default_model = "fast";
  deep_model = "deep";
  context_depth_threshold = pos 1000;
  tool_depth_threshold = pos 10;
  gate_floor_disabled = false;
  gate_floor_escalate_at_rank = pos 2;
}

abbrev gated : Bool → RouterInputs
gated locked = record {
  context_depth = pos 5;
  tool_depth = pos 1;
  model_locked = locked;
  deep_override = false;
  active_model = "fast";
  backfill_triggered = false;
  context_compacted_below = pos 0;
  gate_floor = pos 3;
  config = settings;
}

dispatched : (evaluate_route (gated false)).action ≡ escalate
unfolding evaluate_route
dispatched = refl

evaluate_route-floor_example :
    ((evaluate_route (gated false)).target_model ≡ "deep")
    × (settings.deep_model ≢ "")
    × (settings.deep_model ≢ "fast")
evaluate_route-floor_example = evaluate_route-floor (gated false) refl (inr (inl dispatched))

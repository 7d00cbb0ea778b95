-- ===== src/Router.antt =====
-- dialect/router.go: which model takes the next turn.
pub mod Laws
mod Examples
use ghyll.Base.{
  ℕ, ℤ, pos, String, Bool, true, false, ◌&&◌, ◌||◌, not, ◌==◌, string_key, int_ltb, int_leb,
  if◌then◌else◌,
}

-- The fields of `config.RoutingConfig` that the router reads.
pub record RoutingConfig : Type 0 where
  pub default_model : String
  pub deep_model : String
  pub context_depth_threshold : ℤ
  pub tool_depth_threshold : ℤ
  pub gate_floor_disabled : Bool
  pub gate_floor_escalate_at_rank : ℤ

-- `RouterInputs`
pub record RouterInputs : Type 0 where
  pub context_depth : ℤ
  pub tool_depth : ℤ
  pub model_locked : Bool
  pub deep_override : Bool
  pub active_model : String
  pub backfill_triggered : Bool
  pub context_compacted_below : ℤ
  pub gate_floor : ℤ
  pub config : RoutingConfig

pub data Action : Type 0 where
  stay escalate de_escalate invalid gate_unsatisfiable gate_locked_conflict : Action

-- `RoutingReason`
pub data RoutingReason : Type 0 where
  by_gate_floor by_deep_override by_backfill by_context_depth by_tool_depth : RoutingReason
  by_context_compacted by_model_locked by_steady_state by_invalid_input : RoutingReason
  by_gate_unsatisfiable by_gate_locked_conflict : RoutingReason

-- `RoutingDecision`
pub record RoutingDecision : Type 0 where
  pub action : Action
  pub target_model : String
  pub need_compaction : Bool
  pub reason : RoutingReason
  pub rejected_floor : ℤ

-- A decision that carries no rejected floor.
abbrev decide : Action → String → RoutingReason → RoutingDecision
decide action target reason = record {
  action = action;
  target_model = target;
  need_compaction = false;
  reason = reason;
  rejected_floor = pos 0;
}

abbrev reject : RouterInputs → Action → RoutingReason → RoutingDecision
reject i action reason = record {
  action = action;
  target_model = i.active_model;
  need_compaction = false;
  reason = reason;
  rejected_floor = i.gate_floor;
}

-- `canEscalate`
abbrev pub can_escalate : RoutingConfig → Bool
can_escalate cfg = not (cfg.deep_model == "") && not (cfg.deep_model == cfg.default_model)

-- `gateFloorActive`
abbrev pub gate_floor_active : RouterInputs → Bool
gate_floor_active i =
    not i.config.gate_floor_disabled
    && int_ltb (pos 0) i.config.gate_floor_escalate_at_rank
    && int_leb i.config.gate_floor_escalate_at_rank i.gate_floor

-- Rows 3 to 8.
unfoldable pub route_turn : RouterInputs → RoutingDecision
route_turn i =
    let cfg = i.config in
    let on_fast = can_escalate cfg && i.active_model == cfg.default_model in
    if on_fast && i.deep_override
    then decide escalate cfg.deep_model by_deep_override
    else if on_fast && i.backfill_triggered
    then decide escalate cfg.deep_model by_backfill
    else if on_fast && int_ltb cfg.context_depth_threshold i.context_depth
    then record (decide escalate cfg.deep_model by_context_depth) { need_compaction = true }
    else if on_fast && int_ltb cfg.tool_depth_threshold i.tool_depth
    then decide escalate cfg.deep_model by_tool_depth
    else if can_escalate cfg
        && not (gate_floor_active i)
        && int_ltb (pos 0) i.context_compacted_below
        && int_ltb i.context_compacted_below cfg.context_depth_threshold
        && i.active_model == cfg.deep_model
        && not i.deep_override
    then decide de_escalate cfg.default_model by_context_compacted
    else decide stay i.active_model by_steady_state

-- `Evaluate`
unfoldable pub evaluate_route : RouterInputs → RoutingDecision
unfolding route_turn
evaluate_route i =
    let cfg = i.config in
    let rest = route_turn i in
    if int_ltb i.gate_floor (pos 0) || int_ltb (pos 3) i.gate_floor
    then reject i invalid by_invalid_input
    else if i.model_locked && gate_floor_active i
    then reject i gate_locked_conflict by_gate_locked_conflict
    else if i.model_locked
    then decide stay i.active_model by_model_locked
    else if gate_floor_active i && not (can_escalate cfg)
    then reject i gate_unsatisfiable by_gate_unsatisfiable
    else if gate_floor_active i && not (i.active_model == cfg.deep_model)
    then decide escalate cfg.deep_model by_gate_floor
    else rest

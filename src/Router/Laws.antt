-- ===== src/Router/Laws.antt =====
-- What the router never does.
use ghyll.Base.{
  Bool, ℤ, not, int_ltb, ◌&&◌, ◌||◌, if◌then◌else◌, pos, ◌≤ℤ◌, ◌≡◌, ◌≢◌, ◌↔◌, ◌⊎◌, inl, inr, refl,
  true, false, ◌==◌, string_key, arith, eq_iff, Bool-cases,
}
use ghyll.Router.{
  RoutingReason, by_deep_override, by_backfill, by_tool_depth, by_context_compacted,
  by_steady_state, by_invalid_input, by_gate_locked_conflict, by_model_locked,
  by_gate_unsatisfiable, by_gate_floor, RouterInputs, RoutingDecision, Action, stay, escalate,
  de_escalate, invalid, gate_unsatisfiable, gate_locked_conflict, gate_floor_active, can_escalate,
  route_turn, evaluate_route, by_context_depth,
}

-- The actions that let the next turn run.
abbrev pub IsDispatched : Action → Type 0
IsDispatched a = (a ≡ stay) ⊎ (a ≡ escalate) ⊎ (a ≡ de_escalate)

-- A gate floor in force is never laundered: a turn that runs while it is in force runs on the deep
-- model, and the deep model is configured and is not the default one.
pub evaluate_route-floor :
    (i : RouterInputs)
    → gate_floor_active i ≡ true
    → IsDispatched (evaluate_route i).action
    → ((evaluate_route i).target_model ≡ i.config.deep_model)
      × (i.config.deep_model ≢ "")
      × (i.config.deep_model ≢ i.config.default_model)
unfolding evaluate_route route_turn
evaluate_route-floor i a d = ground (
  arith,
  a,
  d,
  eq_iff i.config.deep_model "",
  eq_iff i.config.deep_model i.config.default_model,
  eq_iff i.active_model i.config.deep_model,
  eq_iff i.active_model i.config.default_model,
)

-- Rows 3 to 8 never refuse.
route_turn-action :
    (i : RouterInputs)
    → ((route_turn i).action ≢ invalid)
      × ((route_turn i).action ≢ gate_locked_conflict)
      × ((route_turn i).action ≢ gate_unsatisfiable)
unfolding route_turn
route_turn-action i = (λ e. ground (arith, e), λ e. ground (arith, e), λ e. ground (arith, e))

-- For a floor in range, the turn is refused for a locked model exactly when the model is locked
-- and the floor is in force, and as unsatisfiable exactly when the model is not locked, the floor
-- is in force and there is no deep model to escalate to; the input is never called invalid.
pub evaluate_route-refused :
    (i : RouterInputs)
    → pos 0 ≤ℤ i.gate_floor
    → i.gate_floor ≤ℤ pos 3
    → (((i.model_locked ≡ true) × (gate_floor_active i ≡ true))
        ↔ ((evaluate_route i).action ≡ gate_locked_conflict))
      × (((i.model_locked ≡ false) × (gate_floor_active i ≡ true) × (can_escalate i.config ≡ false))
          ↔ ((evaluate_route i).action ≡ gate_unsatisfiable))
      × ((evaluate_route i).action ≢ invalid)
unfolding evaluate_route
evaluate_route-refused i low high =
    let (a, b, c) = route_turn-action i in
    elim (Bool-cases (gate_floor_active i)) [
      | inl on ↦ elim (Bool-cases (can_escalate i.config)) [
        | inl e ↦
            rw (on, e)
              (
                (λ h. ground (arith, low, high, h), λ h. ground (arith, low, high, h, b)),
                (λ h. ground (arith, h), λ h. ground (arith, low, high, h, c)),
                λ h. ground (arith, low, high, h, a),
              )
        | inr e ↦
            rw (on, e)
              (
                (λ h. ground (arith, low, high, h), λ h. ground (arith, low, high, h, b)),
                (λ h. ground (arith, low, high, h), λ h. ground (arith, low, high, h, c)),
                λ h. ground (arith, low, high, h, a),
              )
      ]
      | inr off ↦ rw off (
        (λ h. ground (arith, h), λ h. ground (arith, low, high, h, b)),
        (λ h. ground (arith, h), λ h. ground (arith, low, high, h, c)),
        λ h. ground (arith, low, high, h, a),
      )
    ]

-- A locked model is never changed, whatever else is asked for.
pub evaluate_route-locked :
    (i : RouterInputs)
    → i.model_locked ≡ true
    → ((evaluate_route i).target_model ≡ i.active_model)
      × ((evaluate_route i).action ≢ escalate)
      × ((evaluate_route i).action ≢ de_escalate)
unfolding evaluate_route route_turn
evaluate_route-locked i l = ground (arith, l)

-- What a decision promises of its target.
pub record IsSane (i : RouterInputs) (d : RoutingDecision) : Type 0 where
  pub up :
      d.action ≡ escalate
      → (d.target_model ≡ i.config.deep_model) × (i.active_model ≢ i.config.deep_model)
  pub down :
      d.action ≡ de_escalate
      → (d.target_model ≡ i.config.default_model)
        × (i.active_model ≡ i.config.deep_model)
        × (gate_floor_active i ≡ false)
        × (i.deep_override ≡ false)
  pub same : d.action ≢ escalate → d.action ≢ de_escalate → d.target_model ≡ i.active_model
  pub compact : (d.need_compaction ≡ true) ↔ (d.reason ≡ by_context_depth)

module _ (i : RouterInputs) where
  if-IsSane :
      (b : Bool) (x y : RoutingDecision)
      → (b ≡ true → IsSane i x)
      → (b ≡ false → IsSane i y)
      → IsSane i (if b then x else y)
  if-IsSane true x y h k = h refl
  if-IsSane false x y h k = k refl

  -- A decision that leaves the model alone.
  staying-IsSane :
      (a : Action) (r : RoutingReason) (floor : ℤ)
      → a ≢ escalate
      → a ≢ de_escalate
      → r ≢ by_context_depth
      → IsSane i (record {
        action = a;
        target_model = i.active_model;
        need_compaction = false;
        reason = r;
        rejected_floor = floor;
      })
  staying-IsSane a r floor up down depth = record {
    up = λ e. absurd (up e);
    down = λ e. absurd (down e);
    same = λ e d. refl;
    compact = (λ e. cc, λ e. absurd (depth e));
  }

  rising-IsSane :
      (r : RoutingReason) (compact : Bool)
      → i.active_model ≢ i.config.deep_model
      → (compact ≡ true) ↔ (r ≡ by_context_depth)
      → IsSane i (record {
        action = escalate;
        target_model = i.config.deep_model;
        need_compaction = compact;
        reason = r;
        rejected_floor = pos 0;
      })
  rising-IsSane r compact ne h = record {
    up = λ e. (refl, ne);
    down = λ e. absurd (ground (arith, e));
    same = λ e d. absurd (e refl);
    compact = h;
  }

  other_reason :
      (r : RoutingReason) → r ≢ by_context_depth → (false ≡ true) ↔ (r ≡ by_context_depth)
  other_reason r ne = (λ e. cc, λ e. absurd (ne e))

  on_fast :
      (b : Bool)
      → ((can_escalate i.config && i.active_model == i.config.default_model) && b) ≡ true
      → i.active_model ≢ i.config.deep_model
  on_fast b h = ground (
    arith,
    h,
    eq_iff i.config.deep_model i.config.default_model,
    eq_iff i.active_model i.config.default_model,
    eq_iff i.active_model i.config.deep_model,
  )

  falling-IsSane :
      (a b : Bool)
      → (can_escalate i.config
          && not (gate_floor_active i)
          && a
          && b
          && i.active_model == i.config.deep_model
          && not i.deep_override)
        ≡ true
      → IsSane i (record {
        action = de_escalate;
        target_model = i.config.default_model;
        need_compaction = false;
        reason = by_context_compacted;
        rejected_floor = pos 0;
      })
  falling-IsSane a b h = record {
    up = λ e. absurd (ground (arith, e));
    down = λ e. (
      refl,
      ground (arith, h, eq_iff i.active_model i.config.deep_model),
      ground (arith, h),
      ground (arith, h),
    );
    same = λ e d. absurd (d refl);
    compact = (λ e. cc, λ e. absurd (ground (arith, e)));
  }

  -- A row on the fast model that escalates, and what follows it.
  row-IsSane :
      (b : Bool) (r : RoutingReason) (compact : Bool) (rest : RoutingDecision)
      → (compact ≡ true) ↔ (r ≡ by_context_depth)
      → IsSane i rest
      → IsSane i (
          if (can_escalate i.config && i.active_model == i.config.default_model) && b
          then record {
            action = escalate;
            target_model = i.config.deep_model;
            need_compaction = compact;
            reason = r;
            rejected_floor = pos 0;
          }
          else rest)
  row-IsSane b r compact rest h v =
      if-IsSane ((can_escalate i.config && i.active_model == i.config.default_model) && b) _ _
        (λ e. rising-IsSane r compact (on_fast b e) h) (λ _. v)

  last_rows : RoutingDecision
  last_rows =
      if can_escalate i.config
        && not (gate_floor_active i)
        && int_ltb (pos 0) i.context_compacted_below
        && int_ltb i.context_compacted_below i.config.context_depth_threshold
        && i.active_model == i.config.deep_model
        && not i.deep_override
      then record {
        action = de_escalate;
        target_model = i.config.default_model;
        need_compaction = false;
        reason = by_context_compacted;
        rejected_floor = pos 0;
      }
      else record {
        action = stay;
        target_model = i.active_model;
        need_compaction = false;
        reason = by_steady_state;
        rejected_floor = pos 0;
      }

  last_rows-IsSane : IsSane i last_rows
  unfolding last_rows
  last_rows-IsSane =
      if-IsSane
        (can_escalate i.config
          && not (gate_floor_active i)
          && int_ltb (pos 0) i.context_compacted_below
          && int_ltb i.context_compacted_below i.config.context_depth_threshold
          && i.active_model == i.config.deep_model
          && not i.deep_override)
        _ _
        (falling-IsSane (int_ltb (pos 0) i.context_compacted_below)
          (int_ltb i.context_compacted_below i.config.context_depth_threshold))
        (λ _.
          staying-IsSane stay by_steady_state (pos 0) (λ e. ground arith) (λ e. ground arith)
            (λ e. ground arith))

  route_turn-IsSane : IsSane i (route_turn i)
  unfolding route_turn last_rows
  route_turn-IsSane =
      row-IsSane i.deep_override by_deep_override false _
        (other_reason by_deep_override (λ e. ground arith))
        (row-IsSane i.backfill_triggered by_backfill false _
          (other_reason by_backfill (λ e. ground arith))
          (row-IsSane (int_ltb i.config.context_depth_threshold i.context_depth) by_context_depth
            true _ (λ e. refl, λ e. refl)
            (row-IsSane (int_ltb i.config.tool_depth_threshold i.tool_depth) by_tool_depth false _
              (other_reason by_tool_depth (λ e. ground arith)) last_rows-IsSane)))

  off_deep :
      (a : Bool)
      → (a && not (i.active_model == i.config.deep_model)) ≡ true
      → i.active_model ≢ i.config.deep_model
  off_deep a h = ground (arith, h, eq_iff i.active_model i.config.deep_model)

  -- A row that leaves the model alone, and what follows it.
  keep-IsSane :
      (b : Bool) (a : Action) (r : RoutingReason) (floor : ℤ) (rest : RoutingDecision)
      → a ≢ escalate
      → a ≢ de_escalate
      → r ≢ by_context_depth
      → IsSane i rest
      → IsSane i (
          if b
          then record {
            action = a;
            target_model = i.active_model;
            need_compaction = false;
            reason = r;
            rejected_floor = floor;
          }
          else rest)
  keep-IsSane b a r floor rest up down depth v =
      if-IsSane b _ _ (λ _. staying-IsSane a r floor up down depth) (λ _. v)

  floor-IsSane :
      (rest : RoutingDecision)
      → IsSane i rest
      → IsSane i (
          if gate_floor_active i && not (i.active_model == i.config.deep_model)
          then record {
            action = escalate;
            target_model = i.config.deep_model;
            need_compaction = false;
            reason = by_gate_floor;
            rejected_floor = pos 0;
          }
          else rest)
  floor-IsSane rest v =
      if-IsSane (gate_floor_active i && not (i.active_model == i.config.deep_model)) _ _
        (λ h.
          rising-IsSane by_gate_floor false (off_deep (gate_floor_active i) h)
            (other_reason by_gate_floor (λ e. ground arith)))
        (λ _. v)

-- The target says what the action says: escalation leads from another model to the deep one,
-- de-escalation from the deep model to the default one with neither a floor in force nor an
-- override, and every other action stays with the active model. Compaction is asked for exactly
-- with an escalation for the depth of the context.
pub evaluate_route-IsSane : (i : RouterInputs) → IsSane i (evaluate_route i)
unfolding evaluate_route
evaluate_route-IsSane i =
    keep-IsSane i (int_ltb i.gate_floor (pos 0) || int_ltb (pos 3) i.gate_floor) invalid
      by_invalid_input i.gate_floor _ (λ e. ground arith) (λ e. ground arith) (λ e. ground arith)
      (keep-IsSane i (i.model_locked && gate_floor_active i) gate_locked_conflict
        by_gate_locked_conflict i.gate_floor _ (λ e. ground arith) (λ e. ground arith)
        (λ e. ground arith)
        (keep-IsSane i i.model_locked stay by_model_locked (pos 0) _ (λ e. ground arith)
          (λ e. ground arith) (λ e. ground arith)
          (keep-IsSane i (gate_floor_active i && not (can_escalate i.config)) gate_unsatisfiable
            by_gate_unsatisfiable i.gate_floor _ (λ e. ground arith) (λ e. ground arith)
            (λ e. ground arith) (floor-IsSane i _ (route_turn-IsSane i)))))

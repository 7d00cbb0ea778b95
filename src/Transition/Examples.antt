-- ===== src/Transition/Examples.antt =====
-- The transition check at concrete arrows.
use ghyll.Base.{pos, ◌≡◌, ◌≢◌, ◌↔◌, false, [], ◌∷◌, All, arith}
use ghyll.Clause.{ClauseStatus}
use ghyll.Arrow.{ArrowStatus, ClauseDeriveInput, derive_arrow_status}
use ghyll.Arrow.Laws.{IsClear}
use ghyll.Transition.{permitted, refused, check_transition, transition_refused_invalidated}
use ghyll.Transition.Laws.{IsValidCall, check_transition-refused, check_transition-derived}

complete_call : IsValidCall "analyst" "architect" ArrowStatus.complete (pos 0) (pos 0)
complete_call = record {
  upstream_named = λ e. cc;
  downstream_named = λ e. cc;
  blocking_counted = omega arith;
  version_counted = omega arith;
  version_given = λ e. ground arith;
}

stale_call : IsValidCall "analyst" "architect" ArrowStatus.invalidated (pos 2) (pos 7)
stale_call = record {
  upstream_named = λ e. cc;
  downstream_named = λ e. cc;
  blocking_counted = omega arith;
  version_counted = omega arith;
  version_given = λ e. omega arith;
}

check_transition-refused_example :
    check_transition "analyst" "architect" ArrowStatus.invalidated (pos 2) (pos 7)
    ≡ refused (record {
      kind = transition_refused_invalidated;
      upstream_arrow_id = "analyst";
      downstream_arrow_id = "architect";
      upstream_status = ArrowStatus.invalidated;
      blocking_clauses = pos 2;
      invalidating_grid_version = pos 7;
    })
check_transition-refused_example =
    check_transition-refused "analyst" "architect" ArrowStatus.invalidated (pos 2) (pos 7)
      stale_call (λ e. ground arith)

abbrev passed : ClauseDeriveInput
passed = record {
  status = ClauseStatus.pass;
  awaiting_attestation = false;
  insufficient_basis = false;
}

check_transition-derived_example :
    (check_transition "analyst" "architect"
        (derive_arrow_status (passed ∷ []) [] (pos 2)).0
        (pos (derive_arrow_status (passed ∷ []) [] (pos 2)).1)
        (pos 0)
      ≡ permitted)
    ↔ ((passed ∷ [] ≢ [])
        × All (λ c. c.status ≡ ClauseStatus.pass) (passed ∷ [])
        × All (IsClear (pos 2)) [])
check_transition-derived_example =
    check_transition-derived "analyst" "architect" (passed ∷ []) [] (pos 2) (λ e. cc) (λ e. cc)

-- ===== src/Transition.antt =====
-- runner/transition.go: whether a role may start downstream of an arrow.
pub mod Laws
mod Examples
use ghyll.Base.{
  ℕ, ℤ, pos, String, Bool, true, false, ◌||◌, ◌==◌, string_key, int_ltb, if◌then◌else◌,
}
use ghyll.Arrow.{ArrowStatus, satisfies_next_role}

-- `TransitionRefusalKind`
pub data TransitionRefusalKind : Type 0 where
  transition_refused transition_refused_invalidated : TransitionRefusalKind

-- `TransitionRefusal`
pub record TransitionRefusal : Type 0 where
  pub kind : TransitionRefusalKind
  pub upstream_arrow_id : String
  pub downstream_arrow_id : String
  pub upstream_status : ArrowStatus
  pub blocking_clauses : ℤ
  pub invalidating_grid_version : ℤ

-- The four calls of `fmt.Errorf` that wrap `ErrTransitionInvalidInput`.
pub data InvalidInput : Type 0 where
  empty_arrow_id negative_blocking_clauses negative_grid_version : InvalidInput
  invalidated_without_version : InvalidInput

-- The error that `CheckTransition` returns; `permitted` is `nil`.
pub data Admission : Type 0 where
  permitted : Admission
  refused : TransitionRefusal → Admission
  invalid_input : InvalidInput → Admission

abbrev is_invalidated : ArrowStatus → Bool
is_invalidated ArrowStatus.invalidated = true
is_invalidated _ = false

-- `CheckTransition`
unfoldable pub check_transition : String → String → ArrowStatus → ℤ → ℤ → Admission
unfolding satisfies_next_role
check_transition upstream downstream status blocking version =
    if upstream == "" || downstream == ""
    then invalid_input empty_arrow_id
    else if int_ltb blocking (pos 0)
    then invalid_input negative_blocking_clauses
    else if int_ltb version (pos 0)
    then invalid_input negative_grid_version
    else if is_invalidated status
    then if int_ltb version (pos 1)
      then invalid_input invalidated_without_version
      else refused (record {
        kind = transition_refused_invalidated;
        upstream_arrow_id = upstream;
        downstream_arrow_id = downstream;
        upstream_status = status;
        blocking_clauses = blocking;
        invalidating_grid_version = version;
      })
    else if satisfies_next_role status
    then permitted
    else refused (record {
      kind = transition_refused;
      upstream_arrow_id = upstream;
      downstream_arrow_id = downstream;
      upstream_status = status;
      blocking_clauses = blocking;
      invalidating_grid_version = pos 0;
    })

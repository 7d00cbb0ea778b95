-- ===== src/Transition/Laws.antt =====
-- Who is let through an arrow.
use ghyll.Base.{ℤ, pos, ◌≤ℤ◌, String, ◌≡◌, ◌≢◌, ◌↔◌, List, [], arith, eq_iff, All}
use ghyll.Clause.{ClauseStatus}
use ghyll.Arrow.{ArrowStatus, Finding, ClauseDeriveInput, derive_arrow_status}
use ghyll.Arrow.Laws.{IsClear, derive_arrow_status-complete, derive_arrow_status-IsDerivable}
use ghyll.Transition.{
  permitted, refused, TransitionRefusalKind, transition_refused, transition_refused_invalidated,
  check_transition,
}

-- A call with sensible arguments.
pub record IsValidCall (up down : String) (status : ArrowStatus) (blocking version : ℤ)
    : Type 0 where
  pub upstream_named : up ≢ ""
  pub downstream_named : down ≢ ""
  pub blocking_counted : pos 0 ≤ℤ blocking
  pub version_counted : pos 0 ≤ℤ version
  pub version_given : status ≡ ArrowStatus.invalidated → pos 1 ≤ℤ version

abbrev pub kind_for : ArrowStatus → TransitionRefusalKind
kind_for ArrowStatus.invalidated = transition_refused_invalidated
kind_for _ = transition_refused

abbrev pub version_for : ArrowStatus → ℤ → ℤ
version_for ArrowStatus.invalidated version = version
version_for _ version = pos 0

module _ (up down : String) (status : ArrowStatus) (blocking version : ℤ) where
  -- A valid call is let through exactly when the upstream arrow is complete.
  pub check_transition-permitted :
      IsValidCall up down status blocking version
      → (check_transition up down status blocking version ≡ permitted)
        ↔ (status ≡ ArrowStatus.complete)
  unfolding check_transition
  check_transition-permitted v =
      ground
        (arith, eq_iff up "", eq_iff down "", v.upstream_named, v.downstream_named, v.version_given)

  -- A valid call is refused whenever the upstream arrow is not complete. The refusal names both
  -- arrows, the status and, whatever the status is, the number of blocking clauses that the call
  -- gave; its kind says whether the arrow was invalidated, and then it names the grid version that
  -- did so.
  pub check_transition-refused :
      IsValidCall up down status blocking version
      → status ≢ ArrowStatus.complete
      → check_transition up down status blocking version
        ≡ refused (record {
          kind = kind_for status;
          upstream_arrow_id = up;
          downstream_arrow_id = down;
          upstream_status = status;
          blocking_clauses = blocking;
          invalidating_grid_version = version_for status version;
        })
  unfolding check_transition
  check_transition-refused v h = ground (
    arith,
    eq_iff up "",
    eq_iff down "",
    v.upstream_named,
    v.downstream_named,
    v.version_given,
    h,
  )

-- For two named arrows, deriving the status of the upstream one and checking the transition with
-- it lets the downstream role in exactly when the arrow has a clause, every clause has passed, no
-- finding is unevaluated, and no open or running finding reaches the threshold.
pub check_transition-derived :
    (up down : String) (cs : List ClauseDeriveInput) (fs : List Finding) (t : ℤ)
    → up ≢ ""
    → down ≢ ""
    → let d = derive_arrow_status cs fs t in
      (check_transition up down d.0 (pos d.1) (pos 0) ≡ permitted)
      ↔ ((cs ≢ []) × All (λ c. c.status ≡ ClauseStatus.pass) cs × All (IsClear t) fs)
check_transition-derived up down cs fs t hu hd =
    let d = derive_arrow_status cs fs t in
    let v : IsValidCall up down d.0 (pos d.1) (pos 0) = record {
      upstream_named = hu;
      downstream_named = hd;
      blocking_counted = omega arith;
      version_counted = omega arith;
      version_given = λ e. absurd ((derive_arrow_status-IsDerivable cs fs t).1 e);
    } in
    let h = check_transition-permitted up down d.0 (pos d.1) (pos 0) v in
    let g = derive_arrow_status-complete cs fs t in (λ p. g.0 (h.0 p), λ q. h.1 (g.1 q))

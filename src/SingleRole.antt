-- ===== src/SingleRole.antt =====
-- runner/singleactiverole.go: the evaluator of `single-active-role-instance`. The passes that the
-- runner has a registry of are the argument, `none` when there is no registry.
pub mod Laws
mod Examples
use ghyll.Base.{
  ℕ, String, Bool, true, false, not, ◌&&◌, ◌==◌, string_key, Option, none, some, List, length,
  select, nat_eq, Result, ok, err, ◌>>=◌,
}
use ghyll.Base.Map.{Map}
use ghyll.Clause.{Value, Verdict, ArgError, require_string_arg}
use ghyll.Passes.{Pass, World, active, closed, aborted, PassState, all_passes}

abbrev pub is_active : PassState → Bool
is_active active = true
is_active _ = false

-- The conditions of the loop.
unfoldable pub is_conflicting : String → String → String → Pass → Bool
is_conflicting pass_id role context p =
    p.role == role
    && p.context == context
    && is_active p.state
    && not (not (pass_id == "") && p.id == pass_id)

abbrev pub no_registry : Verdict
no_registry = record { pass = false; unevaluated = true; reason = "no-pass-registry-attached" }

-- `EvaluateSingleActiveRoleInstance`, for a clause of the pass.
unfoldable pub evaluate_single_role :
    Option World → String → Map String Value → Result ArgError Verdict
unfolding require_string_arg is_conflicting all_passes
evaluate_single_role world pass_id args = do
  role ← require_string_arg args "role"
  context ← require_string_arg args "context"
  ok (elim world [
    | none ↦ no_registry
    | some w ↦ record {
      pass = nat_eq (length (select (is_conflicting pass_id role context) (all_passes w))) 0;
      unevaluated = false;
      reason = "";
    }
  ])

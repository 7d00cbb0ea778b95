-- ===== src/SingleRole/Laws.antt =====
-- An open pass never conflicts with itself.
use ghyll.Base.{
  ℕ, String, ◌≡◌, ◌≢◌, refl, true, false, some, List, [], ◌∷◌, arith, eq_iff, ok, length, select,
  get_elem?, All, Option-cases, inl, inr, Bool-cases, string_key,
}
use ghyll.Base.Map.{Map}
use ghyll.Clause.{Value, require_string_arg}
use ghyll.Passes.{Pass, World, new_world, active, collect, all_passes}
use ghyll.Passes.Exclusion.{IsExclusive}
use ghyll.Passes.History.{PassCall, pass_run, IsUntimed, pass_run-new-IsExclusive}
use ghyll.SingleRole.{is_conflicting, evaluate_single_role}

conflict-inv :
    (id role context : String) (q : Pass)
    → is_conflicting id role context q ≡ true
    → (q.role ≡ role) × (q.context ≡ context) × (q.state ≡ active)
unfolding is_conflicting
conflict-inv id role context q c = (
  ground (arith, c, eq_iff q.role role),
  ground (arith, c, eq_iff q.context context),
  ground (arith, c),
)

module _ (w : World) (v : IsExclusive w) (i : ℕ) (p : Pass) (at : get_elem? w.passes i ≡ some p)
    (was : p.state ≡ active) (named : p.id ≢ "") where
  -- Another pass in the list does not conflict: it is not open, or it is this one.
  no-conflict :
      (j : ℕ) (q : Pass)
      → get_elem? w.passes j ≡ some q
      → is_conflicting p.id p.role p.context q ≡ false
  unfolding is_conflicting
  no-conflict j q h = elim (Bool-cases (is_conflicting p.id p.role p.context q)) [
    | inr n ↦ n
    | inl c ↦
        let (role, context, st) = conflict-inv p.id p.role p.context q c in
        let one : j ≡ i =
          v.apart j i q p h at st was
            (ground (arith, v.signed j q h, v.signed i p at, role, context)) in
        let same : q ≡ p = ground (arith, h, at, one) in
        absurd (ground (arith, c, same, eq_iff p.id "", eq_iff p.id p.id, named))
  ]

  collect-clear :
      (m : Map String ℕ) → length (select (is_conflicting p.id p.role p.context) (collect w m)) ≡ 0
  collect-clear [] = refl
  collect-clear ((id, j) ∷ m) = elim (Option-cases (get_elem? w.passes j)) [
    | inl n ↦ ground (arith, n, collect-clear m)
    | inr (q, h) ↦ ground (arith, h, no-conflict j q h, collect-clear m)
  ]

-- After any calls in which passes are opened without a time limit, the clause
-- `single-active-role-instance` passes when an open pass with an id asks it for its own role and
-- context, whatever the registry lists.
pub evaluate_single_role-passes :
    (cs : List PassCall) (i : ℕ) (p : Pass) (args : Map String Value)
    → All IsUntimed cs
    → get_elem? (pass_run new_world cs).passes i ≡ some p
    → p.state ≡ active
    → p.id ≢ ""
    → require_string_arg args "role" ≡ ok p.role
    → require_string_arg args "context" ≡ ok p.context
    → evaluate_single_role (some (pass_run new_world cs)) p.id args
      ≡ ok (record { pass = true; unevaluated = false; reason = "" })
unfolding evaluate_single_role all_passes
evaluate_single_role-passes cs i p args u at was named role context =
    let w = pass_run new_world cs in
    let clear = collect-clear w (pass_run-new-IsExclusive cs u) i p at was named w.registry in
    ground (arith, role, context, clear)

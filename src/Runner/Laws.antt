-- ===== src/Runner/Laws.antt =====
-- What the run of a clause comes to.
use ghyll.Base.{
  ℤ, pos, ◌≤ℤ◌, int_ltb, String, ◌≡◌, ◌≢◌, ◌↔◌, ◌⊎◌, inl, inr, refl, true, false, Option, none,
  some, arith, eq_iff, Bool-cases, string_key,
}
use ghyll.Clause.{ClauseStatus, Clause, Verdict, can_transition}
use ghyll.Routing.{is_sensitive}
use ghyll.Runner.{
  Runner, Registry, EvaluatorIdentity, Invocation, returned, panicked, RunError, Stamp,
  EvaluationRun, fill_ids, is_too_shallow, resolve, run_clause, evaluate_clause, derive_end_status,
  safe_invoke, depth_below_required, finished, run_of, evaluator_panicked,
}

-- A clause ends as passed, failed or unevaluated.
abbrev pub IsTerminal : ClauseStatus → Type 0
IsTerminal s = (s ≡ ClauseStatus.pass) ⊎ (s ≡ ClauseStatus.fail) ⊎ (s ≡ ClauseStatus.unevaluated)

-- A verdict that keeps the contract of evaluators.
pub record IsProper (v : Verdict) : Type 0 where
  pub exclusive : v.unevaluated ≡ true → v.pass ≡ false
  pub explained : v.unevaluated ≡ true → v.reason ≢ ""

-- The runner has the depth that a clause asks for: it has no tier that it enforces, the clause is not
-- literally `depth-sensitive`, or the clause's least tier is at most the runner's.
abbrev pub HasDepth : ℤ → Clause → Type 0
HasDepth tier c =
    (tier ≤ℤ pos 0) ⊎ ((c.depth_type ≢ "depth-sensitive") ⊎ (c.min_depth_tier ≤ℤ tier))

is_too_shallow-HasDepth :
    (tier : ℤ) (c : Clause) → (is_too_shallow tier c ≡ false) ↔ HasDepth tier c
unfolding is_too_shallow
is_too_shallow-HasDepth tier c = (
  λ h. elim (Bool-cases (int_ltb (pos 0) tier)) [
    | inr e ↦ inl (ground (arith, e))
    | inl e ↦ elim (Bool-cases (is_sensitive c)) [
      | inr f ↦ inr (inl (ground (arith, f, eq_iff c.depth_type "depth-sensitive")))
      | inl f ↦ inr (inr (ground (arith, e, f, h)))
    ]
  ],
  λ d. elim d [
    | inl e ↦ ground (arith, e)
    | inr (inl e) ↦ ground (arith, e, eq_iff c.depth_type "depth-sensitive")
    | inr (inr e) ↦ ground (arith, e)
  ],
)

derive_end_status-IsTerminal :
    (result : Option Verdict) (error : Option RunError)
    → IsTerminal (derive_end_status ClauseStatus.running result error).0
unfolding derive_end_status can_transition
derive_end_status-IsTerminal result error = ground arith

-- The status of a running clause is pass exactly when the evaluator returned, without an error, a
-- verdict that says so and does not say unevaluated as well.
derive_end_status-pass :
    (result : Option Verdict) (error : Option RunError)
    → ((derive_end_status ClauseStatus.running result error).0 ≡ ClauseStatus.pass) ↔ (
        (v : Verdict) × (result ≡ some v)
        × (error ≡ none)
        × (v.pass ≡ true)
        × (v.unevaluated ≡ false))
unfolding derive_end_status can_transition
derive_end_status-pass result (some e) =
    (λ h. absurd (ground (arith, h)), λ (v, r, n, p, u). absurd (ground (arith, n)))
derive_end_status-pass none none =
    (λ h. absurd (ground (arith, h)), λ (v, r, n, p, u). absurd (ground (arith, r)))
derive_end_status-pass (some v) none = (
  λ h. (v, refl, refl, ground (arith, h), ground (arith, h)),
  λ (w, r, n, p, u). ground (arith, r, p, u),
)

abbrev end_of : Invocation → ClauseStatus × Option RunError
end_of i = derive_end_status ClauseStatus.running (safe_invoke i).0 (safe_invoke i).1

invocation-pass :
    (i : Invocation)
    → ((end_of i).0 ≡ ClauseStatus.pass)
      ↔ ((v : Verdict) × (i ≡ returned (some v) none) × (v.pass ≡ true) × (v.unevaluated ≡ false))
unfolding safe_invoke
invocation-pass (returned result error) =
    let d = derive_end_status-pass result error in
    (
      λ h. let (v, r, n, p, u) = d.0 h in (v, ground (arith, r, n), p, u),
      λ (v, e, p, u). d.1 (v, ground (arith, e), ground (arith, e), p, u),
    )
invocation-pass (panicked what) =
    let d = derive_end_status-pass none (some (evaluator_panicked what)) in
    (
      λ h. let (v, r, n, p, u) = d.0 h in absurd (ground (arith, n)),
      λ (v, e, p, u). absurd (ground (arith, e)),
    )

module _ {R : Type 0} (r : Runner R) (stamp : Stamp) (clause_id pass_id : String) (c : Clause)
    (identity : EvaluatorIdentity) (call : Clause → Invocation) where
  abbrev outcome : Invocation
  outcome = call (fill_ids clause_id pass_id c)

  run_clause-shallow :
      is_too_shallow r.actual_tier c ≡ true
      → run_clause r stamp clause_id pass_id c identity call
        ≡ finished
            (run_of r stamp clause_id pass_id c identity
              (ClauseStatus.unevaluated, none)
              (some depth_below_required))
            none
  unfolding run_clause
  run_clause-shallow h = ground (arith, h)

  run_clause-deep :
      is_too_shallow r.actual_tier c ≡ false
      → run_clause r stamp clause_id pass_id c identity call
        ≡ finished
            (run_of r stamp clause_id pass_id c identity (end_of outcome) (safe_invoke outcome).0)
            (end_of outcome).1
  unfolding run_clause can_transition
  run_clause-deep h = ground (arith, h)

  run_clause-pass :
      ((run : EvaluationRun) × ((run_clause r stamp clause_id pass_id c identity call).run
          ≡ some run)
        × (run.end_status ≡ ClauseStatus.pass))
      ↔ ((is_too_shallow r.actual_tier c ≡ false)
          × ((v : Verdict) × (outcome ≡ returned (some v) none)
              × (v.pass ≡ true)
              × (v.unevaluated ≡ false)))
  run_clause-pass = elim (Bool-cases (is_too_shallow r.actual_tier c)) [
    | inl t ↦ (
      λ (run, e, p). absurd (ground (arith, run_clause-shallow t, e, p)),
      λ (f, q). absurd (ground (arith, t, f)),
    )
    | inr f ↦
        let d = invocation-pass outcome in
        (
          λ (run, e, p). (f, d.0 (ground (arith, run_clause-deep f, e, p))),
          λ (f', q). (
            run_of r stamp clause_id pass_id c identity (end_of outcome) (safe_invoke outcome).0,
            ground (arith, run_clause-deep f),
            d.1 q,
          ),
        )
  ]

  -- The run that a clause comes to ends in a terminal status, is the one that the observers see,
  -- and carries the error that is returned.
  run_clause-recorded :
      (run : EvaluationRun) × (run_clause r stamp clause_id pass_id c identity call
        ≡ finished run run.run_error)
      × IsTerminal run.end_status
      × (run.start_status ≡ ClauseStatus.pending)
      × (run.evaluator ≡ identity)
  run_clause-recorded = elim (Bool-cases (is_too_shallow r.actual_tier c)) [
    | inl t ↦ (
      run_of r stamp clause_id pass_id c identity (ClauseStatus.unevaluated, none)
          (some depth_below_required),
      run_clause-shallow t,
      inr (inr refl),
      refl,
      refl,
    )
    | inr f ↦ (
      run_of r stamp clause_id pass_id c identity (end_of outcome) (safe_invoke outcome).0,
      run_clause-deep f,
      derive_end_status-IsTerminal (safe_invoke outcome).0 (safe_invoke outcome).1,
      refl,
      refl,
    )
  ]

-- The call is valid and the concept resolves to an evaluator.
pub record Resolves {R : Type 0} (r : Runner R) (clause_id pass_id : String) (c : Clause)
    (g : Registry R) (identity : EvaluatorIdentity) (call : Clause → Invocation) : Type 0 where
  pub attached : r.registry ≡ some g
  pub clause_named : clause_id ≢ ""
  pub pass_named : pass_id ≢ ""
  pub found : resolve r g c.concept ≡ some (identity, call)

module _ {R : Type 0} (r : Runner R) (stamp : Stamp) (clause_id pass_id : String) (c : Clause)
    (g : Registry R) (identity : EvaluatorIdentity) (call : Clause → Invocation)
    (v : Resolves r clause_id pass_id c g identity call) where
  evaluate_clause-runs :
      evaluate_clause r stamp clause_id pass_id c
      ≡ run_clause r stamp clause_id pass_id c identity call
  unfolding evaluate_clause
  evaluate_clause-runs = ground (
    arith,
    v.attached,
    v.found,
    eq_iff clause_id "",
    eq_iff pass_id "",
    v.clause_named,
    v.pass_named,
  )

  -- A clause whose concept resolves passes exactly when, first, the runner's tier is not positive,
  -- or the depth type is not literally `depth-sensitive`, or the clause's least tier is at most the
  -- runner's; and, second, its evaluator, called on the clause with its ids filled in, returned a
  -- verdict that passes, is not unevaluated, and comes with no error. A panic, a nil verdict, an
  -- error and a verdict that breaks the contract never pass.
  pub evaluate_clause-pass :
      ((run : EvaluationRun) × ((evaluate_clause r stamp clause_id pass_id c).run ≡ some run)
        × (run.end_status ≡ ClauseStatus.pass))
      ↔ (HasDepth r.actual_tier c
          × ((b : Verdict) × (call (fill_ids clause_id pass_id c) ≡ returned (some b) none)
              × (b.pass ≡ true)
              × (b.unevaluated ≡ false)))
  evaluate_clause-pass =
      let ran = run_clause-pass r stamp clause_id pass_id c identity call in
      let depth = is_too_shallow-HasDepth r.actual_tier c in
      rw evaluate_clause-runs
        (λ h. let (d, q) = ran.0 h in (depth.0 d, q), λ (d, q). ran.1 (depth.1 d, q))

  -- A clause whose concept resolves always comes to one run, which starts as pending, ends as
  -- passed, failed or unevaluated, names the evaluator that was found, is handed to the observers
  -- as it is returned, and carries the returned error.
  pub evaluate_clause-recorded :
      (run : EvaluationRun) × (evaluate_clause r stamp clause_id pass_id c
        ≡ finished run run.run_error)
      × IsTerminal run.end_status
      × (run.start_status ≡ ClauseStatus.pending)
      × (run.evaluator ≡ identity)
  evaluate_clause-recorded =
      rw evaluate_clause-runs (run_clause-recorded r stamp clause_id pass_id c identity call)

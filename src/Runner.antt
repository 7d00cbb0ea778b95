-- ===== src/Runner.antt =====
-- runner/runner.go: the registry of evaluators, and the run of one clause.
-- An evaluator is a function of the clause that it is given; one of the other table is also given the
-- runner, a value of a type parameter `R`. What a call comes to is one of the outcomes of
-- `Invocation`. The clock and the source of ids are arguments.
pub mod Laws
pub mod Replacing
mod Examples
use ghyll.Base.{
  ℕ, ◌+◌, ◌⊎◌, inl, inr, ℤ, pos, String, Bool, true, false, ◌&&◌, ◌||◌, not, Option, none, some,
  List, [], ◌∷◌, ◌==◌, string_key, length, int_ltb, if◌then◌else◌,
}
use ghyll.Base.Map.{Map, lookup, insert, member}
use ghyll.Clause.{ClauseStatus, Clause, Verdict, can_transition}
use ghyll.Routing.{is_sensitive}

-- `EvaluatorIdentity`
pub record EvaluatorIdentity : Type 0 where
  pub concept : String
  pub generation : ℕ

-- The error of a run, with the evaluator's own or the panic's text.
pub data RunError : Type 0 where
  no_registry empty_ids returned_nil reason_missing pass_and_unevaluated : RunError
  evaluator_unknown evaluator_error evaluator_panicked : String → RunError
  invalid_transition : ClauseStatus → ClauseStatus → RunError

-- What the call of an evaluator comes to: a pair of a verdict or nil and an error or nil, or a panic.
pub data Invocation : Type 0 where
  returned : Option Verdict → Option RunError → Invocation
  panicked : String → Invocation

-- `safeInvoke` and `safeInvokeWithRunner`
unfoldable pub safe_invoke : Invocation → Option Verdict × Option RunError
safe_invoke (returned result error) = (result, error)
safe_invoke (panicked what) = (none, some (evaluator_panicked what))

-- `registered`, and with `R` also `registeredWithRunner`
pub record Registered (E : Type 0) : Type 0 where
  pub fn : E
  pub identity : EvaluatorIdentity

-- `Registry`
pub record Registry (R : Type 0) : Type 0 where
  pub by : Map String (Registered (Clause → Invocation))
  pub gen : Map String ℕ
  pub by_runner : Map String (Registered (R → Clause → Invocation))

pub data RegistryError : Type 0 where
  already_registered already_in_plain_table not_registered : String → RegistryError

module _ {R : Type 0} where
  -- `Register`
  unfoldable pub register_plain :
      Registry R → String → (Clause → Invocation) → RegistryError ⊎ Registry R
  register_plain r concept e =
      if member concept r.by
      then inl (already_registered concept)
      else inr (record r {
        gen = insert concept 1 r.gen;
        by =
            insert concept
              (record { fn = e; identity = record { concept = concept; generation = 1 } }) r.by;
      })

  -- `r.gen[concept]`, which is 0 for a missing key.
  abbrev pub generation_of : Registry R → String → ℕ
  generation_of r concept = elim (lookup concept r.gen) [ none ↦ 0 | some n ↦ n ]

  -- `Replace`
  unfoldable pub replace_plain :
      Registry R → String → (Clause → Invocation) → RegistryError ⊎ Registry R
  replace_plain r concept e =
      let next = generation_of r concept + 1 in
      if not (member concept r.by)
      then inl (not_registered concept)
      else inr (record r {
        gen = insert concept next r.gen;
        by =
            insert concept
              (record { fn = e; identity = record { concept = concept; generation = next } }) r.by;
      })

  -- `RegisterWithRunner`
  unfoldable pub register_with_runner :
      Registry R → String → (R → Clause → Invocation) → RegistryError ⊎ Registry R
  register_with_runner r concept e =
      if member concept r.by
      then inl (already_in_plain_table concept)
      else if member concept r.by_runner
      then inl (already_registered concept)
      else inr (record r {
        gen = insert concept 1 r.gen;
        by_runner =
            insert concept
              (record { fn = e; identity = record { concept = concept; generation = 1 } })
              r.by_runner;
      })

  -- `Registered`
  unfoldable pub is_registered : Registry R → String → Bool
  is_registered r concept = member concept r.by || member concept r.by_runner

-- `Runner`, without the clock, the ids and the observers.
pub record Runner (R : Type 0) : Type 0 where
  pub registry : Option (Registry R)
  pub itself : R
  pub actual_tier : ℤ

-- `EvaluationRun`
pub record EvaluationRun : Type 0 where
  pub id : String
  pub clause_id : String
  pub pass_id : String
  pub arrow_id : String
  pub grid_version : ℕ
  pub depth_type_attestation_ref : String
  pub actual_tier : ℤ
  pub min_depth_tier : ℤ
  pub evaluator : EvaluatorIdentity
  pub started_at : ℕ
  pub completed_at : ℕ
  pub start_status : ClauseStatus
  pub end_status : ClauseStatus
  pub result : Option Verdict
  pub run_error : Option RunError

-- What `Evaluate` returns, and the runs that it hands to each observer.
pub record Evaluation : Type 0 where
  pub run : Option EvaluationRun
  pub error : Option RunError
  pub observed : List EvaluationRun

abbrev pub rejected : RunError → Evaluation
rejected e = record { run = none; error = some e; observed = [] }

abbrev pub finished : EvaluationRun → Option RunError → Evaluation
finished run e = record { run = some run; error = e; observed = run ∷ [] }

abbrev verdict_status : Verdict → ClauseStatus
verdict_status v =
    if v.unevaluated
    then ClauseStatus.unevaluated
    else if v.pass
    then ClauseStatus.pass
    else ClauseStatus.fail

-- `deriveEndStatus`
unfoldable pub derive_end_status :
    ClauseStatus → Option Verdict → Option RunError → ClauseStatus × Option RunError
unfolding can_transition
derive_end_status from result (some e) = (ClauseStatus.fail, some e)
derive_end_status from none none = (ClauseStatus.fail, some returned_nil)
derive_end_status from (some v) none =
    let to = verdict_status v in
    if v.unevaluated && v.reason == ""
    then (ClauseStatus.fail, some reason_missing)
    else if v.unevaluated && v.pass
    then (ClauseStatus.fail, some pass_and_unevaluated)
    else if not (can_transition from to)
    then (from, some (invalid_transition from to))
    else (to, none)

-- The clause as the evaluator sees it.
unfoldable pub fill_ids : String → String → Clause → Clause
fill_ids clause_id pass_id c = record c {
  clause_id = if c.clause_id == "" then clause_id else c.clause_id;
  pass_id = if c.pass_id == "" then pass_id else c.pass_id;
}

-- The condition of the short circuit for depth.
unfoldable pub is_too_shallow : ℤ → Clause → Bool
is_too_shallow tier c = int_ltb (pos 0) tier && is_sensitive c && int_ltb tier c.min_depth_tier

abbrev pub depth_below_required : Verdict
depth_below_required = record { pass = false; unevaluated = true; reason = "depth-below-required" }

-- The ids and the times of one call.
pub record Stamp : Type 0 where
  pub id : String
  pub started_at : ℕ
  pub completed_at : ℕ

module _ {R : Type 0} where
  -- The look-up in the two tables: the identity, and the call on the filled clause.
  unfoldable pub resolve :
      Runner R → Registry R → String → Option (EvaluatorIdentity × (Clause → Invocation))
  resolve r g concept = elim (lookup concept g.by_runner) [
    | some e ↦ some (e.identity, λ c. e.fn r.itself c)
    | none ↦ elim (lookup concept g.by) [ some e ↦ some (e.identity, e.fn) | none ↦ none ]
  ]

  abbrev pub run_of :
      Runner R
      → Stamp
      → String
      → String
      → Clause
      → EvaluatorIdentity
      → ClauseStatus × Option RunError
      → Option Verdict
      → EvaluationRun
  run_of r stamp clause_id pass_id c identity (end, error) result = record {
    id = stamp.id;
    clause_id = clause_id;
    pass_id = pass_id;
    arrow_id = c.arrow_id;
    grid_version = c.grid_version;
    depth_type_attestation_ref = c.depth_type_attestation_ref;
    actual_tier = r.actual_tier;
    min_depth_tier = c.min_depth_tier;
    evaluator = identity;
    started_at = stamp.started_at;
    completed_at = stamp.completed_at;
    start_status = ClauseStatus.pending;
    end_status = end;
    result = result;
    run_error = error;
  }

  -- The run, once the evaluator is found.
  unfoldable pub run_clause :
      Runner R
      → Stamp
      → String
      → String
      → Clause
      → EvaluatorIdentity
      → (Clause → Invocation)
      → Evaluation
  unfolding fill_ids is_too_shallow safe_invoke derive_end_status
  run_clause r stamp clause_id pass_id c identity call =
      let c' = fill_ids clause_id pass_id c in
      let (result, error) = safe_invoke (call c') in
      let end = derive_end_status ClauseStatus.running result error in
      if is_too_shallow r.actual_tier c
      then finished
          (run_of r stamp clause_id pass_id c identity (ClauseStatus.unevaluated, none)
            (some depth_below_required))
          none
      else if not (can_transition ClauseStatus.pending ClauseStatus.running)
      then rejected (invalid_transition ClauseStatus.pending ClauseStatus.running)
      else finished (run_of r stamp clause_id pass_id c identity end result) end.1

  -- `Evaluate`
  unfoldable pub evaluate_clause : Runner R → Stamp → String → String → Clause → Evaluation
  unfolding resolve run_clause
  evaluate_clause r stamp clause_id pass_id c = elim r.registry [
    | none ↦ rejected no_registry
    | some g ↦
        if clause_id == "" || pass_id == ""
        then rejected empty_ids
        else elim (resolve r g c.concept) [
          | none ↦ rejected (evaluator_unknown c.concept)
          | some (identity, call) ↦ run_clause r stamp clause_id pass_id c identity call
        ]
  ]

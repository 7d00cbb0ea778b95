-- ===== src/Runner/Examples.antt =====
-- The run of a concrete clause.
use ghyll.Base.{String, ℕ, ℤ, pos, ◌≡◌, ◌≢◌, ◌↔◌, refl, true, false, some, none, [], ◌∷◌, List}
use ghyll.Clause.{Clause, ClauseStatus, Verdict}
use ghyll.Runner.{
  Runner, Registry, Invocation, returned, Stamp, EvaluatorIdentity, EvaluationRun, fill_ids,
  evaluate_clause, resolve,
}
use ghyll.Runner.{replace_plain}
use ghyll.Base.{◌+◌, inr, string_key}
use ghyll.Base.Map.{lookup, member}
use ghyll.Runner.Laws.{Resolves, HasDepth, evaluate_clause-pass}

abbrev clause : Clause
clause = record {
  concept = "no-todo";
  args = [];
  project_dir = "";
  clause_id = "";
  pass_id = "";
  arrow_id = "a1";
  grid_version = 1;
  depth_type = "depth-sensitive";
  min_depth_tier = pos 2;
  depth_type_attestation_ref = "";
}

abbrev passing : Verdict
passing = record { pass = true; unevaluated = false; reason = "" }

abbrev call : Clause → Invocation
call c = returned (some passing) none

abbrev identity : EvaluatorIdentity
identity = record { concept = "no-todo"; generation = 1 }

abbrev registry : Registry (Unit {0})
registry = record {
  by = ("no-todo", record { fn = call; identity = identity }) ∷ [];
  gen = ("no-todo", 1) ∷ [];
  by_runner = [];
}

abbrev runner : Runner (Unit {0})
runner = record { registry = some registry; itself = tt; actual_tier = pos 2 }

abbrev stamp : Stamp
stamp = record { id = "r1"; started_at = 5; completed_at = 6 }

found : resolve runner registry clause.concept ≡ some (identity, call)
unfolding resolve ghyll.Base.Map.lookup
found = refl

resolves : Resolves runner "c1" "p1" clause registry identity call
resolves = record { attached = refl; clause_named = λ e. cc; pass_named = λ e. cc; found = found }

evaluate_clause-pass_example :
    ((run : EvaluationRun) × ((evaluate_clause runner stamp "c1" "p1" clause).run ≡ some run)
      × (run.end_status ≡ ClauseStatus.pass))
    ↔ (HasDepth (pos 2) clause
        × ((b : Verdict) × (call (fill_ids "c1" "p1" clause) ≡ returned (some b) none)
            × (b.pass ≡ true)
            × (b.unevaluated ≡ false)))
evaluate_clause-pass_example =
    evaluate_clause-pass runner stamp "c1" "p1" clause registry identity call resolves

abbrev failing : Clause → Invocation
failing c = returned (some (record { pass = false; unevaluated = false; reason = "" })) none

abbrev swapped : Registry (Unit {0})
swapped = record {
  by =
      (
        "no-todo",
        record { fn = failing; identity = record { concept = "no-todo"; generation = 2 } },
      )
      ∷ [];
  gen = ("no-todo", 2) ∷ [];
  by_runner = [];
}

was_swapped : replace_plain registry "no-todo" failing ≡ inr swapped
unfolding replace_plain member ghyll.Base.Map.insert
was_swapped = refl

not_hidden : lookup "no-todo" registry.by_runner ≡ none
unfolding lookup
not_hidden = refl

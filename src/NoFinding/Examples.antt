-- ===== src/NoFinding/Examples.antt =====
-- The evaluator at a concrete store.
use ghyll.Base.{String, pos, ◌≡◌, ◌↔◌, refl, true, false, some, [], ◌∷◌, List, map, ok, string_key}
use ghyll.Base.Map.{Map, lookup}
use ghyll.Clause.{Value, Verdict, require_string_arg}
use ghyll.Arrow.{ArrowStatus, FindingStatus, derive_arrow_status}
use ghyll.Findings.{new_findings_store, as_derive_input, findings_on}
use ghyll.Findings.History.{Call, raising, run}
use ghyll.NoFinding.{threshold_arg, evaluate_no_open_finding}
use ghyll.NoFinding.Laws.{passing, evaluate_no_open_finding-derive}

abbrev calls : List (String × Call)
calls =
    (
      "t1",
      raising (record {
        id = "f1";
        arrow_id = "a1";
        finding_type = "gap";
        severity = pos 1;
        status = FindingStatus.still_open;
        description = "";
        raised_at = "";
        raised_by_role = "auditor";
        transition_count = 0;
        grid_version = 1;
      }),
    )
    ∷ []

abbrev args : Map String Value
args = ("arrow-id", Value.text "a1") ∷ ("severity-threshold", Value.text " High") ∷ []

arrow_given : require_string_arg args "arrow-id" ≡ ok "a1"
unfolding require_string_arg lookup
arrow_given = refl

threshold_given : threshold_arg (lookup "severity-threshold" args) ≡ ok (pos 3)
unfolding lookup ghyll.NoFinding.coerce_severity_arg
threshold_given = refl

evaluate_no_open_finding-derive_example :
    (b : Verdict) × (evaluate_no_open_finding (some (run new_findings_store calls)) args ≡ ok b)
    × (b.unevaluated ≡ false)
    × ((b.pass ≡ true) ↔ (
        (derive_arrow_status
          (passing ∷ [])
          (map as_derive_input (findings_on (run new_findings_store calls) "a1"))
          (pos 3)).0
        ≡ ArrowStatus.complete))
evaluate_no_open_finding-derive_example =
    evaluate_no_open_finding-derive calls args "a1" (pos 3) arrow_given threshold_given

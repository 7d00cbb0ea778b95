-- ===== src/Findings/Examples.antt =====
-- The store at concrete calls.
use ghyll.Base.{
  String, ℕ, ℤ, pos, ◌≡◌, ◌≢◌, ◌↔◌, ◌<◌, refl, true, false, Bool, none, some, [], ◌∷◌, List, All,
  ok, err, ◌==◌, string_key, if◌then◌else◌,
}
use ghyll.Arrow.{FindingStatus}
use ghyll.Findings.{
  FindingRecord, FindingsStore, FindingsEvent, new_findings_store, raise, transition_with_reason,
  forget, forget_arrow, get, moved, zero_record, valid_finding_transition, max_finding_transitions,
  unknown_id, store_record, store_moved, drop_record, FindingLocator,
}
use ghyll.Findings.Indexing.{IsIndexed}
use ghyll.Findings.History.{
  Call, raising, moving, forgetting, run, run-new-IsIndexed, forget_arrow-get,
}
use ghyll.Findings.Lifecycle.{IsSoundStore, run-new-IsSound, transition_with_reason-producer}
use ghyll.Findings.Refinement.{new_findings_store-IsIndexed, raise-get, transition_with_reason-get}

abbrev finding : String → FindingRecord
finding id = record {
  id = id;
  arrow_id = "a1";
  finding_type = "gap";
  severity = pos 3;
  status = FindingStatus.still_open;
  description = "";
  raised_at = "";
  raised_by_role = "auditor";
  transition_count = 0;
  grid_version = 1;
}

abbrev calls : List (String × Call)
calls =
    ("t1", raising (finding "f1"))
    ∷ ("t2", raising (finding "f2"))
    ∷ ("t3", forgetting "f1")
    ∷ ("t4", moving "f2" FindingStatus.running "auditor" "look")
    ∷ []

run-new-IsIndexed_example : IsIndexed (run new_findings_store calls)
run-new-IsIndexed_example = run-new-IsIndexed calls

run-new-IsSound_example : IsSoundStore (run new_findings_store calls)
run-new-IsSound_example = run-new-IsSound calls

abbrev raised : FindingsStore
raised = (store_record "t1" new_findings_store (finding "f1")).0

abbrev raising_event : List FindingsEvent
raising_event = (store_record "t1" new_findings_store (finding "f1")).1

was_raised : raise "t1" new_findings_store (finding "f1") ≡ ok (tt, raised, raising_event)
unfolding raise ghyll.Findings.check_record ghyll.Base.Map.lookup new_findings_store
was_raised = refl

raise-get_example :
    IsIndexed raised
    × (get new_findings_store "f1" ≡ none)
    × ((j : String)
        → get raised j ≡ (if "f1" == j then some (finding "f1") else get new_findings_store j))
raise-get_example =
    raise-get "t1" new_findings_store raised raising_event new_findings_store-IsIndexed
      (finding "f1") was_raised

raised-IsIndexed : IsIndexed raised
raised-IsIndexed =
    (raise-get "t1" new_findings_store raised raising_event new_findings_store-IsIndexed
      (finding "f1") was_raised).0

abbrev at_first : FindingLocator
at_first = record { arrow_id = "a1"; idx = 0 }

abbrev resolved : FindingsStore
resolved =
    (store_moved "t2" raised at_first (finding "f1") FindingStatus.resolved "producer" "done").0

abbrev resolving : List FindingsEvent
resolving =
    (store_moved "t2" raised at_first (finding "f1") FindingStatus.resolved "producer" "done").1

was_resolved :
    transition_with_reason "t2" raised "f1" FindingStatus.resolved "producer" "done"
    ≡ ok (tt, resolved, resolving)
unfolding transition_with_reason ghyll.Base.Map.lookup store_record ghyll.Base.Map.insert
    new_findings_store ghyll.Findings.record_at ghyll.Findings.check_move
was_resolved = refl

transition_with_reason-get_example :
    IsIndexed resolved
    × ((r : FindingRecord) × (get raised "f1" ≡ some r)
        × (valid_finding_transition r.status FindingStatus.resolved ≡ true)
        × (r.transition_count < max_finding_transitions)
        × ((j : String)
            → get resolved j ≡ (
                if "f1" == j
                then some (moved r FindingStatus.resolved "producer" "done")
                else get raised j)))
transition_with_reason-get_example =
    transition_with_reason-get "t2" raised resolved resolving raised-IsIndexed "f1"
      FindingStatus.resolved "producer" "done" was_resolved

-- A finding that was accepted before the producer resolves another one.
abbrev accepted : FindingRecord
accepted = record (finding "f2") { status = FindingStatus.accepted_risk }

abbrev both : FindingsStore
both = (store_record "t1" raised accepted).0

abbrev both_event : List FindingsEvent
both_event = (store_record "t1" raised accepted).1

was_accepted : raise "t1" raised accepted ≡ ok (tt, both, both_event)
unfolding raise ghyll.Findings.check_record ghyll.Base.Map.lookup store_record ghyll.Base.Map.insert
    new_findings_store
was_accepted = refl

both-IsIndexed : IsIndexed both
both-IsIndexed = (raise-get "t1" raised both both_event raised-IsIndexed accepted was_accepted).0

abbrev one_resolved : FindingsStore
one_resolved =
    (store_moved "t2" both at_first (finding "f1") FindingStatus.resolved "producer" "done").0

abbrev one_resolving : List FindingsEvent
one_resolving =
    (store_moved "t2" both at_first (finding "f1") FindingStatus.resolved "producer" "done").1

was_one_resolved :
    transition_with_reason "t2" both "f1" FindingStatus.resolved "producer" "done"
    ≡ ok (tt, one_resolved, one_resolving)
unfolding transition_with_reason ghyll.Base.Map.lookup store_record ghyll.Base.Map.insert
    new_findings_store ghyll.Findings.record_at ghyll.Findings.check_move
was_one_resolved = refl

held : get one_resolved "f2" ≡ some accepted
unfolding get ghyll.Base.Map.lookup store_moved store_record ghyll.Base.Map.insert
    new_findings_store
held = refl

transition_with_reason-producer_example : get both "f2" ≡ some accepted
transition_with_reason-producer_example =
    transition_with_reason-producer "t2" both one_resolved one_resolving both-IsIndexed "f1"
      FindingStatus.resolved "done" was_one_resolved "f2" accepted held refl

forget_arrow-get_example :
    (get (forget_arrow "t3" raised "a1").1 "f1" ≡ some (finding "f1"))
    ↔ ((get raised "f1" ≡ some (finding "f1")) × ((finding "f1").arrow_id ≢ "a1"))
forget_arrow-get_example = forget_arrow-get "t3" raised raised-IsIndexed "a1" "f1" (finding "f1")

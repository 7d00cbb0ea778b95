-- ===== src/Findings/Lifecycle.antt =====
-- What the records of a store can become: their statuses, their severities, and who accepts them.
use ghyll.Base.{
  ℕ, pos, ◌≤ℤ◌, String, ◌≡◌, refl, ◌∙◌, ap, subst, inl, inr, true, some, List, [], ◌∷◌, arith, ◌==◌,
  string_key, ok, err, Bool-cases, suc, All, get_elem?,
}
use ghyll.Base.Map.{lookup}
use ghyll.Arrow.{FindingStatus}
use ghyll.Findings.{
  FindingRecord, FindingsStore, FindingsEvent, Mutation, get, raise, check_record,
  transition_with_reason, moved, forget, valid_finding_transition, is_known_finding_status,
  new_findings_store, findings_on, record_at,
}
use ghyll.Findings.Indexing.{IsIndexed, place}
use ghyll.Findings.Contents.{get-at}
use ghyll.Findings.Refinement.{
  raise-inv, raise-get, transition_with_reason-get, forget-get, new_findings_store-IsIndexed,
}
use ghyll.Findings.History.{
  Call, raising, moving, forgetting, purging, step, step-IsIndexed, run, after, forget_arrow-get,
}

-- The moves of the lifecycle comment.
pub data Move : FindingStatus → FindingStatus → Type 0 where
  begin : Move FindingStatus.still_open FindingStatus.running
  settle : Move FindingStatus.still_open FindingStatus.resolved
  accept : Move FindingStatus.still_open FindingStatus.accepted_risk
  fix : Move FindingStatus.running FindingStatus.resolved
  accept_running : Move FindingStatus.running FindingStatus.accepted_risk
  give_up : Move FindingStatus.running FindingStatus.unevaluated
  return : Move FindingStatus.running FindingStatus.still_open
  regress : Move FindingStatus.resolved FindingStatus.still_open
  amend : Move FindingStatus.accepted_risk FindingStatus.still_open
  retry : Move FindingStatus.unevaluated FindingStatus.running
  reopen : Move FindingStatus.unevaluated FindingStatus.still_open

ruleset moves =
    (begin, settle, accept, fix, accept_running, give_up, return, regress, amend, retry, reopen)

valid-Move : (a b : FindingStatus) → valid_finding_transition a b ≡ true → Move a b
unfolding valid_finding_transition
valid-Move a b h = grind (arith, moves)

-- A record that `Raise` would take, as far as its status and its severity go.
pub record IsSound (r : FindingRecord) : Type 0 where
  pub known : is_known_finding_status r.status ≡ true
  pub severity_low : pos 0 ≤ℤ r.severity
  pub severity_high : r.severity ≤ℤ pos 4

-- Every record that the store holds is sound.
pub IsSoundStore : FindingsStore → Type 0
IsSoundStore s = (j : String) (r : FindingRecord) → get s j ≡ some r → IsSound r

check_record-IsSound : (r : FindingRecord) → check_record r ≡ ok tt → IsSound r
unfolding check_record
check_record-IsSound r h = record {
  known = ground (arith, h);
  severity_low = ground (arith, h);
  severity_high = ground (arith, h);
}

moved-IsSound :
    (r : FindingRecord) (to : FindingStatus) (role reason : String)
    → valid_finding_transition r.status to ≡ true
    → IsSound r
    → IsSound (moved r to role reason)
unfolding moved valid_finding_transition is_known_finding_status
moved-IsSound r to role reason h v = record {
  known = ground (arith, h);
  severity_low = v.severity_low;
  severity_high = v.severity_high;
}

module _ (now : String) (s s' : FindingsStore) (events : List FindingsEvent) (i : IsIndexed s)
    (v : IsSoundStore s) where
  raise-IsSound : (r : FindingRecord) → raise now s r ≡ ok (tt, s', events) → IsSoundStore s'
  unfolding IsSoundStore
  raise-IsSound r h j x at =
      let (c, fresh, e) = raise-inv now s s' events r h in
      let (w, free, g) = raise-get now s s' events i r h in
      elim (Bool-cases (r.id == j)) [
        | inl same ↦
            let here : r ≡ x = ground (arith, at, g j, same) in
            subst IsSound here (check_record-IsSound r c)
        | inr other ↦ v j x (ground (arith, at, g j, other))
      ]

  transition_with_reason-IsSound :
      (id : String) (to : FindingStatus) (role reason : String)
      → transition_with_reason now s id to role reason ≡ ok (tt, s', events)
      → IsSoundStore s'
  unfolding IsSoundStore
  transition_with_reason-IsSound id to role reason h j x at =
      let (w, (r, held, valid, few, g)) =
        transition_with_reason-get now s s' events i id to role reason h in
      elim (Bool-cases (id == j)) [
        | inl same ↦
            let here : moved r to role reason ≡ x = ground (arith, at, g j, same) in
            subst IsSound here (moved-IsSound r to role reason valid (v id r held))
        | inr other ↦ v j x (ground (arith, at, g j, other))
      ]

  forget-IsSound : (id : String) → forget now s id ≡ ok (tt, s', events) → IsSoundStore s'
  unfolding IsSoundStore
  forget-IsSound id h j x at =
      let (w, there, g) = forget-get now s s' events i id h in
      elim (Bool-cases (id == j)) [
        | inl same ↦ absurd (ground (arith, at, g j, same))
        | inr other ↦ v j x (ground (arith, at, g j, other))
      ]

after-IsSound :
    (s : FindingsStore) (m : Mutation (Unit {0}))
    → IsSoundStore s
    → ((s' : FindingsStore) (events : List FindingsEvent)
        → m ≡ ok (tt, s', events)
        → IsSoundStore s')
    → IsSoundStore (after s m)
after-IsSound s (ok (u, s', events)) v k = k s' events refl
after-IsSound s (err e) v k = v

step-IsSound :
    (now : String) (s : FindingsStore) (c : Call)
    → IsIndexed s
    → IsSoundStore s
    → IsSoundStore (step now s c)
unfolding step IsSoundStore
step-IsSound now s (raising r) i v =
    after-IsSound s (raise now s r) v (λ s' events h. raise-IsSound now s s' events i v r h)
step-IsSound now s (moving id to role reason) i v =
    after-IsSound s (transition_with_reason now s id to role reason) v
      (λ s' events h. transition_with_reason-IsSound now s s' events i v id to role reason h)
step-IsSound now s (forgetting id) i v =
    after-IsSound s (forget now s id) v (λ s' events h. forget-IsSound now s s' events i v id h)
step-IsSound now s (purging arrow_id) i v =
    λ j r at. v j r ((forget_arrow-get now s i arrow_id j r).0 at).0

run-IsSound :
    (s : FindingsStore) (cs : List (String × Call))
    → IsIndexed s
    → IsSoundStore s
    → IsSoundStore (run s cs)
unfolding run
run-IsSound s [] i v = v
run-IsSound s ((now, c) ∷ cs) i v =
    run-IsSound (step now s c) cs (step-IsIndexed now s c i) (step-IsSound now s c i v)

new_findings_store-IsSound : IsSoundStore new_findings_store
unfolding IsSoundStore new_findings_store get lookup
new_findings_store-IsSound j r at = cc

-- Whatever calls were made on a new store, every finding in it has one of the five statuses and a
-- severity from 0 to 4.
pub run-new-IsSound : (cs : List (String × Call)) → IsSoundStore (run new_findings_store cs)
run-new-IsSound cs =
    run-IsSound new_findings_store cs new_findings_store-IsIndexed new_findings_store-IsSound

listed :
    (s : FindingsStore) (arrow_id : String) (k : ℕ) (r : FindingRecord)
    → get_elem? (findings_on s arrow_id) k ≡ some r
    → record_at s (place arrow_id k) ≡ some r
unfolding record_at
listed s arrow_id k r at = at

elements-IsSound :
    (fs : List FindingRecord)
    → ((i : ℕ) (r : FindingRecord) → get_elem? fs i ≡ some r → IsSound r)
    → All IsSound fs
elements-IsSound [] h = tt
elements-IsSound (f ∷ fs) h = (h 0 f refl, elements-IsSound fs (λ i r at. h (suc i) r at))

pub findings_on-IsSound :
    (s : FindingsStore) (arrow_id : String)
    → IsIndexed s
    → IsSoundStore s
    → All IsSound (findings_on s arrow_id)
unfolding IsSoundStore
findings_on-IsSound s arrow_id i v = elements-IsSound (findings_on s arrow_id) (λ k r at.
    let held = listed s arrow_id k r at in
    v r.id r (get-at s r.id (place arrow_id k) (i.covers (place arrow_id k) r held) ∙ held))

producer-refused :
    (now : String) (s : FindingsStore) {s' : FindingsStore} {events : List FindingsEvent}
    (id reason : String)
    → ¬ (
        transition_with_reason now s id FindingStatus.accepted_risk "producer" reason
        ≡ ok (tt, s', events))
unfolding transition_with_reason
producer-refused now s id reason h = ground (arith, h)

-- A producer never accepts a risk: on a store whose index fits its lists, a finding that is
-- accepted after a transition in the role `producer` was accepted before it, and is as it was.
pub transition_with_reason-producer :
    (now : String) (s s' : FindingsStore) (events : List FindingsEvent) (i : IsIndexed s)
    (id : String) (to : FindingStatus) (reason : String)
    → transition_with_reason now s id to "producer" reason ≡ ok (tt, s', events)
    → (j : String) (r : FindingRecord) → get s' j ≡ some r
    → r.status ≡ FindingStatus.accepted_risk
    → get s j ≡ some r
unfolding moved
transition_with_reason-producer now s s' events i id to reason h j r at e =
    let (w, (x, held, valid, few, g)) =
      transition_with_reason-get now s s' events i id to "producer" reason h in
    elim (Bool-cases (id == j)) [
      | inl same ↦
          let here : moved x to "producer" reason ≡ r = ground (arith, at, g j, same) in
          let target : to ≡ FindingStatus.accepted_risk = ap (λ y. y.status) here ∙ e in
          absurd (
            producer-refused now s id reason (
              subst (λ y. transition_with_reason now s id y "producer" reason ≡ ok (tt, s', events))
                target h))
      | inr other ↦ ground (arith, at, g j, other)
    ]

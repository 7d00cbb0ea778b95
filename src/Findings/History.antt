-- ===== src/Findings/History.antt =====
-- Any sequence of calls on a new store.
use ghyll.Base.{
  String, ◌≡◌, ◌≢◌, refl, sym, ◌∙◌, inl, inr, ◌↔◌, none, some, List, [], ◌∷◌, arith, eq_iff,
  string_key, ok, err, Option-cases,
}
use ghyll.Base.Map.{lookup}
use ghyll.Arrow.{FindingStatus}
use ghyll.Findings.{
  FindingRecord, FindingsStore, FindingsEvent, Mutation, record_at, get, raise,
  transition_with_reason, check_move, forget, forget_arrow, new_findings_store, index_out_of_range,
  unknown_id,
}
use ghyll.Findings.Indexing.{IsIndexed}
use ghyll.Findings.Purging.{forget_arrow-IsIndexed, by_id-forget_arrow, record_at-forget_arrow}
use ghyll.Findings.Contents.{get-missing, get-at}
use ghyll.Findings.Refinement.{
  new_findings_store-IsIndexed, raise-get, transition_with_reason-get, forget-get,
}

-- The calls that change a store.
pub data Call : Type 0 where
  raising : FindingRecord → Call
  moving : String → FindingStatus → String → String → Call
  forgetting purging : String → Call

abbrev pub after : FindingsStore → Mutation (Unit {0}) → FindingsStore
after s (ok (u, s', events)) = s'
after s (err e) = s

-- A call that fails leaves the store as it was.
unfoldable pub step : String → FindingsStore → Call → FindingsStore
step now s (raising r) = after s (raise now s r)
step now s (moving id to role reason) = after s (transition_with_reason now s id to role reason)
step now s (forgetting id) = after s (forget now s id)
step now s (purging arrow_id) = (forget_arrow now s arrow_id).1

unfoldable pub run : FindingsStore → List (String × Call) → FindingsStore
unfolding step
run s [] = s
run s ((now, c) ∷ cs) = run (step now s c) cs

after-IsIndexed :
    (s : FindingsStore) (m : Mutation (Unit {0}))
    → IsIndexed s
    → ((s' : FindingsStore) (events : List FindingsEvent) → m ≡ ok (tt, s', events) → IsIndexed s')
    → IsIndexed (after s m)
after-IsIndexed s (ok (u, s', events)) v k = k s' events refl
after-IsIndexed s (err e) v k = v

pub step-IsIndexed :
    (now : String) (s : FindingsStore) (c : Call) → IsIndexed s → IsIndexed (step now s c)
unfolding step
step-IsIndexed now s (raising r) v =
    after-IsIndexed s (raise now s r) v (λ s' events h. (raise-get now s s' events v r h).0)
step-IsIndexed now s (moving id to role reason) v =
    after-IsIndexed s (transition_with_reason now s id to role reason) v
      (λ s' events h. (transition_with_reason-get now s s' events v id to role reason h).0)
step-IsIndexed now s (forgetting id) v =
    after-IsIndexed s (forget now s id) v (λ s' events h. (forget-get now s s' events v id h).0)
step-IsIndexed now s (purging arrow_id) v = forget_arrow-IsIndexed now s arrow_id v

run-IsIndexed : (s : FindingsStore) (cs : List (String × Call)) → IsIndexed s → IsIndexed (run s cs)
unfolding run
run-IsIndexed s [] v = v
run-IsIndexed s ((now, c) ∷ cs) v = run-IsIndexed (step now s c) cs (step-IsIndexed now s c v)

-- Whatever calls were made on a new store, each id in the index leads to the one record with
-- that id, in the list of its arrow, and every record is indexed.
pub run-new-IsIndexed : (cs : List (String × Call)) → IsIndexed (run new_findings_store cs)
run-new-IsIndexed cs = run-IsIndexed new_findings_store cs new_findings_store-IsIndexed

module _ (now : String) (s : FindingsStore) (v : IsIndexed s) where
  -- On a store whose index fits its lists, `Forget` reports an unknown id exactly when the store
  -- does not hold it.
  pub forget-known : (id : String) → (forget now s id ≡ err (unknown_id id)) ↔ (get s id ≡ none)
  unfolding forget
  forget-known id = elim (Option-cases (lookup id s.by_id)) [
    | inl e ↦ (λ h. get-missing s id e, λ h. ground (arith, e))
    | inr (loc, e) ↦
        let (r, at, i, a) = v.leads id loc e in
        (
          λ h. absurd (ground (arith, e, at, h)),
          λ n. absurd (ground (arith, n, get-at s id loc e, at)),
        )
  ]

  pub forget-in_range : (id : String) → forget now s id ≢ err index_out_of_range
  unfolding forget
  forget-in_range id h = elim (Option-cases (lookup id s.by_id)) [
    | inl e ↦ ground (arith, e, h)
    | inr (loc, e) ↦ let (r, at, i, a) = v.leads id loc e in ground (arith, e, at, h)
  ]

  transition_with_reason-in_range :
      (id : String) (to : FindingStatus) (role reason : String)
      → transition_with_reason now s id to role reason ≢ err index_out_of_range
  unfolding transition_with_reason check_move
  transition_with_reason-in_range id to role reason h = elim (Option-cases (lookup id s.by_id)) [
    | inl e ↦ ground (arith, e, h)
    | inr (loc, e) ↦ let (r, at, i, a) = v.leads id loc e in ground (arith, e, at, h)
  ]

  -- On a store whose index fits its lists, forgetting an arrow removes the findings of that arrow
  -- and no others.
  pub forget_arrow-get :
      (arrow_id : String) (j : String) (r : FindingRecord)
      → (get (forget_arrow now s arrow_id).1 j ≡ some r)
        ↔ ((get s j ≡ some r) × (r.arrow_id ≢ arrow_id))
  forget_arrow-get arrow_id j r =
      let s' = (forget_arrow now s arrow_id).1 in
      let v' = forget_arrow-IsIndexed now s arrow_id v in
      (
        λ h. elim (Option-cases (lookup j s'.by_id)) [
          | inl n ↦ absurd (ground (arith, h, get-missing s' j n))
          | inr (l, e) ↦
              let at' = sym (get-at s' j l e) ∙ h in
              let here = rw (record_at-forget_arrow now s arrow_id l) at at' in
              let known = rw (by_id-forget_arrow now s arrow_id j) at e in
              let (x, at, i, a) = v.leads j l (ground (arith, known)) in
              (
                get-at s j l (ground (arith, known)) ∙ ground (arith, here),
                λ p. ground (arith, here, at, a, p, eq_iff arrow_id l.arrow_id),
              )
        ],
        λ (h, ne). elim (Option-cases (lookup j s.by_id)) [
          | inl n ↦ absurd (ground (arith, h, get-missing s j n))
          | inr (l, e) ↦
              let (x, at, i, a) = v.leads j l e in
              let here : record_at s' l ≡ some r =
                rw (record_at-forget_arrow now s arrow_id l)
                  (ground (arith, get-at s j l e, h, at, a, ne, eq_iff arrow_id l.arrow_id)) in
              let look : lookup j s'.by_id ≡ some l =
                ground (arith, v'.covers l r here, get-at s j l e, h, at, i) in
              get-at s' j l look ∙ here
        ],
      )

-- ===== src/Findings/Refinement.antt =====
-- What the operations do to the map from ids to records, as their callers see it.
use ghyll.Base.{
  ◌<◌, String, ◌≡◌, ◌≢◌, ◌∙◌, inl, inr, true, none, some, List, arith, ◌==◌, string_key, ok,
  if◌then◌else◌, Option-cases,
}
use ghyll.Base.Map.{lookup}
use ghyll.Arrow.{FindingStatus}
use ghyll.Findings.{
  FindingRecord, FindingLocator, FindingsStore, FindingsEvent, findings_on, record_at, get, raise,
  check_record, store_record, transition_with_reason, store_moved, moved, forget, drop_record,
  new_findings_store, valid_finding_transition, max_finding_transitions, check_move,
}
use ghyll.Findings.Indexing.{IsIndexed, store_record-IsIndexed}
use ghyll.Findings.Moving.{store_moved-IsIndexed}
use ghyll.Findings.Forgetting.{drop_record-IsIndexed}
use ghyll.Findings.Contents.{
  get-missing, get-at, get-store_record, get-store_moved, get-drop_record,
}

pub new_findings_store-IsIndexed : IsIndexed new_findings_store
unfolding new_findings_store lookup record_at findings_on
new_findings_store-IsIndexed = record { leads = λ id loc h. cc; covers = λ loc r h. cc }

check_move-ok :
    (id : String) (r : FindingRecord) (to : FindingStatus)
    → check_move id r to ≡ ok tt
    → (valid_finding_transition r.status to ≡ true) × (r.transition_count < max_finding_transitions)
unfolding check_move
check_move-ok id r to h = ground arith

module _ (now : String) (s s' : FindingsStore) (events : List FindingsEvent) where
  pub raise-inv :
      (r : FindingRecord)
      → raise now s r ≡ ok (tt, s', events)
      → (check_record r ≡ ok tt) × (lookup r.id s.by_id ≡ none) × (s' ≡ (store_record now s r).0)
  unfolding raise
  raise-inv r h = ground arith

  transition-inv :
      (id : String) (to : FindingStatus) (role reason : String)
      → transition_with_reason now s id to role reason ≡ ok (tt, s', events)
      → (loc : FindingLocator) × (r : FindingRecord) × (lookup id s.by_id ≡ some loc)
        × (record_at s loc ≡ some r)
        × (valid_finding_transition r.status to ≡ true)
        × (r.transition_count < max_finding_transitions)
        × (s' ≡ (store_moved now s loc r to role reason).0)
  unfolding transition_with_reason
  transition-inv id to role reason h = elim (Option-cases (lookup id s.by_id)) [
    | inl e ↦ absurd (ground (arith, h, e))
    | inr (loc, e) ↦ elim (Option-cases (record_at s loc)) [
      | inl n ↦ absurd (ground (arith, h, e, n))
      | inr (r, at) ↦
          let c : check_move id r to ≡ ok tt = ground (arith, h, e, at) in
          let (valid, few) = check_move-ok id r to c in
          (loc, r, e, at, valid, few, ground (arith, h, e, at, c))
    ]
  ]

  forget-inv :
      (id : String)
      → forget now s id ≡ ok (tt, s', events)
      → (loc : FindingLocator) × (r : FindingRecord) × (lookup id s.by_id ≡ some loc)
        × (record_at s loc ≡ some r)
        × (s' ≡ (drop_record now s id loc r).0)
  unfolding forget
  forget-inv id h = elim (Option-cases (lookup id s.by_id)) [
    | inl e ↦ absurd (ground (arith, h, e))
    | inr (loc, e) ↦ elim (Option-cases (record_at s loc)) [
      | inl n ↦ absurd (ground (arith, h, e, n))
      | inr (r, at) ↦ (loc, r, e, at, ground (arith, h, e, at))
    ]
  ]

module _ (now : String) (s s' : FindingsStore) (events : List FindingsEvent) (v : IsIndexed s) where
  -- On a store whose index fits its lists, a finding that is raised joins the store under an id
  -- that was free, every other finding stays as it was, and the index still fits.
  pub raise-get :
      (r : FindingRecord)
      → raise now s r ≡ ok (tt, s', events)
      → IsIndexed s'
        × (get s r.id ≡ none)
        × ((j : String) → get s' j ≡ (if r.id == j then some r else get s j))
  raise-get r h =
      let (c, fresh, e) = raise-inv now s s' events r h in
      rw e (
        store_record-IsIndexed now s r v fresh,
        get-missing s r.id fresh,
        get-store_record now s v r fresh,
      )

  -- On a store whose index fits its lists, a transition that succeeds follows an edge of the
  -- lifecycle from the status that the finding had, on a finding that was moved fewer than a
  -- hundred times, changes that finding alone, and the index still fits.
  pub transition_with_reason-get :
      (id : String) (to : FindingStatus) (role reason : String)
      → transition_with_reason now s id to role reason ≡ ok (tt, s', events)
      → IsIndexed s'
        × ((r : FindingRecord) × (get s id ≡ some r)
            × (valid_finding_transition r.status to ≡ true)
            × (r.transition_count < max_finding_transitions)
            × ((j : String)
                → get s' j ≡ (if id == j then some (moved r to role reason) else get s j)))
  transition_with_reason-get id to role reason h =
      let (loc, r, found, held, valid, few, e) =
        transition-inv now s s' events id to role reason h in
      rw e (
        store_moved-IsIndexed now s loc r to role reason held v,
        (
          r,
          get-at s id loc found ∙ held,
          valid,
          few,
          get-store_moved now s v id loc r to role reason found held,
        ),
      )

  -- On a store whose index fits its lists, a finding that is forgotten was there and is gone,
  -- every other finding stays as it was, and the index still fits.
  pub forget-get :
      (id : String)
      → forget now s id ≡ ok (tt, s', events)
      → IsIndexed s'
        × (get s id ≢ none)
        × ((j : String) → get s' j ≡ (if id == j then none else get s j))
  forget-get id h =
      let (loc, r, found, held, e) = forget-inv now s s' events id h in
      rw e (
        drop_record-IsIndexed now s id loc r v found held,
        (λ n. ground (arith, n, get-at s id loc found, held)),
        get-drop_record now s v id loc r found held,
      )

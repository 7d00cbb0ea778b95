-- ===== src/Amendments/Delivery.antt =====
-- Nothing is lost and nothing is delivered twice.
use ghyll.Base.{
  ◌+◌, ℤ, String, ◌≡◌, refl, inl, inr, Bool, not, List, [], ◌∷◌, ◌++◌, arith, ◌==◌, string_key, ok,
  err, Result, select, All, count_if, count_if-append, Bool-cases,
}
use ghyll.Base.Map.{member}
use ghyll.Amendments.{
  AmendmentRequest, AmendmentQueue, AmendmentError, AmendmentEvent, enqueue, mark_drained, drain,
  load_drained, new_amendment_queue, last_named, no_request, drain_event, enqueue_event,
  reset_event, drained_events,
}
use ghyll.Amendments.Invariant.{
  IsConsistent, count_named, new_amendment_queue-IsConsistent, enqueue-inv,
}
use ghyll.Amendments.Laws.{
  QueueCall, enqueuing, marking, loading, draining, resetting, queued, queue_step, queue_run,
  IsWithinSession, queue_step-IsConsistent,
}

-- The requests that the events say have entered, and have left.
abbrev pub entered : List AmendmentEvent → List AmendmentRequest
entered [] = []
entered (enqueue_event r ∷ es) = r ∷ entered es
entered (drain_event rs ∷ es) = entered es
entered (reset_event ∷ es) = entered es

abbrev pub left : List AmendmentEvent → List AmendmentRequest
left [] = []
left (enqueue_event r ∷ es) = left es
left (drain_event rs ∷ es) = rs ++ left es
left (reset_event ∷ es) = left es

module _ (p : AmendmentRequest → Bool) where
  entered-append :
      (es fs : List AmendmentEvent)
      → count_if p (entered (es ++ fs)) ≡ count_if p (entered es) + count_if p (entered fs)
  entered-append [] fs = omega arith
  entered-append (enqueue_event r ∷ es) fs = ground (arith, entered-append es fs)
  entered-append (drain_event rs ∷ es) fs = entered-append es fs
  entered-append (reset_event ∷ es) fs = entered-append es fs

  left-append :
      (es fs : List AmendmentEvent)
      → count_if p (left (es ++ fs)) ≡ count_if p (left es) + count_if p (left fs)
  left-append [] fs = omega arith
  left-append (enqueue_event r ∷ es) fs = left-append es fs
  left-append (drain_event rs ∷ es) fs = ground (
    arith,
    left-append es fs,
    count_if-append p rs (left es),
    count_if-append p rs (left (es ++ fs)),
  )
  left-append (reset_event ∷ es) fs = left-append es fs

  -- Without a request of the name, there is nothing to take out.
  select-absent :
      (id : String) (x : AmendmentRequest) (rs : List AmendmentRequest)
      → count_named id rs ≡ 0
      → (count_if p (select (λ r. not (r.id == id)) rs) ≡ count_if p rs) × (last_named id x rs ≡ x)
  select-absent id x [] h = (refl, refl)
  select-absent id x (r ∷ rs) h =
      (ground (arith, h, select-absent id x rs), ground (arith, h, select-absent id x rs))

  select-one :
      (id : String) (x : AmendmentRequest) (rs : List AmendmentRequest)
      → count_named id rs ≡ 1
      → count_if p (last_named id x rs ∷ []) + count_if p (select (λ r. not (r.id == id)) rs)
        ≡ count_if p rs
  select-one id x [] h = absurd (omega (arith, h))
  select-one id x (r ∷ rs) h = elim (Bool-cases (r.id == id)) [
    | inl e ↦ let (a, b) = select-absent id r rs (ground (arith, h, e)) in ground (arith, e, a, b)
    | inr e ↦ ground (arith, e, select-one id x rs (ground (arith, h, e)))
  ]

  -- One call balances what was pending and has entered against what pends and has left.
  Balances : AmendmentQueue → AmendmentQueue → List AmendmentEvent → Type 0
  Balances q q' events =
      count_if p q'.pending + count_if p (left events)
      ≡ count_if p q.pending + count_if p (entered events)

  enqueue-event :
      (q q' : AmendmentQueue) (r : AmendmentRequest) (events : List AmendmentEvent)
      → enqueue q r ≡ ok (q', events)
      → events ≡ enqueue_event r ∷ []
  unfolding enqueue
  enqueue-event q q' r events h = ground (arith, h)

  queued-Balances :
      (q : AmendmentQueue) (r : AmendmentRequest)
      (x : Result AmendmentError (AmendmentQueue × List AmendmentEvent))
      → enqueue q r ≡ x
      → Balances q (queued q x).0 (queued q x).1
  unfolding Balances
  queued-Balances q r (err e) h = refl
  queued-Balances q r (ok (q', events)) h =
      let (e, fresh, unseen, room) = enqueue-inv q q' r events h in
      ground (arith, e, enqueue-event q q' r events h, count_if-append p q.pending (r ∷ []))

  mark_drained-Balances :
      (q : AmendmentQueue) (id : String)
      → IsConsistent q
      → Balances q (mark_drained q id).0 (mark_drained q id).1
  unfolding Balances mark_drained
  mark_drained-Balances q id v = elim (Bool-cases (id == "")) [
    | inl e ↦ ground (arith, e)
    | inr e ↦ elim (Bool-cases (member id q.by_id)) [
      | inr n ↦ ground (arith, e, n)
      | inl m ↦
          ground (arith, e, m, select-one id no_request q.pending (ground (arith, v.listed id, m)))
    ]
  ]

  load_drained-Balances : (q : AmendmentQueue) (id : String) → Balances q (load_drained q id) []
  unfolding Balances load_drained
  load_drained-Balances q id = ground arith

  drained_events-left :
      (rs : List AmendmentRequest)
      → 0 + count_if p (left (drained_events rs))
        ≡ count_if p rs + count_if p (entered (drained_events rs))
  drained_events-left [] = omega arith
  drained_events-left (r ∷ rs) = ground (arith, count_if-append p (r ∷ rs) [])

  drain-Balances : (q : AmendmentQueue) → Balances q (drain q).1 (drain q).2
  unfolding Balances drain
  drain-Balances q = drained_events-left q.pending

  queue_step-Balances :
      (q : AmendmentQueue) (c : QueueCall)
      → IsWithinSession c
      → IsConsistent q
      → Balances q (queue_step q c).0 (queue_step q c).1
  unfolding queue_step
  queue_step-Balances q (enqueuing r) w v = queued-Balances q r (enqueue q r) refl
  queue_step-Balances q (marking id) w v = mark_drained-Balances q id v
  queue_step-Balances q (loading id) w v = load_drained-Balances q id
  queue_step-Balances q draining w v = drain-Balances q
  queue_step-Balances q resetting w v = absurd w

  queue_run-Balances :
      (q : AmendmentQueue) (cs : List QueueCall)
      → All IsWithinSession cs
      → IsConsistent q
      → Balances q (queue_run q cs).0 (queue_run q cs).1
  unfolding queue_run Balances
  queue_run-Balances q [] w v = omega arith
  queue_run-Balances q (c ∷ cs) (w, ws) v =
      let b = queue_step-Balances q c w v in
      let ih = queue_run-Balances (queue_step q c).0 cs ws (queue_step-IsConsistent q c v) in
      omega (
        arith,
        b,
        ih,
        entered-append (queue_step q c).1 (queue_run (queue_step q c).0 cs).1,
        left-append (queue_step q c).1 (queue_run (queue_step q c).0 cs).1,
      )

  -- In a session on a new queue, the amendments that were accepted are, counted by any test, the
  -- ones that were delivered and the ones that still pend: none is lost and none comes twice.
  pub queue_run-delivery :
      (max_len : ℤ) (cs : List QueueCall)
      → All IsWithinSession cs
      → count_if p (queue_run (new_amendment_queue max_len) cs).0.pending
          + count_if p (left (queue_run (new_amendment_queue max_len) cs).1)
        ≡ count_if p (entered (queue_run (new_amendment_queue max_len) cs).1)
  unfolding Balances new_amendment_queue
  queue_run-delivery max_len cs w = omega (
    arith,
    queue_run-Balances (new_amendment_queue max_len) cs w
        (new_amendment_queue-IsConsistent max_len),
  )

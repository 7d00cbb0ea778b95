-- ===== src/Amendments/Laws.antt =====
-- An amendment enters the queue once and leaves it once.
use ghyll.Base.{
  ℤ, String, ◌≡◌, ◌≢◌, refl, true, List, [], ◌∷◌, ◌++◌, arith, eq_iff, string_key, ok, err, Result,
  All,
}
use ghyll.Base.Map.{member, member-insert}
use ghyll.Amendments.{
  AmendmentRequest, AmendmentQueue, AmendmentError, AmendmentEvent, enqueue, mark_drained, drain,
  load_drained, reset_queue, new_amendment_queue,
}
use ghyll.Amendments.Invariant.{
  IsConsistent, new_amendment_queue-IsConsistent, enqueue-inv, enqueue-IsConsistent,
  mark_drained-IsConsistent, drain-IsConsistent, load_drained-IsConsistent,
  reset_queue-IsConsistent,
}

-- The calls on a queue; `resetting` is the boundary of a session.
pub data QueueCall : Type 0 where
  enqueuing : AmendmentRequest → QueueCall
  marking loading : String → QueueCall
  draining resetting : QueueCall

abbrev pub queued :
    AmendmentQueue
    → Result AmendmentError (AmendmentQueue × List AmendmentEvent)
    → AmendmentQueue × List AmendmentEvent
queued q (ok (q', events)) = (q', events)
queued q (err e) = (q, [])

unfoldable pub queue_step : AmendmentQueue → QueueCall → AmendmentQueue × List AmendmentEvent
queue_step q (enqueuing r) = queued q (enqueue q r)
queue_step q (marking id) = mark_drained q id
queue_step q (loading id) = (load_drained q id, [])
queue_step q draining = let (out, q', events) = drain q in (q', events)
queue_step q resetting = reset_queue q

-- The queue after the calls, and the events in order.
unfoldable pub queue_run : AmendmentQueue → List QueueCall → AmendmentQueue × List AmendmentEvent
unfolding queue_step
queue_run q [] = (q, [])
queue_run q (c ∷ cs) =
    let (q', events) = queue_step q c in let (q'', rest) = queue_run q' cs in (q'', events ++ rest)

abbrev pub IsWithinSession : QueueCall → Type 0
IsWithinSession resetting = ⊥
IsWithinSession _ = Unit

queued-IsConsistent :
    (q : AmendmentQueue) (r : Result AmendmentError (AmendmentQueue × List AmendmentEvent))
    → IsConsistent q
    → ((q' : AmendmentQueue) (events : List AmendmentEvent) → r ≡ ok (q', events) → IsConsistent q')
    → IsConsistent (queued q r).0
queued-IsConsistent q (ok (q', events)) v k = k q' events refl
queued-IsConsistent q (err e) v k = v

pub queue_step-IsConsistent :
    (q : AmendmentQueue) (c : QueueCall) → IsConsistent q → IsConsistent (queue_step q c).0
unfolding queue_step
queue_step-IsConsistent q (enqueuing r) v =
    queued-IsConsistent q (enqueue q r) v (λ q' events h. enqueue-IsConsistent q q' r events v h)
queue_step-IsConsistent q (marking id) v = mark_drained-IsConsistent q id v
queue_step-IsConsistent q (loading id) v = load_drained-IsConsistent q id v
queue_step-IsConsistent q draining v = drain-IsConsistent q v
queue_step-IsConsistent q resetting v = reset_queue-IsConsistent q

queue_run-IsConsistent :
    (q : AmendmentQueue) (cs : List QueueCall) → IsConsistent q → IsConsistent (queue_run q cs).0
unfolding queue_run
queue_run-IsConsistent q [] v = v
queue_run-IsConsistent q (c ∷ cs) v =
    queue_run-IsConsistent (queue_step q c).0 cs (queue_step-IsConsistent q c v)

-- Whatever is called on a new queue, each pending id is listed once, has been seen, and the queue
-- stays within its limit.
pub queue_run-new-IsConsistent :
    (max_len : ℤ) (cs : List QueueCall)
    → IsConsistent (queue_run (new_amendment_queue max_len) cs).0
queue_run-new-IsConsistent max_len cs =
    queue_run-IsConsistent (new_amendment_queue max_len) cs
      (new_amendment_queue-IsConsistent max_len)

module _ (id : String) where
  queued-seen :
      (q : AmendmentQueue) (r : AmendmentRequest)
      (x : Result AmendmentError (AmendmentQueue × List AmendmentEvent))
      → enqueue q r ≡ x
      → member id q.seen_ids ≡ true
      → member id (queued q x).0.seen_ids ≡ true
  queued-seen q r (err e) h s = s
  queued-seen q r (ok (q', events)) h s =
      let (e, fresh, unseen, room) = enqueue-inv q q' r events h in
      ground (arith, e, s, member-insert r.id id tt q.seen_ids)

  queue_step-seen :
      (q : AmendmentQueue) (c : QueueCall)
      → IsWithinSession c
      → member id q.seen_ids ≡ true
      → member id (queue_step q c).0.seen_ids ≡ true
  unfolding queue_step mark_drained load_drained drain
  queue_step-seen q (enqueuing r) w s = queued-seen q r (enqueue q r) refl s
  queue_step-seen q (marking j) w s = ground (arith, s, member-insert j id tt q.seen_ids)
  queue_step-seen q (loading j) w s = ground (arith, s, member-insert j id tt q.seen_ids)
  queue_step-seen q draining w s = s
  queue_step-seen q resetting w s = absurd w

  queue_run-seen :
      (q : AmendmentQueue) (cs : List QueueCall)
      → All IsWithinSession cs
      → member id q.seen_ids ≡ true
      → member id (queue_run q cs).0.seen_ids ≡ true
  unfolding queue_run
  queue_run-seen q [] w s = s
  queue_run-seen q (c ∷ cs) (w, ws) s =
      queue_run-seen (queue_step q c).0 cs ws (queue_step-seen q c w s)

-- An amendment that was accepted is not accepted again in the session: after any calls but a
-- reset, whether or not it was drained meanwhile, a request with its id fails.
pub enqueue-once :
    (q q' q'' : AmendmentQueue) (r again : AmendmentRequest) (events events' : List AmendmentEvent)
    (cs : List QueueCall)
    → enqueue q r ≡ ok (q', events)
    → All IsWithinSession cs
    → again.id ≡ r.id
    → enqueue (queue_run q' cs).0 again ≢ ok (q'', events')
enqueue-once q q' q'' r again events events' cs h w same k =
    let (e, fresh, unseen, room) = enqueue-inv q q' r events h in
    let (e', fresh', unseen', room') = enqueue-inv (queue_run q' cs).0 q'' again events' k in
    let seen : member r.id q'.seen_ids ≡ true =
      ground (arith, e, member-insert r.id r.id tt q.seen_ids, eq_iff r.id r.id) in
    ground (arith, queue_run-seen r.id q' cs w seen, unseen', same)

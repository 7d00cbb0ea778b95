-- ===== src/Amendments/Examples.antt =====
-- The queue at concrete calls.
use ghyll.Base.{
  String, ℕ, ℤ, pos, ◌+◌, ◌≡◌, ◌≢◌, refl, true, false, Bool, [], ◌∷◌, List, All, ok, err, count_if,
}
use ghyll.Amendments.{
  AmendmentRequest, missing_cross_context_spec, new_amendment_queue, enqueue, enqueued,
  enqueue_event,
}
use ghyll.Amendments.Invariant.{IsConsistent}
use ghyll.Amendments.Laws.{
  QueueCall, enqueuing, marking, draining, queue_run, enqueue-once, queue_run-new-IsConsistent,
}
use ghyll.Amendments.Delivery.{entered, left, queue_run-delivery}

abbrev request : String → AmendmentRequest
request id = record {
  id = id;
  reason = missing_cross_context_spec;
  source_arrow = "a1";
  target_role = "analyst";
  contexts = "billing" ∷ "shipping" ∷ [];
  description = "";
  finding_ids = "f1" ∷ [];
  created_at = "";
}

abbrev calls : List QueueCall
calls =
    enqueuing (request "r1")
    ∷ enqueuing (request "r2")
    ∷ marking "r1"
    ∷ enqueuing (request "r1")
    ∷ draining
    ∷ enqueuing (request "r3")
    ∷ []

queue_run-new-IsConsistent_example : IsConsistent (queue_run (new_amendment_queue (pos 2)) calls).0
queue_run-new-IsConsistent_example = queue_run-new-IsConsistent (pos 2) calls

queue_run-delivery_example :
    count_if (λ r. true) (queue_run (new_amendment_queue (pos 2)) calls).0.pending
      + count_if (λ r. true) (left (queue_run (new_amendment_queue (pos 2)) calls).1)
    ≡ count_if (λ r. true) (entered (queue_run (new_amendment_queue (pos 2)) calls).1)
queue_run-delivery_example =
    queue_run-delivery (λ r. true) (pos 2) calls (tt, (tt, (tt, (tt, (tt, (tt, tt))))))

accepted :
    enqueue (new_amendment_queue (pos 2)) (request "r1")
    ≡ ok (enqueued (new_amendment_queue (pos 2)) (request "r1"), enqueue_event (request "r1") ∷ [])
unfolding enqueue ghyll.Base.Map.member new_amendment_queue
accepted = refl

enqueue-once_example :
    enqueue
      (queue_run (enqueued (new_amendment_queue (pos 2)) (request "r1")) (draining ∷ [])).0
      (request "r1")
    ≢ ok (new_amendment_queue (pos 2), [])
enqueue-once_example =
    enqueue-once (new_amendment_queue (pos 2))
      (enqueued (new_amendment_queue (pos 2)) (request "r1")) (new_amendment_queue (pos 2))
      (request "r1") (request "r1") (enqueue_event (request "r1") ∷ []) [] (draining ∷ []) accepted
      (tt, tt) refl

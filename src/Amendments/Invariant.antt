-- ===== src/Amendments/Invariant.antt =====
-- The invariant of the queue, and that every operation keeps it.
use ghyll.Base.{
  ℕ, ◌≤◌, ℤ, pos, ◌≤ℤ◌, ◌<ℤ◌, String, ◌≡◌, sym, inl, inr, Bool, true, false, not, List, [], ◌∷◌,
  arith, eq_iff, ◌==◌, string_key, ok, length, select, count_if, count_if-append, Bool-cases,
  if◌then◌else◌, length-append, subst,
}
use ghyll.Base.Map.{member, member-insert, member-delete, member-nil}
use ghyll.Amendments.{
  AmendmentRequest, AmendmentQueue, AmendmentEvent, enqueue, enqueued, is_full, mark_drained, drain,
  load_drained, reset_queue, new_amendment_queue,
}

-- The pending requests that have an id.
abbrev pub count_named : String → List AmendmentRequest → ℕ
count_named id rs = count_if (λ r. r.id == id) rs

abbrev pub bit : Bool → ℕ
bit b = if b then 1 else 0

-- The set of pending ids holds exactly the ids of the pending requests, each of which pends once
-- and has been seen; a queue with a limit stays within it.
pub record IsConsistent (q : AmendmentQueue) : Type 0 where
  pub listed : (id : String) → count_named id q.pending ≡ bit (member id q.by_id)
  pub seen : (id : String) → member id q.by_id ≡ true → member id q.seen_ids ≡ true
  pub bounded : pos 0 <ℤ q.max_len → pos (length q.pending) ≤ℤ q.max_len

pub new_amendment_queue-IsConsistent : (max_len : ℤ) → IsConsistent (new_amendment_queue max_len)
unfolding new_amendment_queue
new_amendment_queue-IsConsistent max_len = record {
  listed = λ id. ground (arith, member-nil (Unit {0}) id);
  seen = λ id h. ground (arith, h, member-nil (Unit {0}) id);
  bounded = λ h. omega (arith, h);
}

pub enqueue-inv :
    (q q' : AmendmentQueue) (r : AmendmentRequest) (events : List AmendmentEvent)
    → enqueue q r ≡ ok (q', events)
    → (q' ≡ enqueued q r)
      × (member r.id q.by_id ≡ false)
      × (member r.id q.seen_ids ≡ false)
      × (is_full q ≡ false)
unfolding enqueue
enqueue-inv q q' r events h =
    (ground (arith, h), ground (arith, h), ground (arith, h), ground (arith, h))

enqueued-IsConsistent :
    (q : AmendmentQueue) (r : AmendmentRequest)
    → member r.id q.by_id ≡ false
    → is_full q ≡ false
    → IsConsistent q
    → IsConsistent (enqueued q r)
enqueued-IsConsistent q r fresh room v = record {
  listed = λ id. ground (
    arith,
    count_if-append (λ x. x.id == id) q.pending (r ∷ []),
    v.listed id,
    fresh,
    member-insert r.id id tt q.by_id,
    eq_iff r.id id,
  );
  seen = λ id h.
      ground (
        arith,
        h,
        member-insert r.id id tt q.by_id,
        member-insert r.id id tt q.seen_ids,
        v.seen id,
      );
  bounded = λ h. ground (arith, h, room, length-append q.pending (r ∷ []));
}

pub enqueue-IsConsistent :
    (q q' : AmendmentQueue) (r : AmendmentRequest) (events : List AmendmentEvent)
    → IsConsistent q
    → enqueue q r ≡ ok (q', events)
    → IsConsistent q'
enqueue-IsConsistent q q' r events v h =
    let (e, fresh, unseen, room) = enqueue-inv q q' r events h in
    subst IsConsistent (sym e) (enqueued-IsConsistent q r fresh room v)

-- What is left when the requests with an id are taken out.
count_named-select :
    (id j : String) (rs : List AmendmentRequest)
    → count_named j (select (λ r. not (r.id == id)) rs) ≡ (if id == j then 0 else count_named j rs)
count_named-select id j [] = ground arith
count_named-select id j (r ∷ rs) =
    ground (arith, count_named-select id j rs, eq_iff r.id id, eq_iff r.id j, eq_iff id j)

length-select-le :
    (id : String) (rs : List AmendmentRequest)
    → length (select (λ r. not (r.id == id)) rs) ≤ length rs
length-select-le id [] = omega arith
length-select-le id (r ∷ rs) = ground (arith, length-select-le id rs)

pub mark_drained-IsConsistent :
    (q : AmendmentQueue) (id : String) → IsConsistent q → IsConsistent (mark_drained q id).0
unfolding mark_drained
mark_drained-IsConsistent q id v = elim (Bool-cases (id == "")) [
  | inl e ↦ rw (e, mark_drained) v
  | inr e ↦ elim (Bool-cases (member id q.by_id)) [
    | inr n ↦ rw (e, n, mark_drained) v
    | inl m ↦
        rw (e, m, mark_drained)
          (record {
            listed = λ j.
                ground (
                  arith,
                  count_named-select id j q.pending,
                  v.listed j,
                  member-delete id j q.by_id,
                );
            seen = λ j h.
                ground (
                  arith,
                  h,
                  member-delete id j q.by_id,
                  member-insert id j tt q.seen_ids,
                  v.seen j,
                );
            bounded = λ h. omega (arith, v.bounded h, length-select-le id q.pending);
          })
  ]
]

pub drain-IsConsistent : (q : AmendmentQueue) → IsConsistent q → IsConsistent (drain q).1
unfolding drain
drain-IsConsistent q v = record {
  listed = λ id. ground (arith, member-nil (Unit {0}) id);
  seen = λ id h. ground (arith, h, member-nil (Unit {0}) id);
  bounded = λ h. omega (arith, h);
}

pub load_drained-IsConsistent :
    (q : AmendmentQueue) (id : String) → IsConsistent q → IsConsistent (load_drained q id)
unfolding load_drained
load_drained-IsConsistent q id v = elim (Bool-cases (id == "")) [
  | inl e ↦ rw (e, load_drained) v
  | inr e ↦
      rw (e, load_drained)
        (record {
          listed = v.listed;
          seen = λ j h. ground (arith, member-insert id j tt q.seen_ids, v.seen j h);
          bounded = v.bounded;
        })
]

pub reset_queue-IsConsistent : (q : AmendmentQueue) → IsConsistent (reset_queue q).0
unfolding reset_queue
reset_queue-IsConsistent q = record {
  listed = λ id. ground (arith, member-nil (Unit {0}) id);
  seen = λ id h. ground (arith, h, member-nil (Unit {0}) id);
  bounded = λ h. omega (arith, h);
}

-- ===== src/Amendments.antt =====
-- runner/amendment.go: the queue of amendment requests.
pub mod Invariant
pub mod Laws
pub mod Delivery
mod Examples
use ghyll.Base.{
  ℕ, suc, ℤ, pos, String, Bool, true, false, ◌&&◌, not, List, [], ◌∷◌, ◌++◌, map, ◌==◌, string_key,
  length, select, sort_by, leb, ltb, int_ltb, int_leb, is_blank, Result, ok, err, ◌>>◌, ◌>>=◌,
  refuse, if◌then◌else◌,
}
use ghyll.Base.Map.{Map, member, insert, delete}
use ghyll.Arrow.{FindingStatus}
use ghyll.Findings.{FindingRecord, FindingsStore, for_arrow}

-- `AmendmentRequest`
pub record AmendmentRequest : Type 0 where
  pub id : String
  pub reason : String
  pub source_arrow : String
  pub target_role : String
  pub contexts : List String
  pub description : String
  pub finding_ids : List String
  pub created_at : String

abbrev pub missing_cross_context_spec : String
missing_cross_context_spec = "missing-cross-context-spec"

pub data AmendmentError : Type 0 where
  id_empty reason_empty source_arrow_empty target_role_empty finding_ids_empty : AmendmentError
  reason_unknown pending_duplicate drained_duplicate : String → AmendmentError
  contexts_too_few : ℕ → AmendmentError
  queue_full : ℕ → ℤ → AmendmentError

-- `AmendmentRequest.Validate`; `missing-cross-context-spec` is the one known reason.
unfoldable pub validate_amendment : AmendmentRequest → Result AmendmentError (Unit {0})
unfolding is_blank
validate_amendment r = do
  refuse (is_blank r.id) id_empty
  refuse (r.reason == "") reason_empty
  refuse (not (r.reason == missing_cross_context_spec)) (reason_unknown r.reason)
  refuse (is_blank r.source_arrow) source_arrow_empty
  refuse (is_blank r.target_role) target_role_empty
  refuse (leb (length r.finding_ids) 0) finding_ids_empty
  refuse (r.reason == missing_cross_context_spec && ltb (length r.contexts) 2)
      (contexts_too_few (length r.contexts))

-- `map[string]struct{}`
abbrev pub IdSet : Type 0
IdSet = Map String (Unit {0})

-- `AmendmentQueue`
pub record AmendmentQueue : Type 0 where
  pub pending : List AmendmentRequest
  pub by_id : IdSet
  pub seen_ids : IdSet
  pub max_len : ℤ

-- `NewAmendmentQueueWithMax`
unfoldable pub new_amendment_queue : ℤ → AmendmentQueue
new_amendment_queue max_len = record { pending = []; by_id = []; seen_ids = []; max_len = max_len }

-- `AmendmentEvent`
pub data AmendmentEvent : Type 0 where
  enqueue_event : AmendmentRequest → AmendmentEvent
  drain_event : List AmendmentRequest → AmendmentEvent
  reset_event : AmendmentEvent

abbrev pub is_full : AmendmentQueue → Bool
is_full q = int_ltb (pos 0) q.max_len && int_leb q.max_len (pos (length q.pending))

-- The queue with a request more.
abbrev pub enqueued : AmendmentQueue → AmendmentRequest → AmendmentQueue
enqueued q r = record q {
  by_id = insert r.id tt q.by_id;
  seen_ids = insert r.id tt q.seen_ids;
  pending = q.pending ++ r ∷ [];
}

-- `Enqueue`
unfoldable pub enqueue :
    AmendmentQueue → AmendmentRequest → Result AmendmentError (AmendmentQueue × List AmendmentEvent)
unfolding validate_amendment
enqueue q r = do
  validate_amendment r
  refuse (member r.id q.by_id) (pending_duplicate r.id)
  refuse (member r.id q.seen_ids) (drained_duplicate r.id)
  refuse (is_full q) (queue_full (length q.pending) q.max_len)
  ok (enqueued q r, enqueue_event r ∷ [])

-- The request that the loop of `MarkDrained` keeps, which is the last with the id.
abbrev pub last_named : String → AmendmentRequest → List AmendmentRequest → AmendmentRequest
last_named id found [] = found
last_named id found (r ∷ rs) = last_named id (if r.id == id then r else found) rs

abbrev pub no_request : AmendmentRequest
no_request = record {
  id = "";
  reason = "";
  source_arrow = "";
  target_role = "";
  contexts = [];
  description = "";
  finding_ids = [];
  created_at = "";
}

-- `MarkDrained`
unfoldable pub mark_drained : AmendmentQueue → String → AmendmentQueue × List AmendmentEvent
mark_drained q id = if id == "" then (q, []) else if not (member id q.by_id) then (q, []) else (
  record q {
    by_id = delete id q.by_id;
    pending = select (λ r. not (r.id == id)) q.pending;
    seen_ids = insert id tt q.seen_ids;
  },
  drain_event (last_named id no_request q.pending ∷ []) ∷ [],
)

abbrev pub drained_events : List AmendmentRequest → List AmendmentEvent
drained_events [] = []
drained_events (r ∷ rs) = drain_event (r ∷ rs) ∷ []

-- `Drain`: what it returns, the queue and the events.
unfoldable pub drain : AmendmentQueue → List AmendmentRequest × AmendmentQueue × List AmendmentEvent
drain q = (q.pending, record q { pending = []; by_id = [] }, drained_events q.pending)

-- `DrainedCount`
unfoldable pub drained_count : AmendmentQueue → ℕ
drained_count q = length q.seen_ids

-- `LoadDrained`
unfoldable pub load_drained : AmendmentQueue → String → AmendmentQueue
load_drained q id = if id == "" then q else record q { seen_ids = insert id tt q.seen_ids }

-- `Reset`
unfoldable pub reset_queue : AmendmentQueue → AmendmentQueue × List AmendmentEvent
reset_queue q = (record q { pending = []; by_id = []; seen_ids = [] }, reset_event ∷ [])

abbrev is_gap : FindingRecord → Bool
is_gap f =
    f.finding_type == missing_cross_context_spec
    && elim f.status [ FindingStatus.still_open ↦ true | _ ↦ false ]

-- The loop of `PendingAmendments`; `id_gen n` is the id that the n-th call of `idGen` yields.
unfoldable pub requests_for :
    String → List String → String → (ℕ → String) → ℕ → List FindingRecord → List AmendmentRequest
requests_for arrow_id contexts now id_gen n [] = []
requests_for arrow_id contexts now id_gen n (f ∷ fs) =
    let skipped = requests_for arrow_id contexts now id_gen n fs in
    let taken = requests_for arrow_id contexts now id_gen (suc n) fs in
    if is_gap f
    then record {
      id = id_gen n;
      reason = missing_cross_context_spec;
      source_arrow = arrow_id;
      target_role = "analyst";
      contexts = contexts;
      description = f.description;
      finding_ids = f.id ∷ [];
      created_at = now;
    }
      ∷ taken
    else skipped

-- `PendingAmendments`, on a store.
unfoldable pub pending_amendments :
    FindingsStore
    → String
    → List String
    → String
    → (ℕ → String)
    → Result AmendmentError (List AmendmentRequest)
unfolding requests_for
pending_amendments store arrow_id contexts now id_gen =
    if arrow_id == ""
    then ok []
    else if ltb (length contexts) 2
    then err (contexts_too_few (length contexts))
    else ok (
        requests_for arrow_id contexts now id_gen 0
          (sort_by (λ f. f.id) (for_arrow store arrow_id)))

-- ===== src/Findings.antt =====
-- runner/findings.go: the store of findings, with an index from ids into per-arrow lists.
-- Locks are left out: each operation is one step. An operation that notifies observers returns
-- the events in the order of the calls; `now` is the clock's text at the call.
pub mod Indexing
pub mod Moving
pub mod Forgetting
pub mod Purging
pub mod Contents
pub mod Refinement
pub mod History
pub mod Lifecycle
pub mod Naming
mod Examples
use ghyll.Base.{
  ℕ, zero, suc, ◌+◌, ◌%◌, ◌^◌, ◌-◌, ℤ, pos, String, Bool, true, false, ◌||◌, ◌&&◌, not, Option,
  none, some, List, [], ◌∷◌, ◌++◌, map, ◌==◌, string_key, leb, int_ltb, length, get_elem?, set,
  remove_at, drop, concat, is_slug, sort_by, Result, ok, err, ◌>>=◌, ◌>>◌, refuse, if◌then◌else◌,
}
use ghyll.Base.Map.{Map, lookup, insert, delete}
use ghyll.Arrow.{FindingStatus, Finding}

-- `FindingRecord`
pub record FindingRecord : Type 0 where
  pub id : String
  pub arrow_id : String
  pub finding_type : String
  pub severity : ℤ
  pub status : FindingStatus
  pub description : String
  pub raised_at : String
  pub raised_by_role : String
  pub transition_count : ℕ
  pub grid_version : ℕ

-- The zero value, which events carry where no record belongs.
abbrev pub zero_record : FindingRecord
zero_record = record {
  id = "";
  arrow_id = "";
  finding_type = "";
  severity = pos 0;
  status = FindingStatus.still_open;
  description = "";
  raised_at = "";
  raised_by_role = "";
  transition_count = 0;
  grid_version = 0;
}

-- `FindingRecord.AsDeriveInput`
unfoldable pub as_derive_input : FindingRecord → Finding
as_derive_input r = record { status = r.status; severity_rank = r.severity }

pub data FindingsEventKind : Type 0 where
  raise_event transition_event forget_event forget_arrow_event : FindingsEventKind

-- `FindingsEvent`
pub record FindingsEvent : Type 0 where
  pub kind : FindingsEventKind
  pub arrow_id : String
  pub before : FindingRecord
  pub after : FindingRecord
  pub version : ℕ
  pub role : String
  pub reason : String
  pub at : String

-- `findingLocator`
pub record FindingLocator : Type 0 where
  pub arrow_id : String
  pub idx : ℕ

-- `FindingsStore`
pub record FindingsStore : Type 0 where
  pub by_arrow : Map String (List FindingRecord)
  pub by_id : Map String FindingLocator
  pub version : ℕ

-- `NewFindingsStore`
unfoldable pub new_findings_store : FindingsStore
new_findings_store = record { by_arrow = []; by_id = []; version = 0 }

-- The errors; each constructor carries what the message shows. `index_out_of_range` is the panic
-- of an index expression.
pub data FindingsError : Type 0 where
  id_empty arrow_id_empty type_empty index_out_of_range : FindingsError
  type_invalid duplicate_id unknown_id producer_self_accept : String → FindingsError
  invalid_severity : ℤ → FindingsError
  invalid_status : FindingStatus → FindingsError
  invalid_transition : FindingStatus → FindingStatus → String → FindingsError
  transition_churn : String → ℕ → FindingsError

abbrev pub max_finding_transitions : ℕ
max_finding_transitions = 100

-- `isKnownFindingStatus`
unfoldable pub is_known_finding_status : FindingStatus → Bool
is_known_finding_status (FindingStatus.unknown n) = false
is_known_finding_status _ = true

-- `validFindingTransition`
unfoldable pub valid_finding_transition : FindingStatus → FindingStatus → Bool
valid_finding_transition FindingStatus.still_open FindingStatus.running = true
valid_finding_transition FindingStatus.still_open FindingStatus.resolved = true
valid_finding_transition FindingStatus.still_open FindingStatus.accepted_risk = true
valid_finding_transition FindingStatus.running FindingStatus.resolved = true
valid_finding_transition FindingStatus.running FindingStatus.accepted_risk = true
valid_finding_transition FindingStatus.running FindingStatus.unevaluated = true
valid_finding_transition FindingStatus.running FindingStatus.still_open = true
valid_finding_transition FindingStatus.resolved FindingStatus.still_open = true
valid_finding_transition FindingStatus.accepted_risk FindingStatus.still_open = true
valid_finding_transition FindingStatus.unevaluated FindingStatus.running = true
valid_finding_transition FindingStatus.unevaluated FindingStatus.still_open = true
valid_finding_transition _ _ = false

-- `FindingStatus.String`
unfoldable pub status_text : FindingStatus → String
status_text FindingStatus.still_open = "open"
status_text FindingStatus.running = "running"
status_text FindingStatus.resolved = "resolved"
status_text FindingStatus.accepted_risk = "accepted-risk"
status_text FindingStatus.unevaluated = "unevaluated"
status_text (FindingStatus.unknown n) = "invalid-finding-status"

-- `s.version++` on a uint64.
abbrev pub next_version : ℕ → ℕ
next_version v = (v + 1) % 2 ^ 64

-- `s.byArrow[arrowID]`, which is empty for a missing key.
abbrev pub or_empty : Option (List FindingRecord) → List FindingRecord
or_empty none = []
or_empty (some l) = l

unfoldable pub findings_on : FindingsStore → String → List FindingRecord
findings_on s arrow_id = or_empty (lookup arrow_id s.by_arrow)

abbrev pub Mutation : Type 0 → Type 0
Mutation A = Result FindingsError (A × FindingsStore × List FindingsEvent)

-- The checks of `Raise` that come before the lock.
unfoldable pub check_record : FindingRecord → Result FindingsError (Unit {0})
unfolding is_known_finding_status
check_record r = do
  refuse (r.id == "") id_empty
  refuse (r.arrow_id == "") arrow_id_empty
  refuse (r.finding_type == "") type_empty
  refuse (not (is_slug r.finding_type)) (type_invalid r.finding_type)
  refuse (int_ltb r.severity (pos 0) || int_ltb (pos 4) r.severity) (invalid_severity r.severity)
  refuse (not (is_known_finding_status r.status)) (invalid_status r.status)

abbrev pub is_some {ℓ} : {A : Type ℓ} → Option A → Bool
is_some none = false
is_some (some a) = true

-- The rest of `Raise`, for a new id.
unfoldable pub store_record :
    String → FindingsStore → FindingRecord → FindingsStore × List FindingsEvent
unfolding findings_on
store_record now s r =
    let on_arrow = findings_on s r.arrow_id ++ r ∷ [] in
    let version = next_version s.version in
    (
      record {
        by_arrow = insert r.arrow_id on_arrow s.by_arrow;
        by_id = insert r.id (record { arrow_id = r.arrow_id; idx = length on_arrow - 1 }) s.by_id;
        version = version;
      },
      record {
        kind = raise_event;
        arrow_id = r.arrow_id;
        before = zero_record;
        after = r;
        version = version;
        role = "";
        reason = "";
        at = now;
      }
          ∷ [],
    )

-- `Raise`
unfoldable pub raise : String → FindingsStore → FindingRecord → Mutation (Unit {0})
raise now s r = do
  check_record r
  refuse (is_some (lookup r.id s.by_id)) (duplicate_id r.id)
  let (s', events) = store_record now s r
  ok (tt, s', events)

-- The note that a transition with a role or a reason leaves in the description. The source
-- reads the status after it has been overwritten, so both ends of the note are the target.
unfoldable pub transition_note : FindingStatus → String → String → String
unfolding status_text
transition_note to role reason = concat (
    "[transition "
    ∷ status_text to
    ∷ " → "
    ∷ status_text to
    ∷ " by "
    ∷ role
    ∷ ": "
    ∷ reason
    ∷ "]"
    ∷ [])

-- The record as `transitionImpl` leaves it.
unfoldable pub moved : FindingRecord → FindingStatus → String → String → FindingRecord
unfolding transition_note
moved r to role reason =
    let note = transition_note to role reason in
    record r {
      status = to;
      transition_count = r.transition_count + 1;
      description =
          if role == "" && reason == ""
          then r.description
          else if r.description == ""
          then note
          else concat (r.description ∷ " " ∷ note ∷ []);
    }

-- The write back, and the event.
unfoldable pub store_moved :
    String
    → FindingsStore
    → FindingLocator
    → FindingRecord
    → FindingStatus
    → String
    → String
    → FindingsStore × List FindingsEvent
unfolding findings_on moved
store_moved now s loc r to role reason =
    let r' = moved r to role reason in
    let version = next_version s.version in
    (
      record s {
        by_arrow = insert loc.arrow_id (set (findings_on s loc.arrow_id) loc.idx r') s.by_arrow;
        version = version;
      },
      record {
        kind = transition_event;
        arrow_id = r'.arrow_id;
        before = r;
        after = r';
        version = version;
        role = role;
        reason = reason;
        at = now;
      }
          ∷ [],
    )

abbrev pub or_fail : {A : Type 0} → Option A → FindingsError → Result FindingsError A
or_fail none e = err e
or_fail (some a) e = ok a

-- `s.byArrow[loc.arrowID][loc.idx]`
unfoldable pub record_at : FindingsStore → FindingLocator → Option FindingRecord
unfolding findings_on
record_at s loc = get_elem? (findings_on s loc.arrow_id) loc.idx

abbrev is_accepted_risk : FindingStatus → Bool
is_accepted_risk FindingStatus.accepted_risk = true
is_accepted_risk _ = false

-- The checks of `transitionImpl` on the record that it found.
unfoldable pub check_move : String → FindingRecord → FindingStatus → Result FindingsError (Unit {0})
unfolding valid_finding_transition
check_move id r to = do
  refuse (not (valid_finding_transition r.status to)) (invalid_transition r.status to id)
  refuse (leb max_finding_transitions r.transition_count) (transition_churn id r.transition_count)

-- `transitionImpl`, which `TransitionWithReason` calls as it is.
unfoldable pub transition_with_reason :
    String → FindingsStore → String → FindingStatus → String → String → Mutation (Unit {0})
unfolding is_known_finding_status
transition_with_reason now s id to role reason = do
  refuse (not (is_known_finding_status to)) (invalid_status to)
  refuse (is_accepted_risk to && role == "producer") (producer_self_accept id)
  loc ← or_fail (lookup id s.by_id) (unknown_id id)
  r ← or_fail (record_at s loc) index_out_of_range
  check_move id r to
  let (s', events) = store_moved now s loc r to role reason
  ok (tt, s', events)

-- `Transition`
unfoldable pub transition : String → FindingsStore → String → FindingStatus → Mutation (Unit {0})
transition now s id to = transition_with_reason now s id to "" ""

-- `ForArrow`
unfoldable pub for_arrow : FindingsStore → String → List FindingRecord
unfolding findings_on
for_arrow s arrow_id = sort_by (λ r. r.id) (findings_on s arrow_id)

-- `ForArrowVersioned`
unfoldable pub for_arrow_versioned : FindingsStore → String → List FindingRecord × ℕ
unfolding for_arrow
for_arrow_versioned s arrow_id = (for_arrow s arrow_id, s.version)

abbrev non_empty_keys : Map String (List FindingRecord) → List String
non_empty_keys [] = []
non_empty_keys ((id, []) ∷ m) = non_empty_keys m
non_empty_keys ((id, f ∷ fs) ∷ m) = id ∷ non_empty_keys m

-- `ArrowIDs`
unfoldable pub arrow_ids : FindingsStore → List String
arrow_ids s = sort_by (λ id. id) (non_empty_keys s.by_arrow)

-- `Get`
unfoldable pub get : FindingsStore → String → Option FindingRecord
unfolding record_at
get s id = elim (lookup id s.by_id) [ none ↦ none | some loc ↦ record_at s loc ]

-- The loop of `Forget` that writes the places of the entries behind the removed one.
unfoldable pub reindex :
    String → ℕ → List FindingRecord → Map String FindingLocator → Map String FindingLocator
reindex arrow_id i [] m = m
reindex arrow_id i (r ∷ rs) m =
    reindex arrow_id (suc i) rs (insert r.id (record { arrow_id = arrow_id; idx = i }) m)

-- The body of `Forget`, once the record is found.
unfoldable pub drop_record :
    String
    → FindingsStore
    → String
    → FindingLocator
    → FindingRecord
    → FindingsStore × List FindingsEvent
unfolding findings_on reindex
drop_record now s id loc before =
    let arr = remove_at (findings_on s loc.arrow_id) loc.idx in
    let version = next_version s.version in
    (
      record {
        by_arrow = insert loc.arrow_id arr s.by_arrow;
        by_id = reindex loc.arrow_id loc.idx (drop loc.idx arr) (delete id s.by_id);
        version = version;
      },
      record {
        kind = forget_event;
        arrow_id = loc.arrow_id;
        before = before;
        after = zero_record;
        version = version;
        role = "";
        reason = "";
        at = now;
      }
          ∷ [],
    )

-- `Forget`
unfoldable pub forget : String → FindingsStore → String → Mutation (Unit {0})
forget now s id = do
  loc ← or_fail (lookup id s.by_id) (unknown_id id)
  before ← or_fail (record_at s loc) index_out_of_range
  let (s', events) = drop_record now s id loc before
  ok (tt, s', events)

abbrev pub delete_all : List FindingRecord → Map String FindingLocator → Map String FindingLocator
delete_all [] m = m
delete_all (r ∷ rs) m = delete_all rs (delete r.id m)

abbrev forgotten : String → String → ℕ → FindingRecord → FindingsEvent
forgotten now arrow_id version r = record {
  kind = forget_arrow_event;
  arrow_id = arrow_id;
  before = r;
  after = zero_record;
  version = version;
  role = "";
  reason = "";
  at = now;
}

-- `ForgetArrow`: the number forgotten, the store and the events.
unfoldable pub forget_arrow :
    String → FindingsStore → String → ℕ × FindingsStore × List FindingsEvent
forget_arrow now s arrow_id = elim (lookup arrow_id s.by_arrow) [
  | none ↦ (0, s, [])
  | some src ↦
      let version = next_version s.version in
      (
        length src,
        record {
          by_arrow = delete arrow_id s.by_arrow;
          by_id = delete_all src s.by_id;
          version = version;
        },
        map (forgotten now arrow_id version) src,
      )
]

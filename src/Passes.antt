-- ===== src/Passes.antt =====
-- runner/pass.go and the registry of runner/projectstatus.go: passes, which hold a role in a context
-- from their opening to their end. A `*Pass` is an index into the list of all passes that were made,
-- so that the registry and the dispatcher share it. A time that a step reads is an argument.
pub mod Exclusion
pub mod Ending
pub mod History
mod Examples
use ghyll.Base.{
  ℕ, ℤ, pos, String, Bool, true, false, not, Option, none, some, List, [], ◌∷◌, ◌++◌, map, ◌==◌,
  string_key, length, get_elem?, set, is_blank, concat, Result, ok, err, ◌>>◌, ◌>>=◌, refuse,
  if◌then◌else◌,
}
use ghyll.Base.Map.{Map, lookup, insert, delete}
use ghyll.RoleLock.{
  RoleContextKey, RoleContextLockToken, LockTable, LockError, try_acquire, release,
}

-- `PassState`
pub data PassState : Type 0 where
  -- `active` is `PassStateOpen`.
  active closed aborted : PassState

-- `Pass`; its lock table is that of the world.
pub record Pass : Type 0 where
  pub id : String
  pub role : String
  pub context : String
  pub arrow_id : String
  pub grid_version : ℕ
  pub opened_at : ℕ
  pub closed_at : ℕ
  pub recovered_at : ℕ
  pub state : PassState
  pub close_reason : String
  pub lock_token : RoleContextLockToken
  pub has_bus : Bool
  pub has_registry : Bool

-- `PassOptions`, without the table and the clock; `ResumeOptions` has no time limit.
pub record PassOptions : Type 0 where
  pub pass_id : String
  pub role : String
  pub context : String
  pub arrow_id : String
  pub grid_version : ℕ
  pub lock_ttl : ℤ
  pub has_bus : Bool

pub data PassEventKind : Type 0 where
  open_event close_event abort_event recover_event : PassEventKind

-- `PassEvent`
pub record PassEvent : Type 0 where
  pub kind : PassEventKind
  pub pass_id : String
  pub role : String
  pub context : String
  pub arrow_id : String
  pub grid_version : ℕ
  pub state : PassState
  pub opened_at : ℕ
  pub closed_at : ℕ
  pub close_reason : String
  pub recovered_at : ℕ
  pub at : ℕ

-- What `emit` sends: the event to each observer, and the event that it publishes on the bus, with
-- the kind, the arrow, the pass, the role and the detail.
pub data Emission : Type 0 where
  audited : PassEvent → Emission
  pass_opened pass_closed : String → String → String → String → Emission

-- The lock table, the passes and the registry.
pub record World : Type 0 where
  pub locks : LockTable
  pub passes : List Pass
  pub registry : Map String ℕ

unfoldable pub new_world : World
new_world = record { locks = []; passes = []; registry = [] }

pub data PassError : Type 0 where
  pass_id_empty pass_role_empty pass_context_empty pass_arrow_empty : PassError
  not_locked : LockError → PassError

-- The first four checks, which `OpenPass` and `Resume` share.
unfoldable pub check_options : PassOptions → Result PassError (Unit {0})
unfolding is_blank
check_options o = do
  refuse (is_blank o.pass_id) pass_id_empty
  refuse (is_blank o.role) pass_role_empty
  refuse (is_blank o.context) pass_context_empty
  refuse (is_blank o.arrow_id) pass_arrow_empty

abbrev pub lock_result : {A : Type 0} → Result LockError A → Result PassError A
lock_result (ok a) = ok a
lock_result (err e) = err (not_locked e)

abbrev pub fresh_pass : ℕ → PassOptions → RoleContextLockToken → Pass
fresh_pass opened o token = record {
  id = o.pass_id;
  role = o.role;
  context = o.context;
  arrow_id = o.arrow_id;
  grid_version = o.grid_version;
  opened_at = opened;
  closed_at = 0;
  recovered_at = 0;
  state = active;
  close_reason = "";
  lock_token = token;
  has_bus = o.has_bus;
  has_registry = false;
}

-- `OpenPass`: the new pass and the world. The table reads the clock first, then the pass.
unfoldable pub open_pass : ℕ → ℕ → World → PassOptions → Result PassError (ℕ × World)
unfolding check_options
open_pass now opened w o = do
  check_options o
  (token, locks) ← lock_result (try_acquire now w.locks o.role o.context o.pass_id o.lock_ttl)
  ok (
    length w.passes,
    record w { locks = locks; passes = w.passes ++ fresh_pass opened o token ∷ [] },
  )

abbrev kind_from_final_state : PassState → PassEventKind
kind_from_final_state aborted = abort_event
kind_from_final_state _ = close_event

abbrev state_text : PassState → String
state_text active = "open"
state_text closed = "closed"
state_text aborted = "aborted"

abbrev bridge : PassEvent → List Emission
bridge e = elim e.kind [
  | open_event ↦ pass_opened e.arrow_id e.pass_id e.role e.context ∷ []
  | recover_event ↦ []
  | _ ↦
      pass_closed e.arrow_id e.pass_id e.role
        (concat (state_text e.state ∷ ":" ∷ e.close_reason ∷ []))
      ∷ []
]

-- The pass that the registry has under the id.
unfoldable pub registered : World → String → Option Pass
registered w id = elim (lookup id w.registry) [ none ↦ none | some ref ↦ get_elem? w.passes ref ]

-- `emit`
unfoldable pub emit : World → PassEvent → List Emission
unfolding registered
emit w e =
    audited e
    ∷ elim (registered w e.pass_id) [ none ↦ [] | some p ↦ if p.has_bus then bridge e else [] ]

abbrev pub ended : ℕ → Pass → String → PassState → Pass
ended now p reason final = record p { state = final; close_reason = reason; closed_at = now }

abbrev pub event_of : PassEventKind → ℕ → Pass → PassEvent
event_of kind now p = record {
  kind = kind;
  pass_id = p.id;
  role = p.role;
  context = p.context;
  arrow_id = p.arrow_id;
  grid_version = p.grid_version;
  state = p.state;
  opened_at = p.opened_at;
  closed_at = p.closed_at;
  close_reason = p.close_reason;
  recovered_at = p.recovered_at;
  at = now;
}

-- `closeWith`, on the pass at the reference.
unfoldable pub end_pass : ℕ → World → ℕ → Pass → String → PassState → World × List Emission
unfolding emit
end_pass now w ref p reason final = elim p.state [
  | active ↦
      let p' = ended now p reason final in
      let w' = record w { passes = set w.passes ref p'; locks = release w.locks p.lock_token } in
      (w', if p.has_registry then emit w' (event_of (kind_from_final_state final) now p') else [])
  | _ ↦ (w, [])
]

unfoldable pub close_with : ℕ → World → ℕ → String → PassState → World × List Emission
unfolding end_pass
close_with now w ref reason final = elim (get_elem? w.passes ref) [
  | none ↦ (w, [])
  | some p ↦ end_pass now w ref p reason final
]

-- `Close`
unfoldable pub close_pass : ℕ → World → ℕ → String → World × List Emission
unfolding close_with
close_pass now w ref reason = close_with now w ref reason closed

-- `Abort`
unfoldable pub abort_pass : ℕ → World → ℕ → String → World × List Emission
unfolding close_with
abort_pass now w ref reason = close_with now w ref reason aborted

-- The event of `Register` has only the fields that it names.
abbrev opening : ℕ → Pass → PassEvent
opening now p = record (event_of open_event now p) {
  closed_at = 0;
  close_reason = "";
  recovered_at = 0;
}

-- `Register`
unfoldable pub register_pass : ℕ → World → ℕ → World × List Emission
unfolding emit
register_pass now w ref = elim (get_elem? w.passes ref) [
  | none ↦ (w, [])
  | some p ↦
      let p' = record p { has_registry = true } in
      let w' = record w { passes = set w.passes ref p'; registry = insert p.id ref w.registry } in
      (w', emit w' (opening now p'))
]

-- `markRecovered`
unfoldable pub mark_recovered : ℕ → World → ℕ → World × List Emission
unfolding emit
mark_recovered at w ref = elim (get_elem? w.passes ref) [
  | none ↦ (w, [])
  | some p ↦
      let p' = record p { recovered_at = at } in
      let w' = record w { passes = set w.passes ref p' } in
      let e = record (event_of recover_event at p') { closed_at = 0; close_reason = "" } in
      (w', if p.has_registry then emit w' e else [])
]

-- `Resume`, which registers the pass that it makes. Its lock has no time limit.
unfoldable pub resume_pass :
    ℕ → ℕ → ℕ → World → PassOptions → Result PassError (ℕ × World × List Emission)
unfolding open_pass register_pass mark_recovered
resume_pass now opened recovered w o = do
  (ref, w1) ← open_pass now opened w (record o { lock_ttl = pos 0 })
  let (w2, sent) = register_pass now w1 ref
  let (w3, sent') = mark_recovered recovered w2 ref
  ok (ref, w3, sent ++ sent')

-- `Unregister`
unfoldable pub unregister_pass : World → String → World
unregister_pass w id = record w { registry = delete id w.registry }

abbrev pub collect : World → Map String ℕ → List Pass
collect w [] = []
collect w ((id, ref) ∷ m) =
    let rest = collect w m in elim (get_elem? w.passes ref) [ none ↦ rest | some p ↦ p ∷ rest ]

-- `All`
unfoldable pub all_passes : World → List Pass
all_passes w = collect w w.registry

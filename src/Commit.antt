-- ===== src/Commit.antt =====
-- runner/amendment_commit.go: the commit of one amendment to the grid, the passes and the queue.
-- What the callback for bindings comes to is an argument; the context is not cancelled.
-- The events that the parts send are in their own modules; the one on the bus is a display of the result.
pub mod Laws
mod Examples
use ghyll.Base.{
  ℕ, String, Bool, true, false, ◌&&◌, not, Option, none, some, List, [], ◌∷◌, ◌++◌, map, ◌==◌,
  string_key, get_elem?, concat, Result, ok, err, ◌>>=◌, ◌>>◌, refuse, if◌then◌else◌,
}
use ghyll.Base.Map.{Map}
use ghyll.Grid.{ArrowDefinition, Grid, GridError, append_arrow}
use ghyll.Passes.{Pass, PassState, World, Emission, active, abort_pass}
use ghyll.Amendments.{
  AmendmentRequest, AmendmentQueue, AmendmentError, validate_amendment, mark_drained,
}

-- `CommitRequest`, without the bindings, which only the callback reads.
pub record CommitRequest : Type 0 where
  pub amendment : AmendmentRequest
  pub new_arrows : List ArrowDefinition

-- `BindingsReRegister`: not set, failed, or a snapshot with or without a function to swap it in.
pub data Bindings : Type 0 where
  unset : Bindings
  failed : String → Bindings
  built : Bool → Bindings

-- What a commit changes: the grid, the passes, the queue if there is one, and whether the snapshot
-- has been swapped in.
pub record CommitState : Type 0 where
  pub grid : Grid
  pub world : World
  pub queue : Option AmendmentQueue
  pub swapped : Bool

pub data CommitError : Type 0 where
  invalid_request : AmendmentError → CommitError
  fifo_violation : String → String → CommitError
  bindings_failed : String → CommitError

-- `CommitResult`, with the error of an append, which is returned beside it.
pub record CommitResult : Type 0 where
  pub version_before : ℕ
  pub version_after : ℕ
  pub appended_arrows : List String
  pub aborted_passes : List String
  pub committed_at : ℕ
  pub append_error : Option GridError

-- The first loop: the ids that were appended, the error, and the grid.
unfoldable pub append_all : Grid → List ArrowDefinition → List String × Option GridError × Grid
append_all g [] = ([], none, g)
append_all g (a ∷ rest) = elim (append_arrow g a) [
  | err e ↦ ([], some e, g)
  | ok (version, g', events) ↦ let (ids, e, g'') = append_all g' rest in (a.id ∷ ids, e, g'')
]

abbrev pub is_running : PassState → Bool
is_running active = true
is_running _ = false

-- One round of the second loop.
unfoldable pub abort_one : ℕ → String → String → World → ℕ → List String × World × List Emission
abort_one now source reason w ref = elim (get_elem? w.passes ref) [
  | none ↦ ([], w, [])
  | some p ↦
      let (w', sent) = abort_pass now w ref reason in
      if p.arrow_id == source && is_running p.state then (p.id ∷ [], w', sent) else ([], w, [])
]

unfoldable pub abort_all :
    ℕ → String → String → World → List ℕ → List String × World × List Emission
unfolding abort_one
abort_all now source reason w [] = ([], w, [])
abort_all now source reason w (ref ∷ refs) =
    let (ids, w', sent) = abort_one now source reason w ref in
    let (ids', w'', sent') = abort_all now source reason w' refs in
    (ids ++ ids', w'', sent ++ sent')

abbrev pub refs_of : Map String ℕ → List ℕ
refs_of [] = []
refs_of ((id, ref) ∷ m) = ref ∷ refs_of m

abbrev pub invalid_or_ok : Result AmendmentError (Unit {0}) → Result CommitError (Unit {0})
invalid_or_ok (ok u) = ok u
invalid_or_ok (err e) = err (invalid_request e)

-- The check of the head of the queue.
unfoldable pub check_head : Option AmendmentQueue → String → Result CommitError (Unit {0})
check_head none id = ok tt
check_head (some q) id = elim q.pending [
  | [] ↦ ok tt
  | r ∷ rs ↦ refuse (not (r.id == id)) (fifo_violation id r.id)
]

abbrev pub check_bindings : Bindings → Result CommitError Bool
check_bindings unset = ok false
check_bindings (failed e) = err (bindings_failed e)
check_bindings (built swap) = ok swap

abbrev pub is_none : Option GridError → Bool
is_none none = true
is_none (some e) = false

abbrev pub drained : Option AmendmentQueue → String → Option AmendmentQueue
drained none id = none
drained (some q) id = some (mark_drained q id).0

-- The reason of the aborts.
abbrev pub reason_of : CommitRequest → String
reason_of req = concat ("amendment " ∷ req.amendment.id ∷ " drained: " ∷ req.amendment.reason ∷ [])

-- The mutations, in order: the grid, the bindings, the passes, the queue.
unfoldable pub apply_commit : ℕ → CommitState → CommitRequest → Bool → CommitResult × CommitState
unfolding append_all abort_all
apply_commit now st req swap =
    let (appended, e, grid) = append_all st.grid req.new_arrows in
    let (aborted, world, sent) =
      abort_all now req.amendment.source_arrow (reason_of req) st.world
        (refs_of st.world.registry) in
    (
      record {
        version_before = st.grid.version;
        version_after = grid.version;
        appended_arrows = appended;
        aborted_passes = aborted;
        committed_at = now;
        append_error = e;
      },
      record {
        grid = grid;
        world = world;
        queue = drained st.queue req.amendment.id;
        swapped = swap && is_none e;
      },
    )

-- `Commit`, on a grid and a registry of passes that are there.
unfoldable pub commit_amendment :
    ℕ → CommitState → CommitRequest → Bindings → Result CommitError (CommitResult × CommitState)
unfolding check_head apply_commit
commit_amendment now st req bindings = do
  invalid_or_ok (validate_amendment req.amendment)
  check_head st.queue req.amendment.id
  swap ← check_bindings bindings
  ok (apply_commit now st req swap)

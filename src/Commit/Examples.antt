-- ===== src/Commit/Examples.antt =====
-- A commit that meets a running pass.
use ghyll.Base.{◌≡◌, refl, false, none, [], ◌∷◌, ok, pos, All}
use ghyll.Amendments.{AmendmentRequest, missing_cross_context_spec}
use ghyll.Grid.{new_grid}
use ghyll.Passes.{PassOptions, new_world}
use ghyll.Passes.History.{opening, registering, pass_run}
use ghyll.Commit.{CommitRequest, CommitState, unset, refs_of, apply_commit, commit_amendment}
use ghyll.Commit.Laws.{Quiet, commit_amendment-stopped}

abbrev options : PassOptions
options = record {
  pass_id = "p1";
  role = "analyst";
  context = "billing";
  arrow_id = "a1";
  grid_version = 1;
  lock_ttl = pos 0;
  has_bus = false;
}

abbrev state : CommitState
state = record {
  grid = new_grid;
  world = pass_run new_world (opening 1 1 options ∷ registering 2 0 ∷ []);
  queue = none;
  swapped = false;
}

abbrev request : CommitRequest
request = record {
  amendment = record {
    id = "r1";
    reason = missing_cross_context_spec;
    source_arrow = "a1";
    target_role = "analyst";
    contexts = "billing" ∷ "shipping" ∷ [];
    description = "";
    finding_ids = "f1" ∷ [];
    created_at = "";
  };
  new_arrows = [];
}

committed :
    commit_amendment 9 state request unset
    ≡ ok ((apply_commit 9 state request false).0, (apply_commit 9 state request false).1)
unfolding commit_amendment ghyll.Amendments.validate_amendment
committed = refl

commit_amendment-stopped_example :
    All (Quiet "a1" (apply_commit 9 state request false).1.world) (refs_of state.world.registry)
commit_amendment-stopped_example =
    commit_amendment-stopped 9 state (apply_commit 9 state request false).1 request unset
      (apply_commit 9 state request false).0 committed

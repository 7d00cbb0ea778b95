-- ===== src/Grid/Laws.antt =====
-- An arrow that is declared stays as it is.
use ghyll.Base.{
  ℕ, ◌+◌, ◌%◌, ◌^◌, String, ◌≡◌, refl, Bool, true, false, none, some, List, [], ◌∷◌, arith, eq_iff,
  ◌==◌, string_key, ok, err, Result, trim_space, if◌then◌else◌,
}
use ghyll.Base.Map.{lookup, member, lookup-insert}
use ghyll.Grid.{
  ArrowDefinition, Grid, GridEvent, GridEventKind, GridError, append_internal, append_arrow,
  append_on_the_spot, append_event, on_the_spot_event, lookup_arrow, validate_arrow,
}

-- An arrow that is accepted was valid and its id was free; a look-up by a text that trims to its
-- id finds it, every other look-up is as before, and the version goes up by one, modulo 2 ^ 64.
pub append_internal-lookup :
    (g g' : Grid) (a : ArrowDefinition) (kind : GridEventKind) (bump : Bool) (version : ℕ)
    (events : List GridEvent)
    → append_internal g a kind bump ≡ ok (version, g', events)
    → (validate_arrow a ≡ ok tt)
      × (lookup a.id g.arrows ≡ none)
      × ((j : String)
          → lookup_arrow g' j ≡ (if a.id == trim_space j then some a else lookup_arrow g j))
      × (g'.version ≡ (g.version + 1) % 2 ^ 64)
      × (version ≡ g'.version)
unfolding append_internal lookup_arrow member
append_internal-lookup g g' a kind bump version events h = (
  ground (arith, h),
  ground (arith, h),
  λ j. ground (arith, h, lookup-insert a.id (trim_space j) a g.arrows),
  ground (arith, h),
  ground (arith, h),
)

-- The two ways to append.
pub data GridCall : Type 0 where
  appending on_the_spot : ArrowDefinition → GridCall

abbrev grown : Grid → Result GridError (ℕ × Grid × List GridEvent) → Grid
grown g (ok (version, g', events)) = g'
grown g (err e) = g

unfoldable pub grid_step : Grid → GridCall → Grid
grid_step g (appending a) = grown g (append_arrow g a)
grid_step g (on_the_spot a) = grown g (append_on_the_spot g a)

unfoldable pub grid_run : Grid → List GridCall → Grid
unfolding grid_step
grid_run g [] = g
grid_run g (c ∷ cs) = grid_run (grid_step g c) cs

grown-kept :
    (g : Grid) (a d : ArrowDefinition) (kind : GridEventKind) (bump : Bool) (j : String)
    (r : Result GridError (ℕ × Grid × List GridEvent))
    → append_internal g a kind bump ≡ r
    → lookup_arrow g j ≡ some d
    → lookup_arrow (grown g r) j ≡ some d
unfolding lookup_arrow
grown-kept g a d kind bump j (err e) h at = at
grown-kept g a d kind bump j (ok (version, g', events)) h at =
    let (valid, free, look, v, w) = append_internal-lookup g g' a kind bump version events h in
    ground (arith, look j, free, at, eq_iff a.id (trim_space j))

grid_step-kept :
    (g : Grid) (c : GridCall) (j : String) (d : ArrowDefinition)
    → lookup_arrow g j ≡ some d
    → lookup_arrow (grid_step g c) j ≡ some d
unfolding grid_step append_arrow append_on_the_spot
grid_step-kept g (appending a) j d at =
    grown-kept g a d append_event false j (append_internal g a append_event false) refl at
grid_step-kept g (on_the_spot a) j d at =
    grown-kept g a d on_the_spot_event true j (append_internal g a on_the_spot_event true) refl at

-- A declared arrow is final: whatever is appended afterwards, a look-up finds the same definition.
pub grid_run-kept :
    (g : Grid) (cs : List GridCall) (j : String) (d : ArrowDefinition)
    → lookup_arrow g j ≡ some d
    → lookup_arrow (grid_run g cs) j ≡ some d
unfolding grid_run
grid_run-kept g [] j d at = at
grid_run-kept g (c ∷ cs) j d at = grid_run-kept (grid_step g c) cs j d (grid_step-kept g c j d at)

-- ===== src/Grid.antt =====
-- runner/grid.go: the registry of arrow definitions. A deep copy of a definition is the definition.
pub mod Laws
mod Examples
use ghyll.Base.{
  ℕ, ◌+◌, ◌%◌, ◌^◌, String, Bool, true, false, Option, none, some, List, [], ◌∷◌, ◌==◌, string_key,
  length, leb, ltb, any, trim_space, is_blank, sort_by, Result, ok, err, ◌>>=◌, ◌>>◌, refuse,
  if◌then◌else◌,
}
use ghyll.Base.Map.{Map, lookup, insert, member}
use ghyll.Clause.{Clause}
use ghyll.Depth.{Requirement, DepthError, validate_requirement}

-- `ArrowDefinition`
pub record ArrowDefinition : Type 0 where
  pub id : String
  pub source_role : String
  pub target_role : String
  pub stratum : String
  pub context : String
  pub clauses : List Clause
  pub requirements : List Requirement

pub data GridError : Type 0 where
  arrow_id_empty source_role_empty target_role_empty stratum_empty context_empty : GridError
  no_clauses too_many_clauses too_many_requirements concept_empty : String → GridError
  requirement_invalid : String → DepthError → GridError
  already_declared : String → GridError

abbrev pub max_arrow_clauses : ℕ
max_arrow_clauses = 256

abbrev pub max_arrow_requirements : ℕ
max_arrow_requirements = 256

-- The last loop of `Validate`.
unfoldable pub validate_requirements : String → List Requirement → Result GridError (Unit {0})
validate_requirements id [] = ok tt
validate_requirements id (r ∷ rs) =
    let rest = validate_requirements id rs in
    elim (validate_requirement r) [ err e ↦ err (requirement_invalid id e) | ok u ↦ rest ]

-- `ArrowDefinition.Validate`
unfoldable pub validate_arrow : ArrowDefinition → Result GridError (Unit {0})
unfolding is_blank validate_requirements
validate_arrow a = do
  refuse (is_blank a.id) arrow_id_empty
  refuse (is_blank a.source_role) source_role_empty
  refuse (is_blank a.target_role) target_role_empty
  refuse (is_blank a.stratum) stratum_empty
  refuse (is_blank a.context) context_empty
  refuse (leb (length a.clauses) 0) (no_clauses a.id)
  refuse (ltb max_arrow_clauses (length a.clauses)) (too_many_clauses a.id)
  refuse (ltb max_arrow_requirements (length a.requirements)) (too_many_requirements a.id)
  refuse (any (λ c. is_blank c.concept) a.clauses) (concept_empty a.id)
  validate_requirements a.id a.requirements

-- `GridEventKind`
pub data GridEventKind : Type 0 where
  append_event on_the_spot_event : GridEventKind

-- `GridEvent`
pub record GridEvent : Type 0 where
  pub kind : GridEventKind
  pub arrow_id : String
  pub definition : ArrowDefinition
  pub version : ℕ

-- `Grid`
pub record Grid : Type 0 where
  pub arrows : Map String ArrowDefinition
  pub version : ℕ
  pub interruptions : ℕ

-- `NewGrid`
unfoldable pub new_grid : Grid
new_grid = record { arrows = []; version = 0; interruptions = 0 }

-- `appendInternal`: the new version, the grid and the events.
unfoldable pub append_internal :
    Grid → ArrowDefinition → GridEventKind → Bool → Result GridError (ℕ × Grid × List GridEvent)
unfolding validate_arrow
append_internal g a kind bump = do
  validate_arrow a
  refuse (member a.id g.arrows) (already_declared a.id)
  let version = (g.version + 1) % 2 ^ 64
  ok (
    version,
    record {
      arrows = insert a.id a g.arrows;
      version = version;
      interruptions = if bump then g.interruptions + 1 else g.interruptions;
    },
    record { kind = kind; arrow_id = a.id; definition = a; version = version } ∷ [],
  )

-- `Append`
unfoldable pub append_arrow : Grid → ArrowDefinition → Result GridError (ℕ × Grid × List GridEvent)
unfolding append_internal
append_arrow g a = append_internal g a append_event false

-- `AppendOnTheSpot`
unfoldable pub append_on_the_spot :
    Grid → ArrowDefinition → Result GridError (ℕ × Grid × List GridEvent)
unfolding append_internal
append_on_the_spot g a = append_internal g a on_the_spot_event true

-- `Lookup`
unfoldable pub lookup_arrow : Grid → String → Option ArrowDefinition
unfolding trim_space
lookup_arrow g arrow_id = lookup (trim_space arrow_id) g.arrows

-- `Has`
unfoldable pub has_arrow : Grid → String → Bool
unfolding trim_space
has_arrow g arrow_id = member (trim_space arrow_id) g.arrows

abbrev keys_of : Map String ArrowDefinition → List String
keys_of [] = []
keys_of ((id, a) ∷ m) = id ∷ keys_of m

-- `Arrows`
unfoldable pub arrow_names : Grid → List String
arrow_names g = sort_by (λ id. id) (keys_of g.arrows)

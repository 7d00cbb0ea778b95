-- ===== src/Routing.antt =====
-- runner/routing.go: the depth tier that an arrow's clauses ask for.
pub mod Laws
mod Examples
use ghyll.Base.{
  ℕ, ℤ, pos, String, Bool, true, false, not, ◌&&◌, List, [], ◌∷◌, map, ◌==◌, string_key, int_key,
  ◌||◌, int_ltb, codes, same_codes, to_lower, dashed, trim_space, Result, ok, err, ◌>>◌, ◌>>=◌,
  refuse, if◌then◌else◌,
}
use ghyll.Clause.{Clause}
use ghyll.Depth.{is_known_depth_rank, is_rank_none}

-- `ClauseDepthType`, the two values that `ParseClauseDepthType` can return.
pub data DepthType : Type 0 where
  robust sensitive : DepthType

pub data RoutingError : Type 0 where
  depth_type_unknown : String → RoutingError
  depth_requirement_invalid : String → ℤ → RoutingError

-- The two replacements of the wire form, then the comparison with a name.
unfoldable pub is_depth_name : String → String → Bool
unfolding trim_space to_lower
is_depth_name s name = same_codes (map dashed (map to_lower (codes (trim_space s)))) (codes name)

-- `ParseClauseDepthType`
unfoldable pub parse_clause_depth_type : String → Result RoutingError DepthType
unfolding is_depth_name
parse_clause_depth_type s =
    if is_depth_name s "depth-robust"
    then ok robust
    else if is_depth_name s "depth-sensitive"
    then ok sensitive
    else err (depth_type_unknown s)

-- `IsKnownDepthType`
unfoldable pub is_known_depth_type : String → Bool
unfolding parse_clause_depth_type
is_known_depth_type t = elim (parse_clause_depth_type t) [ ok d ↦ true | err e ↦ false ]

-- `c.DepthType == DepthTypeSensitive`, which compares the text as it stands.
abbrev pub is_sensitive : Clause → Bool
is_sensitive c = c.depth_type == "depth-sensitive"

-- `ValidateClauseDepthDeclaration`
unfoldable pub validate_depth_declaration : Clause → Result RoutingError (Unit {0})
unfolding is_known_depth_type is_known_depth_rank
validate_depth_declaration c = do
  refuse (not (is_known_depth_type c.depth_type)) (depth_type_unknown c.depth_type)
  refuse (is_sensitive c && not (is_known_depth_rank c.min_depth_tier))
      (depth_requirement_invalid c.clause_id c.min_depth_tier)
  refuse (is_sensitive c && is_rank_none c.min_depth_tier)
      (depth_requirement_invalid c.clause_id c.min_depth_tier)

-- `RoutingRequirement`
pub record RoutingRequirement : Type 0 where
  pub routed : Bool
  pub min_tier : ℤ
  pub max_depth_clause_id : String

-- `HasSensitive`
unfoldable pub has_sensitive : RoutingRequirement → Bool
has_sensitive r = not (r.max_depth_clause_id == "")

-- The first loop of `RouteArrow`.
unfoldable pub validate_all : List Clause → Result RoutingError (Unit {0})
validate_all [] = ok tt
validate_all (c ∷ cs) = validate_depth_declaration c >> validate_all cs

-- One round of the second loop.
unfoldable pub consider : RoutingRequirement → Clause → RoutingRequirement
consider req c =
    if not (is_sensitive c)
    then req
    else if int_ltb req.min_tier c.min_depth_tier
    then record req { min_tier = c.min_depth_tier; max_depth_clause_id = c.clause_id }
    else if req.max_depth_clause_id == ""
    then record req { max_depth_clause_id = c.clause_id }
    else req

unfoldable pub consider_all : RoutingRequirement → List Clause → RoutingRequirement
unfolding consider
consider_all req [] = req
consider_all req (c ∷ cs) = consider_all (consider req c) cs

-- `RouteArrow`
unfoldable pub route_arrow : List Clause → Result RoutingError RoutingRequirement
unfolding validate_all consider_all
route_arrow clauses = do
  validate_all clauses
  ok (consider_all (record { routed = true; min_tier = pos 0; max_depth_clause_id = "" }) clauses)

-- The errors of `RoutingRequirement.Validate`.
pub data RequirementError : Type 0 where
  unrouted_not_zero : RequirementError
  min_tier_out_of_range : ℤ → RequirementError

-- `RoutingRequirement.Validate`
unfoldable pub validate_routing : RoutingRequirement → Result RequirementError (Unit {0})
unfolding is_known_depth_rank
validate_routing r =
    if r.routed
    then refuse (not (is_known_depth_rank r.min_tier)) (min_tier_out_of_range r.min_tier)
    else refuse (not (r.min_tier == pos 0 && r.max_depth_clause_id == "")) unrouted_not_zero

-- `IsKnownUnevaluatedReason`
unfoldable pub is_known_unevaluated_reason : String → Bool
is_known_unevaluated_reason r =
    r == "depth-below-required"
    || r == "no-rule-selectable-locations"
    || r == "producer-no-response"

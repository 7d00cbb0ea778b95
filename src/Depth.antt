-- ===== src/Depth.antt =====
-- runner/depthladder.go: depth ranks, requirements and classifications.
pub mod Ladder
use ghyll.Base.{
  ℕ, ℤ, pos, String, Bool, ◌&&◌, not, ltb, int_leb, is_blank, byte_length, Result, ◌>>◌, refuse,
}

-- `IsKnownDepthRank`; a `DepthRank` is an integer.
unfoldable pub is_known_depth_rank : ℤ → Bool
is_known_depth_rank r = int_leb (pos 0) r && int_leb r (pos 3)

-- `r == DepthRankNone`
abbrev pub is_rank_none : ℤ → Bool
is_rank_none r = int_leb (pos 0) r && int_leb r (pos 0)

pub data DepthError : Type 0 where
  requirement_id_empty classification_requirement_id_empty : DepthError
  min_depth_out_of_range observed_out_of_range : String → ℤ → DepthError
  min_depth_none description_empty description_too_long evidence_too_long : String → DepthError

-- `Requirement`
pub record Requirement : Type 0 where
  pub id : String
  pub min_depth : ℤ
  pub description : String

abbrev pub max_text : ℕ
max_text = 8192

-- `Requirement.Validate`
unfoldable pub validate_requirement : Requirement → Result DepthError (Unit {0})
unfolding is_known_depth_rank is_blank
validate_requirement r = do
  refuse (is_blank r.id) requirement_id_empty
  refuse (not (is_known_depth_rank r.min_depth)) (min_depth_out_of_range r.id r.min_depth)
  refuse (is_rank_none r.min_depth) (min_depth_none r.id)
  refuse (is_blank r.description) (description_empty r.id)
  refuse (ltb max_text (byte_length r.description)) (description_too_long r.id)

-- `Classification`
pub record Classification : Type 0 where
  pub requirement_id : String
  pub observed : ℤ
  pub evidence : String

-- `Classification.Validate`
unfoldable pub validate_classification : Classification → Result DepthError (Unit {0})
unfolding is_known_depth_rank is_blank
validate_classification c = do
  refuse (is_blank c.requirement_id) classification_requirement_id_empty
  refuse (not (is_known_depth_rank c.observed)) (observed_out_of_range c.requirement_id c.observed)
  refuse (ltb max_text (byte_length c.evidence)) (evidence_too_long c.requirement_id)

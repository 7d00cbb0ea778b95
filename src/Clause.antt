-- ===== src/Clause.antt =====
-- runner/runner.go: the clause, its status and the legal moves between statuses.
use ghyll.Base.{
  ℕ, ℤ, String, Bool, true, false, Option, none, some, List, Result, ok, err, string_key,
}
use ghyll.Base.Map.{Map, lookup}

-- `ClauseStatus`; `unknown` stands for every integer that is none of the five constants.
pub data ClauseStatus : Type 0 where
  pending running pass fail unevaluated : ClauseStatus
  unknown : ℤ → ClauseStatus

-- `ClauseStatus.String`; `none` stands for the text that marks an invalid status.
unfoldable pub clause_status_text : ClauseStatus → Option String
clause_status_text ClauseStatus.pending = some "pending"
clause_status_text ClauseStatus.running = some "running"
clause_status_text ClauseStatus.pass = some "pass"
clause_status_text ClauseStatus.fail = some "fail"
clause_status_text ClauseStatus.unevaluated = some "unevaluated"
clause_status_text (ClauseStatus.unknown n) = none

-- `CanTransition` with the table `validTransitions`.
unfoldable pub can_transition : ClauseStatus → ClauseStatus → Bool
can_transition ClauseStatus.pending ClauseStatus.running = true
can_transition ClauseStatus.running ClauseStatus.pass = true
can_transition ClauseStatus.running ClauseStatus.fail = true
can_transition ClauseStatus.running ClauseStatus.unevaluated = true
can_transition _ _ = false

-- A value of Go's `any`, with the kinds that the modelled code tells apart.
pub data Value : Type 0 where
  text : String → Value
  bool : Bool → Value
  int : ℤ → Value
  -- A `float64` that is an integer, and one that is not.
  whole : ℤ → Value
  fractional : ℕ → Value
  strings : List String → Value
  -- An untyped sequence, as a YAML decoder leaves it: the texts in it, and whether it holds only texts.
  sequence : List String → Bool → Value
  other : ℕ → Value

-- `Clause`
pub record Clause : Type 0 where
  pub concept : String
  pub args : Map String Value
  pub project_dir : String
  pub clause_id : String
  pub pass_id : String
  pub arrow_id : String
  pub grid_version : ℕ
  pub depth_type : String
  pub min_depth_tier : ℤ
  pub depth_type_attestation_ref : String

-- `Result`: an evaluator's verdict. Its details are for display only.
pub record Verdict : Type 0 where
  pub pass : Bool
  pub unevaluated : Bool
  pub reason : String

-- The errors of an evaluator, with what the message shows.
pub data ArgError : Type 0 where
  missing_arg not_a_string : String → ArgError
  out_of_range : ℤ → ArgError
  not_an_integer : ℕ → ArgError
  unknown_name : String → ArgError
  wrong_kind blank_arg : String → ArgError

-- `requireStringArg`
unfoldable pub require_string_arg : Map String Value → String → Result ArgError String
require_string_arg args key = elim (lookup key args) [
  | none ↦ err (missing_arg key)
  | some (text s) ↦ ok s
  | some _ ↦ err (not_a_string key)
]

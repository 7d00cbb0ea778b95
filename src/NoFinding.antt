-- ===== src/NoFinding.antt =====
-- runner/nofinding.go: the evaluator of `no-open-finding`. The store that the context carries is an
-- argument, `none` when there is none.
pub mod Laws
mod Examples
use ghyll.Base.{
  ℕ, zero, suc, ℤ, pos, String, Bool, true, false, Option, none, some, List, [], ◌∷◌, map, ◌||◌,
  int_ltb, int_leb, length, select, nat_eq, codes, same_codes, to_lower, trim_space, Result, ok,
  err, ◌>>=◌, refuse, if◌then◌else◌, string_key,
}
use ghyll.Base.Map.{Map, lookup}
use ghyll.Clause.{Value, Verdict, ArgError, require_string_arg}
use ghyll.Arrow.{FindingStatus}
use ghyll.Findings.{FindingRecord, FindingsStore, for_arrow}

-- The sides of the clamp of a severity to 0..4.
unfoldable pub clamp_severity : ℤ → ℤ
clamp_severity sev =
    let low = if int_ltb sev (pos 0) then pos 0 else sev in
    if int_ltb (pos 4) low then pos 4 else low

-- `isBlockingFinding`
unfoldable pub is_blocking_finding : ℤ → FindingRecord → Bool
unfolding clamp_severity
is_blocking_finding threshold f = elim f.status [
  | FindingStatus.still_open ↦ int_leb threshold (clamp_severity f.severity)
  | FindingStatus.running ↦ int_leb threshold (clamp_severity f.severity)
  | FindingStatus.unevaluated ↦ true
  | FindingStatus.resolved ↦ false
  | FindingStatus.accepted_risk ↦ false
  | FindingStatus.unknown n ↦ true
]

-- `norm == name`. No character is a space only before or only after it is lowered, so that the
-- text is trimmed first.
unfoldable pub is_named : String → String → Bool
unfolding trim_space to_lower
is_named s name = same_codes (map to_lower (codes (trim_space s))) (codes name)

-- `parseSeverityRank`
unfoldable pub parse_severity_rank : String → Result ArgError ℤ
unfolding is_named
parse_severity_rank s =
    if is_named s "info"
    then ok (pos 0)
    else if is_named s "low"
    then ok (pos 1)
    else if is_named s "medium"
    then ok (pos 2)
    else if is_named s "high"
    then ok (pos 3)
    else if is_named s "critical"
    then ok (pos 4)
    else err (ArgError.unknown_name s)

-- The case `int` of `coerceSeverityArg`.
unfoldable pub check_rank : ℤ → Result ArgError ℤ
check_rank x =
    if int_ltb x (pos 0) || int_ltb (pos 4) x then err (ArgError.out_of_range x) else ok x

-- `coerceSeverityArg`
unfoldable pub coerce_severity_arg : Value → Result ArgError ℤ
unfolding parse_severity_rank check_rank
coerce_severity_arg (Value.text s) = parse_severity_rank s
coerce_severity_arg (Value.int x) = check_rank x
coerce_severity_arg (Value.whole x) = check_rank x
coerce_severity_arg (Value.fractional n) = err (ArgError.not_an_integer n)
coerce_severity_arg _ = err (ArgError.wrong_kind "severity-threshold")

abbrev pub threshold_arg : Option Value → Result ArgError ℤ
threshold_arg none = ok (pos 2)
threshold_arg (some v) = coerce_severity_arg v

-- The verdict over the findings of the arrow.
unfoldable pub decide_findings : ℤ → List FindingRecord → Verdict
decide_findings threshold findings = record {
  pass = nat_eq (length (select (is_blocking_finding threshold) findings)) 0;
  unevaluated = false;
  reason = "";
}

abbrev no_store : Verdict
no_store = record {
  pass = false;
  unevaluated = true;
  reason = "no findings store attached to ctx; evaluator cannot decide";
}

-- `EvaluateNoOpenFinding`
unfoldable pub evaluate_no_open_finding :
    Option FindingsStore → Map String Value → Result ArgError Verdict
unfolding require_string_arg coerce_severity_arg decide_findings
evaluate_no_open_finding store args = do
  arrow_id ← require_string_arg args "arrow-id"
  threshold ← threshold_arg (lookup "severity-threshold" args)
  ok (elim store [ none ↦ no_store | some s ↦ decide_findings threshold (for_arrow s arrow_id) ])

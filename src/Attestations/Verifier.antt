-- ===== src/Attestations/Verifier.antt =====
-- runner/attestation_verifier.go: the audit of a file of verdicts, line by line. `json.Unmarshal` on
-- a line and on the payload of a unit, and `bufio.Scanner`, are parameters. The text of an issue and
-- the piece of the line that is shown with it are left out.
pub mod Reasons
pub mod Accepted
pub mod Loads
pub mod Written
mod Examples
use ghyll.Base.{
  ℕ, ◌+◌, ℤ, pos, String, Bool, true, false, ◌&&◌, ◌||◌, not, Option, none, some, List, [], ◌∷◌,
  ◌++◌, Result, ok, err, ◌==◌, string_key, if◌then◌else◌, int_leb, is_blank, trim_space, has_text,
}
use ghyll.Basis.{AttestationVerdict, pass, fail, insufficient_basis, other}
use ghyll.Attestations.{
  Rules, Check, AttestationKind, depth_type, on_the_spot, other_kind, VerdictUnit, no_unit, confirm,
  record_locations_inspected, write_residue_note, other_unit, UnitPayload, validate_unit_payload,
}
use ghyll.Attestations.Wire.{JsonlRecord, kind_of_text, verdict_of_text, unit_of_text}
use ghyll.Attestations.Loading.{Json, Opened, is_skipped}

-- The reasons of `checkLine`, in its order.
pub data Reason : Type 0 where
  json_malformed id_missing arrow_missing op_missing role_missing timestamp_not_positive : Reason
  clause_missing clause_forbidden kind_unknown verdict_unknown : Reason
  attested_by_source attested_by_target adversary_is_source adversary_is_target : Reason
  adversary_has_separator unit_unknown payload_malformed payload_refused hint_refused : Reason

-- `VerifyIssue`
pub record VerifyIssue : Type 0 where
  pub line : ℕ
  pub reason : Reason

-- `VerifyResult`
pub record VerifyResult : Type 0 where
  pub lines : ℕ
  pub passed : ℕ
  pub failed : ℕ
  pub issues : List VerifyIssue

-- `json.Unmarshal` of the payload of a unit.
abbrev pub PayloadParser : Type 0
PayloadParser = String → Option UnitPayload

-- `bufio.Scanner` on the reader: the lines that it yields, and the error that it ends with.
abbrev pub Scanner : Type 0
Scanner = Opened → List String × Option String

abbrev pub note : Bool → Reason → List Reason
note b reason = if b then reason ∷ [] else []

unfoldable pub kind_issues : AttestationKind → String → List Reason
kind_issues depth_type clause_id = note (is_blank clause_id) clause_missing
kind_issues on_the_spot clause_id = note (not (is_blank clause_id)) clause_forbidden
kind_issues (other_kind s) clause_id = kind_unknown ∷ []

unfoldable pub verdict_issues : AttestationVerdict → List Reason
verdict_issues (other s) = verdict_unknown ∷ []
verdict_issues _ = []

unfoldable pub unit_issues : VerdictUnit → List Reason
unit_issues (other_unit s) = unit_unknown ∷ []
unit_issues _ = []

unfoldable pub refusal_issues : Check → List Reason
refusal_issues (ok u) = []
refusal_issues (err e) = payload_refused ∷ []

unfoldable pub payload_issues : VerdictUnit → Option UnitPayload → List Reason
unfolding refusal_issues validate_unit_payload
payload_issues u none = payload_malformed ∷ []
payload_issues u (some p) = refusal_issues (validate_unit_payload u p (pos 0))

-- A role is the side of the arrow, where the side is known.
unfoldable pub is_side : Rules → String → String → Bool
unfolding trim_space
is_side rules role side =
    let side' = trim_space side in not (side' == "") && rules.equal_fold (trim_space role) side'

unfoldable pub field_issues : JsonlRecord → List Reason
unfolding kind_issues verdict_issues kind_of_text verdict_of_text
field_issues w =
    note (is_blank w.id) id_missing
    ++ note (is_blank w.arrow_id) arrow_missing
    ++ note (is_blank w.op_id) op_missing
    ++ note (is_blank w.attested_by_role) role_missing
    ++ note (int_leb w.timestamp (pos 0)) timestamp_not_positive
    ++ kind_issues (kind_of_text w.kind) w.clause_id
    ++ verdict_issues (verdict_of_text w.verdict)

-- The adversary role, where there is one.
unfoldable pub adversary_issues : Rules → JsonlRecord → List Reason
unfolding is_side has_text trim_space
adversary_issues rules w =
    if is_blank w.adversary_role
    then []
    else note (is_side rules w.adversary_role w.source_role) adversary_is_source
      ++ note (is_side rules w.adversary_role w.target_role) adversary_is_target
      ++ note (has_text (trim_space w.adversary_role) "__") adversary_has_separator

unfoldable pub role_issues : Rules → JsonlRecord → List Reason
unfolding is_side adversary_issues
role_issues rules w =
    note (is_side rules w.attested_by_role w.source_role) attested_by_source
    ++ note (is_side rules w.attested_by_role w.target_role) attested_by_target
    ++ adversary_issues rules w

unfoldable pub tier2_issues : Rules → PayloadParser → JsonlRecord → List Reason
unfolding unit_issues payload_issues unit_of_text
tier2_issues rules parse w =
    (if w.unit == ""
      then []
      else unit_issues (unit_of_text w.unit)
        ++ (if w.unit_payload_json == ""
            then []
            else payload_issues (unit_of_text w.unit) (parse w.unit_payload_json)))
    ++ note
        (not (w.hint_json == "" || w.hint_json == "{}") && not (rules.is_json_object w.hint_json))
        hint_refused

-- The issues of a line that could be read.
unfoldable pub record_issues : Rules → PayloadParser → JsonlRecord → List Reason
unfolding field_issues role_issues tier2_issues
record_issues rules parse w = field_issues w ++ role_issues rules w ++ tier2_issues rules parse w

unfoldable pub check_parsed : Rules → PayloadParser → Option JsonlRecord → List Reason
unfolding record_issues
check_parsed rules parse none = json_malformed ∷ []
check_parsed rules parse (some w) = record_issues rules parse w

-- `checkLine`
unfoldable pub check_line : Rules → Json → PayloadParser → String → List Reason
unfolding check_parsed
check_line rules json parse raw = check_parsed rules parse (json.unmarshal raw)

abbrev pub issues_at : ℕ → List Reason → List VerifyIssue
issues_at n [] = []
issues_at n (reason ∷ reasons) = record { line = n; reason = reason } ∷ issues_at n reasons

-- A line that holds a record is counted by whether it has issues.
unfoldable pub count_line : ℕ → VerifyResult → List Reason → VerifyResult
count_line n res [] = record res { lines = res.lines + 1; passed = res.passed + 1 }
count_line n res (reason ∷ reasons) = record res {
  lines = res.lines + 1;
  failed = res.failed + 1;
  issues = res.issues ++ issues_at n (reason ∷ reasons);
}

abbrev pub nothing_verified : VerifyResult
nothing_verified = record { lines = 0; passed = 0; failed = 0; issues = [] }

module _ (rules : Rules) (json : Json) (parse : PayloadParser) where
  unfoldable pub verify_line : ℕ → VerifyResult → String → VerifyResult
  unfolding count_line check_line is_skipped
  verify_line n res trimmed =
      if is_skipped trimmed then res else count_line n res (check_line rules json parse trimmed)

  -- The lines that come after the first `n`.
  unfoldable pub verify_lines : ℕ → VerifyResult → List String → VerifyResult
  unfolding verify_line trim_space
  verify_lines n res [] = res
  verify_lines n res (raw ∷ lines) =
      verify_lines (n + 1) (verify_line (n + 1) res (trim_space raw)) lines

  -- `Verify`.
  unfoldable pub verify : Scanner → Opened → VerifyResult × Option String
  unfolding verify_lines
  verify scan file =
      let (lines, ending) = scan file in (verify_lines 0 nothing_verified lines, ending)

-- ===== src/Attestations.antt =====
-- runner/attestationstore.go: the operators' verdicts, and the checks that each passes before it
-- is stored.
pub mod Store
pub mod Equality
pub mod Outcomes
pub mod History
pub mod Independence
pub mod Trail
pub mod Replaying
pub mod Wire
pub mod Loading
pub mod Recovery
pub mod Truncation
pub mod Verifier
mod Examples
use ghyll.Base.{
  ℕ, ◌*◌, ℤ, pos, String, Bool, true, false, ◌&&◌, ◌||◌, not, List, [], ◌∷◌, Result, ok, err, ◌>>◌,
  refuse, ◌==◌, string_key, if◌then◌else◌, int_leb, int_ltb, int_key, nat_eq, length, is_blank,
  trim_space, byte_length, sort_by, same_texts, has_text,
}
use ghyll.Basis.{AttestationVerdict, pass, fail, insufficient_basis, other}

-- What the checks ask of the libraries: `strings.EqualFold`, and whether `json.Unmarshal` takes a
-- text into a `map[string]any`.
pub record Rules : Type 0 where
  pub equal_fold : String → String → Bool
  pub is_json_object : String → Bool

-- `AttestationKind`
pub data AttestationKind : Type 0 where
  depth_type on_the_spot : AttestationKind
  other_kind : String → AttestationKind

-- `VerdictUnit`; `no_unit` is the empty text.
pub data VerdictUnit : Type 0 where
  no_unit confirm record_locations_inspected write_residue_note : VerdictUnit
  other_unit : String → VerdictUnit

-- `VerdictUnitPayload`
pub record UnitPayload : Type 0 where
  pub inspected : List String
  pub residue : String

-- `AttestationRecord`
pub record AttestationRecord : Type 0 where
  pub id : String
  pub kind : AttestationKind
  pub arrow_id : String
  pub clause_id : String
  pub op_id : String
  pub attested_by_role : String
  pub source_role : String
  pub target_role : String
  pub verdict : AttestationVerdict
  pub reason : String
  pub timestamp : ℤ
  pub grid_version : ℕ
  pub pass_id : String
  pub context : String
  pub stratum : String
  pub adversary_role : String
  pub unit : VerdictUnit
  pub unit_payload : UnitPayload
  pub unit_payload_json : String
  pub hint_json : String

pub data AttestationError : Type 0 where
  id_empty arrow_empty op_id_empty attested_by_role_empty : AttestationError
  depth_type_clause_empty on_the_spot_clause_set kind_invalid verdict_invalid : AttestationError
  self_cert pass_id_empty unit_invalid unit_missing_field inspected_empty : AttestationError
  residue_too_long hint_malformed duplicate : AttestationError
  audit_write_failed : String → AttestationError

abbrev pub Check : Type 0
Check = Result AttestationError (Unit {0})

-- The texts behind the three string types, which Go compares.
abbrev pub kind_text : AttestationKind → String
kind_text depth_type = "depth-type"
kind_text on_the_spot = "on-the-spot"
kind_text (other_kind s) = s

abbrev pub unit_text : VerdictUnit → String
unit_text no_unit = ""
unit_text confirm = "confirm"
unit_text record_locations_inspected = "record-locations-inspected"
unit_text write_residue_note = "write-residue-note"
unit_text (other_unit s) = s

abbrev pub verdict_text : AttestationVerdict → String
verdict_text pass = "pass"
verdict_text fail = "fail"
verdict_text insufficient_basis = "insufficient-basis"
verdict_text (other s) = s

-- `sortedSliceEqual`
unfoldable pub sorted_slice_equal : List String → List String → Bool
sorted_slice_equal a b =
    nat_eq (length a) (length b) && same_texts (sort_by (λ s. s) a) (sort_by (λ s. s) b)

-- The hint as the comparison reads it.
abbrev pub normal_hint : String → String
normal_hint h = if h == "" then "{}" else h

-- The fields that are compared as they are.
unfoldable pub same_fields : AttestationRecord → AttestationRecord → Bool
same_fields a b =
    a.id == b.id
    && kind_text a.kind == kind_text b.kind
    && a.arrow_id == b.arrow_id
    && a.clause_id == b.clause_id
    && a.op_id == b.op_id
    && a.attested_by_role == b.attested_by_role
    && a.source_role == b.source_role
    && a.target_role == b.target_role
    && verdict_text a.verdict == verdict_text b.verdict
    && a.reason == b.reason
    && a.timestamp == b.timestamp
    && nat_eq a.grid_version b.grid_version
    && a.pass_id == b.pass_id
    && a.context == b.context
    && a.stratum == b.stratum
    && a.adversary_role == b.adversary_role
    && unit_text a.unit == unit_text b.unit
    && a.unit_payload_json == b.unit_payload_json
    && normal_hint a.hint_json == normal_hint b.hint_json

-- `AttestationRecordsEqual`
unfoldable pub attestation_records_equal : AttestationRecord → AttestationRecord → Bool
unfolding same_fields sorted_slice_equal
attestation_records_equal a b =
    same_fields a b
    && nat_eq (length a.unit_payload.inspected) (length b.unit_payload.inspected)
    && sorted_slice_equal a.unit_payload.inspected b.unit_payload.inspected
    && a.unit_payload.residue == b.unit_payload.residue

abbrev pub default_max_residue_note_bytes : ℕ
default_max_residue_note_bytes = 16 * 1024

-- `ValidateUnitPayload`
unfoldable pub validate_unit_payload : VerdictUnit → UnitPayload → ℤ → Check
validate_unit_payload u p max_residue_bytes =
    let max =
      if int_leb max_residue_bytes (pos 0)
      then pos default_max_residue_note_bytes
      else max_residue_bytes in
    let filled = not (nat_eq (length p.inspected) 0) || not (p.residue == "") in
    elim u [
      | confirm ↦ refuse filled unit_missing_field
      | record_locations_inspected ↦ refuse (nat_eq (length p.inspected) 0) inspected_empty
      | write_residue_note ↦
          refuse (is_blank p.residue) unit_missing_field
          >> refuse (int_ltb max (pos (byte_length p.residue))) residue_too_long
      | no_unit ↦ refuse filled unit_missing_field
      | other_unit s ↦ err unit_invalid
    ]

-- The roles of `validateAttestation`: a role that vouches is neither end of the arrow.
unfoldable pub check_apart : Rules → String → String → Check
unfolding trim_space
check_apart rules role side =
    let side' = trim_space side in
    refuse (not (side' == "") && rules.equal_fold (trim_space role) side') self_cert

unfoldable pub check_roles : Rules → AttestationRecord → Check
unfolding check_apart
check_roles rules r =
    check_apart rules r.attested_by_role r.source_role
    >> check_apart rules r.attested_by_role r.target_role
    >> (if is_blank r.adversary_role
        then ok tt
        else check_apart rules r.adversary_role r.source_role
          >> check_apart rules r.adversary_role r.target_role)

unfoldable pub check_kind : AttestationKind → String → Check
check_kind depth_type clause_id = refuse (is_blank clause_id) depth_type_clause_empty
check_kind on_the_spot clause_id = refuse (not (is_blank clause_id)) on_the_spot_clause_set
check_kind (other_kind s) clause_id = err kind_invalid

unfoldable pub check_verdict : AttestationVerdict → Check
check_verdict (other s) = err verdict_invalid
check_verdict _ = ok tt

-- `validateAttestation`
unfoldable pub validate_attestation : Rules → AttestationRecord → Check
unfolding check_roles check_kind check_verdict
validate_attestation rules r =
    refuse (is_blank r.id) id_empty
    >> refuse (is_blank r.arrow_id) arrow_empty
    >> refuse (is_blank r.op_id) op_id_empty
    >> refuse (is_blank r.attested_by_role) attested_by_role_empty
    >> check_kind r.kind r.clause_id
    >> check_verdict r.verdict
    >> check_roles rules r

unfoldable pub check_unit : VerdictUnit → UnitPayload → ℤ → Check
unfolding validate_unit_payload
check_unit no_unit p max = ok tt
check_unit (other_unit s) p max = err unit_invalid
check_unit u p max = validate_unit_payload u p max

-- `validateAttestationTier2`
unfoldable pub validate_attestation_tier2 : Rules → AttestationRecord → ℤ → Check
unfolding check_unit has_text trim_space
validate_attestation_tier2 rules r residue_max_bytes =
    let adv = trim_space r.adversary_role in
    refuse (is_blank r.pass_id) pass_id_empty
    >> refuse (not (adv == "") && has_text adv "__") self_cert
    >> check_unit r.unit r.unit_payload residue_max_bytes
    >> refuse
        (not (r.hint_json == "" || r.hint_json == "{}") && not (rules.is_json_object r.hint_json))
        hint_malformed

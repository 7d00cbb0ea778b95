-- ===== src/Attestations/Wire.antt =====
-- runner/attestation_jsonl.go: the form that a verdict has in a line of the audit file.
use ghyll.Base.{ℕ, ℤ, String, ◌≡◌, refl, [], ◌==◌, string_key, arith, if◌then◌else◌, ok}
use ghyll.Basis.{AttestationVerdict, pass, fail, insufficient_basis, other}
use ghyll.Attestations.{
  Rules, AttestationRecord, AttestationKind, depth_type, on_the_spot, other_kind, VerdictUnit,
  no_unit, confirm, record_locations_inspected, write_residue_note, other_unit, UnitPayload,
  kind_text, unit_text, verdict_text, validate_attestation, validate_attestation_tier2, check_kind,
  check_verdict, check_unit,
}

-- `jsonlRecord`
pub record JsonlRecord : Type 0 where
  pub id : String
  pub kind : String
  pub arrow_id : String
  pub clause_id : String
  pub op_id : String
  pub attested_by_role : String
  pub source_role : String
  pub target_role : String
  pub verdict : String
  pub reason : String
  pub timestamp : ℤ
  pub grid_version : ℕ
  pub pass_id : String
  pub context : String
  pub stratum : String
  pub adversary_role : String
  pub unit : String
  pub unit_payload_json : String
  pub hint_json : String

-- `newJsonlRecord`
unfoldable pub new_jsonl_record : AttestationRecord → JsonlRecord
new_jsonl_record r = record {
  id = r.id;
  kind = kind_text r.kind;
  arrow_id = r.arrow_id;
  clause_id = r.clause_id;
  op_id = r.op_id;
  attested_by_role = r.attested_by_role;
  source_role = r.source_role;
  target_role = r.target_role;
  verdict = verdict_text r.verdict;
  reason = r.reason;
  timestamp = r.timestamp;
  grid_version = r.grid_version;
  pass_id = r.pass_id;
  context = r.context;
  stratum = r.stratum;
  adversary_role = r.adversary_role;
  unit = unit_text r.unit;
  unit_payload_json = r.unit_payload_json;
  hint_json = r.hint_json;
}

-- The conversions of a text to the three string types.
unfoldable pub kind_of_text : String → AttestationKind
kind_of_text s =
    if s == "depth-type"
    then depth_type
    else if s == "on-the-spot"
    then on_the_spot
    else other_kind s

unfoldable pub verdict_of_text : String → AttestationVerdict
verdict_of_text s =
    if s == "pass"
    then pass
    else if s == "fail"
    then fail
    else if s == "insufficient-basis"
    then insufficient_basis
    else other s

unfoldable pub unit_of_text : String → VerdictUnit
unit_of_text s =
    if s == ""
    then no_unit
    else if s == "confirm"
    then confirm
    else if s == "record-locations-inspected"
    then record_locations_inspected
    else if s == "write-residue-note"
    then write_residue_note
    else other_unit s

-- `json.Unmarshal` of a payload, into an empty one.
abbrev pub PayloadReader : Type 0
PayloadReader = String → UnitPayload

abbrev pub empty_payload : UnitPayload
empty_payload = record { inspected = []; residue = "" }

-- The typed payload of a record that is read from a file.
unfoldable pub payload_of : PayloadReader → String → UnitPayload
payload_of read_payload json = if json == "" then empty_payload else read_payload json

-- `jsonlRecordToAttRec`
unfoldable pub jsonl_record_to_att_rec : PayloadReader → JsonlRecord → AttestationRecord
unfolding kind_of_text verdict_of_text unit_of_text payload_of
jsonl_record_to_att_rec read_payload w = record {
  id = w.id;
  kind = kind_of_text w.kind;
  arrow_id = w.arrow_id;
  clause_id = w.clause_id;
  op_id = w.op_id;
  attested_by_role = w.attested_by_role;
  source_role = w.source_role;
  target_role = w.target_role;
  verdict = verdict_of_text w.verdict;
  reason = w.reason;
  timestamp = w.timestamp;
  grid_version = w.grid_version;
  pass_id = w.pass_id;
  context = w.context;
  stratum = w.stratum;
  adversary_role = w.adversary_role;
  unit = unit_of_text w.unit;
  unit_payload = payload_of read_payload w.unit_payload_json;
  unit_payload_json = w.unit_payload_json;
  hint_json = w.hint_json;
}

pub kind-back :
    (k : AttestationKind) (clause_id : String)
    → check_kind k clause_id ≡ ok tt
    → kind_of_text (kind_text k) ≡ k
unfolding check_kind kind_of_text
kind-back depth_type clause_id h = refl
kind-back on_the_spot clause_id h = refl
kind-back (other_kind s) clause_id h = cc

pub verdict-back :
    (v : AttestationVerdict) → check_verdict v ≡ ok tt → verdict_of_text (verdict_text v) ≡ v
unfolding check_verdict verdict_of_text
verdict-back pass h = refl
verdict-back fail h = refl
verdict-back insufficient_basis h = refl
verdict-back (other s) h = cc

unit-back :
    (u : VerdictUnit) (p : UnitPayload) (max : ℤ)
    → check_unit u p max ≡ ok tt
    → unit_of_text (unit_text u) ≡ u
unfolding check_unit unit_of_text
unit-back no_unit p max h = refl
unit-back confirm p max h = refl
unit-back record_locations_inspected p max h = refl
unit-back write_residue_note p max h = refl
unit-back (other_unit s) p max h = cc

pub checked_kind :
    (rules : Rules) (r : AttestationRecord)
    → validate_attestation rules r ≡ ok tt
    → check_kind r.kind r.clause_id ≡ ok tt
unfolding validate_attestation
checked_kind rules r h = ground (arith, h)

pub checked_verdict :
    (rules : Rules) (r : AttestationRecord)
    → validate_attestation rules r ≡ ok tt
    → check_verdict r.verdict ≡ ok tt
unfolding validate_attestation
checked_verdict rules r h = ground (arith, h)

pub checked_unit :
    (rules : Rules) (r : AttestationRecord) (max : ℤ)
    → validate_attestation_tier2 rules r max ≡ ok tt
    → check_unit r.unit r.unit_payload max ≡ ok tt
unfolding validate_attestation_tier2
checked_unit rules r max h = ground (arith, h)

-- A record that passes the checks of `Record`, and whose typed payload is the one that its text
-- stands for, is the same after it was written and read.
pub jsonl_record_to_att_rec-new_jsonl_record :
    (rules : Rules) (read_payload : PayloadReader) (max : ℤ) (r : AttestationRecord)
    → validate_attestation rules r ≡ ok tt
    → validate_attestation_tier2 rules r max ≡ ok tt
    → payload_of read_payload r.unit_payload_json ≡ r.unit_payload
    → jsonl_record_to_att_rec read_payload (new_jsonl_record r) ≡ r
unfolding jsonl_record_to_att_rec new_jsonl_record
jsonl_record_to_att_rec-new_jsonl_record rules read_payload max r v t p =
    let k = kind-back r.kind r.clause_id (checked_kind rules r v) in
    let d = verdict-back r.verdict (checked_verdict rules r v) in
    let u = unit-back r.unit r.unit_payload max (checked_unit rules r max t) in
    λ i. record r { kind = k i; verdict = d i; unit = u i; unit_payload = p i }

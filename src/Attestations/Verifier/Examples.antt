-- ===== src/Attestations/Verifier/Examples.antt =====
-- A file with one verdict, and a verdict without a time.
use ghyll.Base.{
  ◌++◌, ◌+◌, map, trim_space, pos, String, ◌≡◌, refl, true, none, some, List, [], ◌∷◌, ◌==◌,
  string_key, ok, if◌then◌else◌, int_leb, split_lines, is_blank,
}
use ghyll.Basis.{fail}
use ghyll.Attestations.{
  Rules, AttestationRecord, on_the_spot, no_unit, validate_attestation, validate_attestation_tier2,
}
use ghyll.Attestations.Store.{new_attestation_store}
use ghyll.Attestations.Wire.{empty_payload, new_jsonl_record}
use ghyll.Attestations.Loading.{Json, Opened, opened, load_from_jsonl}
use ghyll.Attestations.Verifier.{PayloadParser, Scanner, timestamp_not_positive, check_line, verify}
use ghyll.Attestations.Verifier.Loads.{unterminated, records_in, verify-load_from_jsonl}
use ghyll.Attestations.Verifier.Written.{check_line-new_jsonl_record}

abbrev plain_rules : Rules
plain_rules = record { equal_fold = λ s t. s == t; is_json_object = λ s. true }

abbrev spoken : AttestationRecord
spoken = record {
  id = "att-a1-v3";
  kind = on_the_spot;
  arrow_id = "a1";
  clause_id = "";
  op_id = "op";
  attested_by_role = "architect";
  source_role = "analyst";
  target_role = "implementer";
  verdict = fail;
  reason = "too thin";
  timestamp = pos 10;
  grid_version = 3;
  pass_id = "p1";
  context = "billing";
  stratum = "2";
  adversary_role = "";
  unit = no_unit;
  unit_payload = empty_payload;
  unit_payload_json = "";
  hint_json = "";
}

-- Every line is read as one verdict.
abbrev one_json : Json
one_json = record {
  marshal = λ w. w.id;
  unmarshal = λ s. some (new_jsonl_record spoken);
  read_payload = λ s. empty_payload;
}

abbrev no_payload : PayloadParser
no_payload s = none

abbrev audit : Opened
audit = record { text = "{}\n# note\n{"; ending = none }

abbrev audit_lines : List String
audit_lines = "{}" ∷ "# note" ∷ []

audit_split : split_lines audit.text ≡ (audit_lines, "{")
unfolding split_lines
audit_split = refl

-- The lines of the text, the last one with or without a line break.
abbrev scan_text : Scanner
scan_text file =
    let (lines, rest) = split_lines file.text in (lines ++ unterminated rest, file.ending)

audit_yields : map trim_space (scan_text audit).0 ≡ map trim_space (audit_lines ++ unterminated "{")
unfolding split_lines
audit_yields = refl

audit_clean : (verify plain_rules one_json no_payload scan_text audit).0.failed ≡ 0
unfolding verify is_blank new_jsonl_record split_lines
audit_clean = refl

verify-load_from_jsonl_example :
    let l = load_from_jsonl plain_rules one_json new_attestation_store (opened audit) true in
    (l.failed ≡ none)
    × (l.loaded + records_in "{"
        ≡ (verify plain_rules one_json no_payload scan_text audit).0.passed)
    × (l.truncated ≡ true)
verify-load_from_jsonl_example =
    verify-load_from_jsonl plain_rules one_json no_payload scan_text new_attestation_store audit
      true audit_lines "{" audit_split refl audit_yields audit_clean

spoken_checked : validate_attestation plain_rules spoken ≡ ok tt
unfolding validate_attestation is_blank
spoken_checked = refl

spoken_checked2 : validate_attestation_tier2 plain_rules spoken (pos 0) ≡ ok tt
unfolding validate_attestation_tier2 is_blank
spoken_checked2 = refl

check_line-new_jsonl_record_example :
    check_line plain_rules one_json no_payload (one_json.marshal (new_jsonl_record spoken))
    ≡ (if int_leb (pos 10) (pos 0) then timestamp_not_positive ∷ [] else [])
check_line-new_jsonl_record_example =
    check_line-new_jsonl_record plain_rules spoken (pos 0) one_json no_payload refl spoken_checked
      spoken_checked2 refl

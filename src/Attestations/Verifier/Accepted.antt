-- ===== src/Attestations/Verifier/Accepted.antt =====
-- A line without issues holds a record that the checks of the store accept.
use ghyll.Base.{
  ◌+◌, pos, String, ◌≡◌, inl, inr, refl, sym, ap, ◌∙◌, Option, none, some, [], ◌++◌, ◌>>◌, ok,
  string_key, if◌then◌else◌, int_leb, is_blank, trim_space, has_text, Bool-cases,
}
use ghyll.Attestations.{Rules, UnitPayload, check_apart, check_roles, validate_attestation}
use ghyll.Attestations.Wire.{
  JsonlRecord, PayloadReader, kind_of_text, verdict_of_text, jsonl_record_to_att_rec,
}
use ghyll.Attestations.Store.{record_replay}
use ghyll.Attestations.Loading.{Json, Loaded, load_parsed, take_line}
use ghyll.Attestations.Verifier.{
  id_missing, op_missing, role_missing, timestamp_not_positive, attested_by_source,
  attested_by_target, adversary_is_source, adversary_is_target, adversary_has_separator, note,
  kind_issues, verdict_issues, is_side, field_issues, adversary_issues, role_issues, record_issues,
  PayloadParser, check_parsed,
}
use ghyll.Attestations.Verifier.Reasons.{
  none_left, unnoted, kind_issues_iff, verdict_issues_iff, then_ok, unrefused, is_side_iff,
}

module _ (rules : Rules) where
  adversary_issues-check_apart :
      (w : JsonlRecord)
      → adversary_issues rules w ≡ []
      → (if is_blank w.adversary_role
          then ok tt
          else check_apart rules w.adversary_role w.source_role
            >> check_apart rules w.adversary_role w.target_role)
        ≡ ok tt
  unfolding adversary_issues
  adversary_issues-check_apart w h = elim (Bool-cases (is_blank w.adversary_role)) [
    | inl e ↦ rw e refl
    | inr e ↦
        let noted =
          note (is_side rules w.adversary_role w.source_role) adversary_is_source
          ++ note (is_side rules w.adversary_role w.target_role) adversary_is_target in
        let separator =
          note (has_text (trim_space w.adversary_role) "__") adversary_has_separator in
        let (k, h3) =
          none_left noted separator (sym (ap (λ b. if b then [] else noted ++ separator) e) ∙ h) in
        let (h1, h2) =
          none_left (note (is_side rules w.adversary_role w.source_role) adversary_is_source)
            (note (is_side rules w.adversary_role w.target_role) adversary_is_target) k in
        rw e (
          then_ok _ _ ((is_side_iff rules w.adversary_role w.source_role).0 (unnoted _ _ h1))
            ((is_side_iff rules w.adversary_role w.target_role).0 (unnoted _ _ h2)))
  ]

  role_issues-check_roles :
      (read : PayloadReader) (w : JsonlRecord)
      → role_issues rules w ≡ []
      → check_roles rules (jsonl_record_to_att_rec read w) ≡ ok tt
  unfolding role_issues check_roles jsonl_record_to_att_rec
  role_issues-check_roles read w h =
      let source = note (is_side rules w.attested_by_role w.source_role) attested_by_source in
      let target = note (is_side rules w.attested_by_role w.target_role) attested_by_target in
      let (k, h3) = none_left (source ++ target) (adversary_issues rules w) h in
      let (h1, h2) = none_left source target k in
      then_ok _ _
        (then_ok _ _ ((is_side_iff rules w.attested_by_role w.source_role).0 (unnoted _ _ h1))
          ((is_side_iff rules w.attested_by_role w.target_role).0 (unnoted _ _ h2)))
        (adversary_issues-check_apart w h3)

  record_issues-validate_attestation :
      (parse : String → Option UnitPayload) (read : PayloadReader) (w : JsonlRecord)
      → record_issues rules parse w ≡ []
      → validate_attestation rules (jsonl_record_to_att_rec read w) ≡ ok tt
  unfolding record_issues validate_attestation jsonl_record_to_att_rec field_issues
  record_issues-validate_attestation parse read w h =
      let (k, tier2) = none_left (field_issues w ++ role_issues rules w) _ h in
      let (fields, roles) = none_left (field_issues w) _ k in
      let (k6, h7) = none_left _ (verdict_issues (verdict_of_text w.verdict)) fields in
      let (k5, h6) = none_left _ (kind_issues (kind_of_text w.kind) w.clause_id) k6 in
      let (k4, h5) = none_left _ (note (int_leb w.timestamp (pos 0)) timestamp_not_positive) k5 in
      let (k3, h4) = none_left _ (note (is_blank w.attested_by_role) role_missing) k4 in
      let (k2, h3) = none_left _ (note (is_blank w.op_id) op_missing) k3 in
      let (h1, h2) = none_left (note (is_blank w.id) id_missing) _ k2 in
      then_ok _ _
        (then_ok _ _
          (then_ok _ _
            (then_ok _ _
              (then_ok _ _
                (then_ok _ _ (unrefused _ _ (unnoted _ _ h1)) (unrefused _ _ (unnoted _ _ h2)))
                (unrefused _ _ (unnoted _ _ h3)))
              (unrefused _ _ (unnoted _ _ h4)))
            ((kind_issues_iff (kind_of_text w.kind) w.clause_id).0 h6))
          ((verdict_issues_iff (verdict_of_text w.verdict)).0 h7))
        (role_issues-check_roles read w roles)

  pub taken :
      (json : Json) (parse : PayloadParser) (l : Loaded) (o : Option JsonlRecord)
      → check_parsed rules parse o ≡ []
      → ((load_parsed rules json l o).failed ≡ l.failed)
        × ((load_parsed rules json l o).loaded ≡ l.loaded + 1)
  unfolding check_parsed load_parsed take_line record_replay
  taken json parse l none h = absurd cc
  taken json parse l (some w) h =
      let valid = record_issues-validate_attestation parse json.read_payload w h in
      rw valid (refl, refl)

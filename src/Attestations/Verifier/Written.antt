-- ===== src/Attestations/Verifier/Written.antt =====
-- The issues of a line that was written for a recorded verdict.
use ghyll.Base.{
  ℤ, pos, ◌≡◌, inl, inr, refl, ap, ◌∙◌, Bool, false, ◌&&◌, ◌||◌, not, some, List, [], ◌∷◌, arith,
  ◌++◌, ok, ◌==◌, string_key, if◌then◌else◌, int_leb, is_blank, trim_space, has_text, Bool-cases,
}
use ghyll.Attestations.{
  Rules, AttestationRecord, VerdictUnit, no_unit, confirm, record_locations_inspected,
  write_residue_note, other_unit, UnitPayload, check_roles, check_unit, validate_attestation,
  validate_attestation_tier2, unit_text,
}
use ghyll.Attestations.Wire.{
  unit_of_text, new_jsonl_record, kind-back, verdict-back, checked_kind, checked_verdict,
  checked_unit,
}
use ghyll.Attestations.Independence.{sides, parts}
use ghyll.Attestations.Loading.{Json}
use ghyll.Attestations.Verifier.{
  payload_issues, Reason, id_missing, arrow_missing, op_missing, role_missing,
  timestamp_not_positive, note, kind_issues, verdict_issues, unit_issues, field_issues,
  adversary_issues, role_issues, tier2_issues, record_issues, PayloadParser, check_parsed,
  check_line,
}
use ghyll.Attestations.Verifier.Reasons.{
  none_both, kind_issues_iff, verdict_issues_iff, is_side_iff,
}

quiet : (b : Bool) (reason : Reason) → b ≡ false → note b reason ≡ []
quiet b reason h = ap (λ c. note c reason) h

append-none : (xs : List Reason) → xs ++ [] ≡ xs
append-none [] = refl
append-none (x ∷ xs) = ap (λ l. x ∷ l) (append-none xs)

-- What is left where all that stands around it is empty.
only : (xs ys zs : List Reason) → xs ≡ [] → zs ≡ [] → (xs ++ ys) ++ zs ≡ ys
only xs ys zs h k = ap (λ l. (l ++ ys) ++ zs) h ∙ ap (λ l. ys ++ l) k ∙ append-none ys

unit_issues-back :
    (u : VerdictUnit) (p : UnitPayload) (max : ℤ)
    → check_unit u p max ≡ ok tt
    → unit_issues (unit_of_text (unit_text u)) ≡ []
unfolding check_unit unit_issues unit_of_text
unit_issues-back no_unit p max h = refl
unit_issues-back confirm p max h = refl
unit_issues-back record_locations_inspected p max h = refl
unit_issues-back write_residue_note p max h = refl
unit_issues-back (other_unit s) p max h = cc

module _ (rules : Rules) (r : AttestationRecord) (max : ℤ) where
  -- The roles of a record that passes the checks raise no issue.
  adversary_quiet :
      check_roles rules r ≡ ok tt
      → validate_attestation_tier2 rules r max ≡ ok tt
      → adversary_issues rules (new_jsonl_record r) ≡ []
  unfolding adversary_issues new_jsonl_record validate_attestation_tier2 is_blank
  adversary_quiet h t = elim (Bool-cases (is_blank r.adversary_role)) [
    | inl e ↦ rw e refl
    | inr e ↦
        let (_, _, source, target) = sides rules r h in
        let separate : has_text (trim_space r.adversary_role) "__" ≡ false = ground (arith, e, t) in
        rw e (
          none_both _ _
            (none_both _ _
              (quiet _ _ ((is_side_iff rules r.adversary_role r.source_role).1 (source e)))
              (quiet _ _ ((is_side_iff rules r.adversary_role r.target_role).1 (target e))))
            (quiet _ _ separate))
  ]

  roles_quiet :
      check_roles rules r ≡ ok tt
      → validate_attestation_tier2 rules r max ≡ ok tt
      → role_issues rules (new_jsonl_record r) ≡ []
  unfolding role_issues new_jsonl_record
  roles_quiet h t =
      let (source, target, _, _) = sides rules r h in
      none_both _ _
        (none_both _ _ (quiet _ _ ((is_side_iff rules r.attested_by_role r.source_role).1 source))
          (quiet _ _ ((is_side_iff rules r.attested_by_role r.target_role).1 target)))
        (adversary_quiet h t)

  fields_quiet :
      validate_attestation rules r ≡ ok tt
      → field_issues (new_jsonl_record r)
        ≡ note (int_leb r.timestamp (pos 0)) timestamp_not_positive
  unfolding field_issues new_jsonl_record validate_attestation
  fields_quiet v =
      let kinds =
        ap (λ k. kind_issues k r.clause_id) (kind-back r.kind r.clause_id (checked_kind rules r v))
        ∙ (kind_issues_iff r.kind r.clause_id).1 (checked_kind rules r v) in
      let verdicts =
        ap verdict_issues (verdict-back r.verdict (checked_verdict rules r v))
        ∙ (verdict_issues_iff r.verdict).1 (checked_verdict rules r v) in
      let id_given : is_blank r.id ≡ false = ground (arith, v) in
      let arrow_given : is_blank r.arrow_id ≡ false = ground (arith, v) in
      let op_given : is_blank r.op_id ≡ false = ground (arith, v) in
      let role_given : is_blank r.attested_by_role ≡ false = ground (arith, v) in
      let blanks =
        none_both _ _
          (none_both _ _
            (none_both _ _ (quiet _ id_missing id_given) (quiet _ arrow_missing arrow_given))
            (quiet _ op_missing op_given))
          (quiet _ role_missing role_given) in
      let late = note (int_leb r.timestamp (pos 0)) timestamp_not_positive in
      only _ _ _ refl verdicts ∙ only _ late _ blanks kinds

  unit_quiet :
      (parse : PayloadParser)
      → validate_attestation_tier2 rules r max ≡ ok tt
      → r.unit_payload_json ≡ ""
      → (if unit_text r.unit == ""
          then []
          else unit_issues (unit_of_text (unit_text r.unit))
            ++ (if r.unit_payload_json == ""
                then []
                else payload_issues (unit_of_text (unit_text r.unit)) (parse r.unit_payload_json)))
        ≡ []
  unit_quiet parse t plain = elim (Bool-cases (unit_text r.unit == "")) [
    | inl e ↦ rw e refl
    | inr e ↦
        rw (e, plain)
          (none_both _ _ (unit_issues-back r.unit r.unit_payload max (checked_unit rules r max t))
            refl)
  ]

  tier2_quiet :
      (parse : PayloadParser)
      → validate_attestation_tier2 rules r max ≡ ok tt
      → r.unit_payload_json ≡ ""
      → tier2_issues rules parse (new_jsonl_record r) ≡ []
  unfolding tier2_issues new_jsonl_record validate_attestation_tier2
  tier2_quiet parse t plain =
      let hint_fine : not (r.hint_json == "" || r.hint_json == "{}")
            && not (rules.is_json_object r.hint_json)
          ≡ false =
        ground (arith, t) in
      none_both _ _ (unit_quiet parse t plain) (quiet _ _ hint_fine)

  -- A verdict that passes the checks of `Record`, and has no payload in text, makes a line with no
  -- issue but one, which it has exactly if its timestamp is not positive: provided that the line is
  -- read as what was written.
  pub check_line-new_jsonl_record :
      (json : Json) (parse : PayloadParser)
      → json.unmarshal (json.marshal (new_jsonl_record r)) ≡ some (new_jsonl_record r)
      → validate_attestation rules r ≡ ok tt
      → validate_attestation_tier2 rules r max ≡ ok tt
      → r.unit_payload_json ≡ ""
      → check_line rules json parse (json.marshal (new_jsonl_record r))
        ≡ (if int_leb r.timestamp (pos 0) then timestamp_not_positive ∷ [] else [])
  unfolding check_line check_parsed record_issues
  check_line-new_jsonl_record json parse back v t plain =
      let (_, _, _, roles) = parts rules r v in
      ap (check_parsed rules parse) back
      ∙ ap
          (λ l.
            (field_issues (new_jsonl_record r) ++ l)
            ++ tier2_issues rules parse (new_jsonl_record r))
          (roles_quiet roles t)
      ∙ only _ _ _ refl (tier2_quiet parse t plain)
      ∙ append-none (field_issues (new_jsonl_record r))
      ∙ fields_quiet v

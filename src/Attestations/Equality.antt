-- ===== src/Attestations/Equality.antt =====
-- When two records count as one.
use mathlib.Core.List.Perm
use ghyll.Base.{
  suc, String, Bool, ◌≡◌, ◌↔◌, refl, ap, true, List, [], ◌∷◌, arith, eq_iff, nat_eq, nat_eq_iff,
  int_eq_iff, length, count_if, count_if-perm, Perm, same_texts, sort_by-same_texts, sort_by, ◌&&◌,
  string_key, int_key,
}
use ghyll.Attestations.{
  AttestationRecord, kind_text, unit_text, verdict_text, normal_hint, same_fields,
  sorted_slice_equal, attestation_records_equal,
}

-- The two records say the same: an empty hint is `{}`, and the order of the inspected places does
-- not count.
pub record SameRecord (a b : AttestationRecord) : Type 0 where
  pub ids : a.id ≡ b.id
  pub kinds : kind_text a.kind ≡ kind_text b.kind
  pub arrows : a.arrow_id ≡ b.arrow_id
  pub clauses : a.clause_id ≡ b.clause_id
  pub operators : a.op_id ≡ b.op_id
  pub attesters : a.attested_by_role ≡ b.attested_by_role
  pub sources : a.source_role ≡ b.source_role
  pub targets : a.target_role ≡ b.target_role
  pub verdicts : verdict_text a.verdict ≡ verdict_text b.verdict
  pub reasons : a.reason ≡ b.reason
  pub timestamps : a.timestamp ≡ b.timestamp
  pub grids : a.grid_version ≡ b.grid_version
  pub passes : a.pass_id ≡ b.pass_id
  pub contexts : a.context ≡ b.context
  pub strata : a.stratum ≡ b.stratum
  pub adversaries : a.adversary_role ≡ b.adversary_role
  pub units : unit_text a.unit ≡ unit_text b.unit
  pub payloads : a.unit_payload_json ≡ b.unit_payload_json
  pub hints : normal_hint a.hint_json ≡ normal_hint b.hint_json
  pub places : Perm a.unit_payload.inspected b.unit_payload.inspected
  pub residues : a.unit_payload.residue ≡ b.unit_payload.residue

and_left : (p q : Bool) → (p && q) ≡ true → p ≡ true
and_left p q h = ground arith

and_right : (p q : Bool) → (p && q) ≡ true → q ≡ true
and_right p q h = ground arith

and_true : (p q : Bool) → p ≡ true → q ≡ true → (p && q) ≡ true
and_true p q h k = ground arith

and_iff :
    {p q : Bool} {P Q : Type 0} → ((p ≡ true) ↔ P) → ((q ≡ true) ↔ Q) → ((p && q) ≡ true) ↔ (P × Q)
and_iff {p} {q} f g =
    (λ h. (f.0 (and_left p q h), g.0 (and_right p q h)), λ h. and_true p q (f.1 h.0) (g.1 h.1))

length-count : (xs : List String) → count_if (λ x. true) xs ≡ length xs
length-count [] = refl
length-count (x ∷ xs) = ap suc (length-count xs)

length-perm : (xs ys : List String) → Perm xs ys → nat_eq (length xs) (length ys) ≡ true
length-perm xs ys h =
    ground (arith, length-count xs, length-count ys, count_if-perm (λ (x : String). true) h)

-- The test finds two lists equal exactly when each is a rearrangement of the other.
pub sorted_slice_equal-perm : (xs ys : List String) → (sorted_slice_equal xs ys ≡ true) ↔ Perm xs ys
unfolding sorted_slice_equal
sorted_slice_equal-perm xs ys =
    let sorted = same_texts (sort_by (λ s. s) xs) (sort_by (λ s. s) ys) in
    (
      λ h. (sort_by-same_texts xs ys).0 (and_right (nat_eq (length xs) (length ys)) sorted h),
      λ h.
          and_true (nat_eq (length xs) (length ys)) sorted (length-perm xs ys h)
            ((sort_by-same_texts xs ys).1 h),
    )

-- What `same_fields` decides.
abbrev Fields : AttestationRecord → AttestationRecord → Type 0
Fields a b =
    (((((((((((((((((((a.id ≡ b.id) × (kind_text a.kind ≡ kind_text b.kind))
                                      × (a.arrow_id ≡ b.arrow_id))
                                    × (a.clause_id ≡ b.clause_id))
                                  × (a.op_id ≡ b.op_id))
                                × (a.attested_by_role ≡ b.attested_by_role))
                              × (a.source_role ≡ b.source_role))
                            × (a.target_role ≡ b.target_role))
                          × (verdict_text a.verdict ≡ verdict_text b.verdict))
                        × (a.reason ≡ b.reason))
                      × (a.timestamp ≡ b.timestamp))
                    × (a.grid_version ≡ b.grid_version))
                  × (a.pass_id ≡ b.pass_id))
                × (a.context ≡ b.context))
              × (a.stratum ≡ b.stratum))
            × (a.adversary_role ≡ b.adversary_role))
          × (unit_text a.unit ≡ unit_text b.unit))
        × (a.unit_payload_json ≡ b.unit_payload_json))
      × (normal_hint a.hint_json ≡ normal_hint b.hint_json))

same_fields_iff : (a b : AttestationRecord) → (same_fields a b ≡ true) ↔ Fields a b
unfolding same_fields
same_fields_iff a b =
    and_iff
      (and_iff
        (and_iff
          (and_iff
            (and_iff
              (and_iff
                (and_iff
                  (and_iff
                    (and_iff
                      (and_iff
                        (and_iff
                          (and_iff
                            (and_iff
                              (and_iff
                                (and_iff
                                  (and_iff
                                    (and_iff
                                      (and_iff (eq_iff a.id b.id)
                                        (eq_iff (kind_text a.kind) (kind_text b.kind)))
                                      (eq_iff a.arrow_id b.arrow_id))
                                    (eq_iff a.clause_id b.clause_id))
                                  (eq_iff a.op_id b.op_id))
                                (eq_iff a.attested_by_role b.attested_by_role))
                              (eq_iff a.source_role b.source_role))
                            (eq_iff a.target_role b.target_role))
                          (eq_iff (verdict_text a.verdict) (verdict_text b.verdict)))
                        (eq_iff a.reason b.reason))
                      (int_eq_iff a.timestamp b.timestamp))
                    (nat_eq_iff a.grid_version b.grid_version))
                  (eq_iff a.pass_id b.pass_id))
                (eq_iff a.context b.context))
              (eq_iff a.stratum b.stratum))
            (eq_iff a.adversary_role b.adversary_role))
          (eq_iff (unit_text a.unit) (unit_text b.unit)))
        (eq_iff a.unit_payload_json b.unit_payload_json))
      (eq_iff (normal_hint a.hint_json) (normal_hint b.hint_json))

to_same :
    (a b : AttestationRecord)
    → Fields a b
    → Perm a.unit_payload.inspected b.unit_payload.inspected
    → a.unit_payload.residue ≡ b.unit_payload.residue
    → SameRecord a b
to_same a b
      (
        (
          (
            (
              (
                (
                  (
                    (
                      (
                        (
                          (
                            (
                              (
                                (((((ids, kinds), arrows), clauses), operators), attesters),
                                sources,
                              ),
                              targets,
                            ),
                            verdicts,
                          ),
                          reasons,
                        ),
                        timestamps,
                      ),
                      grids,
                    ),
                    passes,
                  ),
                  contexts,
                ),
                strata,
              ),
              adversaries,
            ),
            units,
          ),
          payloads,
        ),
        hints,
      )
      places residues =
    record {
      ids = ids;
      kinds = kinds;
      arrows = arrows;
      clauses = clauses;
      operators = operators;
      attesters = attesters;
      sources = sources;
      targets = targets;
      verdicts = verdicts;
      reasons = reasons;
      timestamps = timestamps;
      grids = grids;
      passes = passes;
      contexts = contexts;
      strata = strata;
      adversaries = adversaries;
      units = units;
      payloads = payloads;
      hints = hints;
      places = places;
      residues = residues;
    }

to_fields : (a b : AttestationRecord) → SameRecord a b → Fields a b
to_fields a b h = (
  (
    (
      (
        (
          (
            (
              (
                (
                  (
                    (
                      (
                        (
                          (((((h.ids, h.kinds), h.arrows), h.clauses), h.operators), h.attesters),
                          h.sources,
                        ),
                        h.targets,
                      ),
                      h.verdicts,
                    ),
                    h.reasons,
                  ),
                  h.timestamps,
                ),
                h.grids,
              ),
              h.passes,
            ),
            h.contexts,
          ),
          h.strata,
        ),
        h.adversaries,
      ),
      h.units,
    ),
    h.payloads,
  ),
  h.hints,
)

-- The test holds exactly when the two records say the same: every field is the same, an empty hint
-- counting as `{}`, the types of records, verdicts and units by their texts, and the inspected
-- places in any order.
pub attestation_records_equal_iff :
    (a b : AttestationRecord) → (attestation_records_equal a b ≡ true) ↔ SameRecord a b
unfolding attestation_records_equal
attestation_records_equal_iff a b =
    let xs = a.unit_payload.inspected in
    let ys = b.unit_payload.inspected in
    let tests =
      and_iff
        (and_iff (and_iff (same_fields_iff a b) (nat_eq_iff (length xs) (length ys)))
          (sorted_slice_equal-perm xs ys))
        (eq_iff a.unit_payload.residue b.unit_payload.residue) in
    (
      λ h. let t = tests.0 h in to_same a b t.0.0.0 t.0.1 t.1,
      λ h. tests.1 (
        (
          (to_fields a b h, (nat_eq_iff (length xs) (length ys)).0 (length-perm xs ys h.places)),
          h.places,
        ),
        h.residues,
      ),
    )

pub attestation_records_equal_refl : (a : AttestationRecord) → attestation_records_equal a a ≡ true
attestation_records_equal_refl a = (attestation_records_equal_iff a a).1 (record {
  ids = refl;
  kinds = refl;
  arrows = refl;
  clauses = refl;
  operators = refl;
  attesters = refl;
  sources = refl;
  targets = refl;
  verdicts = refl;
  reasons = refl;
  timestamps = refl;
  grids = refl;
  passes = refl;
  contexts = refl;
  strata = refl;
  adversaries = refl;
  units = refl;
  payloads = refl;
  hints = refl;
  places = Perm.refl a.unit_payload.inspected;
  residues = refl;
})

-- ===== src/Attestations/Outcomes.antt =====
-- What one call of `Record` does.
use ghyll.Base.{
  ℕ, zero, suc, String, ◌≡◌, ◌≢◌, sym, ap, subst, ◌∙◌, ◌⊎◌, inl, inr, refl, true, Option, none,
  some, List, [], ◌∷◌, arith, eq_iff, string_key, ok, err, ◌>>◌, Bool-cases,
}
use ghyll.Base.Map.{lookup, lookup-insert}
use ghyll.Attestations.{
  Rules, AttestationRecord, AttestationError, duplicate, audit_write_failed, Check,
  validate_attestation, validate_attestation_tier2, attestation_records_equal,
}
use ghyll.Attestations.Equality.{
  SameRecord, attestation_records_equal_iff, attestation_records_equal_refl,
}
use ghyll.Attestations.Store.{
  AttestationStore, AttestationEffect, wrote, write_failed, notified, PrimaryWriter, Recorded,
  put_record, accept, accept_written, write_first, record_new, record_checked, record_attestation,
  lookup_attestation, notices,
}

-- The records that the audit writer took.
abbrev pub written : List AttestationEffect → List AttestationRecord
written [] = []
written (wrote r ∷ es) = r ∷ written es
written (write_failed r ∷ es) = written es
written (notified r ∷ es) = written es

-- What the writer, if there is one, has of an accepted record.
abbrev pub audited : Option PrimaryWriter → AttestationRecord → List AttestationRecord
audited none r = []
audited (some w) r = r ∷ []

written-notices : (n : ℕ) (r : AttestationRecord) → written (notices n r) ≡ []
written-notices zero r = refl
written-notices (suc n) r = written-notices n r

-- The store is as before and nothing happened outside, or the writer failed on a new record and
-- nothing else happened, or the record is new and was put.
pub data Outcome (s : AttestationStore) (r : AttestationRecord) (x : Recorded) : Type 0 where
  known :
      (held : AttestationRecord)
      → lookup r.id s.by_id ≡ some held
      → attestation_records_equal held r ≡ true
      → x ≡ record { failed = none; store = s; effects = [] }
      → Outcome s r x
  refused :
      (e : AttestationError)
      → x ≡ record { failed = some e; store = s; effects = [] }
      → Outcome s r x
  unwritten :
      (w : PrimaryWriter) (m : String)
      → s.primary_writer ≡ some w
      → w r ≡ some m
      → x
        ≡ record { failed = some (audit_write_failed m); store = s; effects = write_failed r ∷ [] }
      → Outcome s r x
  stored :
      lookup r.id s.by_id ≡ none
      → x.failed ≡ none
      → x.store ≡ put_record s r
      → written x.effects ≡ audited s.primary_writer r
      → Outcome s r x

accept_written-Outcome :
    (s : AttestationStore) (r : AttestationRecord) (w : PrimaryWriter) (answer : Option String)
    → lookup r.id s.by_id ≡ none
    → s.primary_writer ≡ some w
    → w r ≡ answer
    → Outcome s r (accept_written s r answer)
unfolding accept_written accept
accept_written-Outcome s r w none free e a =
    stored free refl refl (ground (arith, e, written-notices s.observers r))
accept_written-Outcome s r w (some m) free e a = unwritten w m e a refl

write_first-Outcome :
    (s : AttestationStore) (r : AttestationRecord) (w : Option PrimaryWriter)
    → lookup r.id s.by_id ≡ none
    → s.primary_writer ≡ w
    → Outcome s r (write_first s r w)
unfolding write_first accept
write_first-Outcome s r none free e =
    stored free refl refl (ground (arith, e, written-notices s.observers r))
write_first-Outcome s r (some w) free e = accept_written-Outcome s r w (w r) free e refl

record_new-Outcome :
    (s : AttestationStore) (r : AttestationRecord) (o : Option AttestationRecord)
    → lookup r.id s.by_id ≡ o
    → Outcome s r (record_new s r o)
unfolding record_new
record_new-Outcome s r none e = write_first-Outcome s r s.primary_writer e refl
record_new-Outcome s r (some held) e = elim (Bool-cases (attestation_records_equal held r)) [
  | inl same ↦ known held e same (rw same refl)
  | inr differs ↦ refused duplicate (rw differs refl)
]

-- What a call that was not accepted leaves.
record_checked-Outcome :
    (s : AttestationStore) (r : AttestationRecord) (c : Check)
    → ((c ≡ ok tt) × Outcome s r (record_checked s r c))
      ⊎ ((e : AttestationError) × (record_checked s r c
            ≡ record { failed = some e; store = s; effects = [] }))
unfolding record_checked
record_checked-Outcome s r (ok tt) = inl (refl, record_new-Outcome s r (lookup r.id s.by_id) refl)
record_checked-Outcome s r (err e) = inr (e, refl)

>>-left : (c d : Check) → (c >> d) ≡ ok tt → c ≡ ok tt
>>-left (ok tt) d h = refl
>>-left (err e) d h = cc

>>-right : (c d : Check) → (c >> d) ≡ ok tt → d ≡ ok tt
>>-right (ok tt) d h = h
>>-right (err e) d h = cc

-- The record passes both sets of checks.
pub record Passes (rules : Rules) (s : AttestationStore) (r : AttestationRecord) : Type 0 where
  pub plain : validate_attestation rules r ≡ ok tt
  pub tier2 : validate_attestation_tier2 rules r s.residue_note_max_bytes ≡ ok tt

pub record_attestation-Outcome :
    (rules : Rules) (s : AttestationStore) (r : AttestationRecord)
    → (Passes rules s r × Outcome s r (record_attestation rules s r))
      ⊎ ((e : AttestationError) × (record_attestation rules s r
            ≡ record { failed = some e; store = s; effects = [] }))
unfolding record_attestation
record_attestation-Outcome rules s r =
    let plain = validate_attestation rules r in
    let tier2 = validate_attestation_tier2 rules r s.residue_note_max_bytes in
    elim (record_checked-Outcome s r (plain >> tier2)) [
      | inl (valid, out) ↦
          inl
            (record { plain = >>-left plain tier2 valid; tier2 = >>-right plain tier2 valid }, out)
      | inr (e, h) ↦ inr (e, h)
    ]

-- What a call of `Record` leaves in the store and answers.
pub record Kept (s : AttestationStore) (r : AttestationRecord) (x : Recorded) : Type 0 where
  -- After a success the id leads to a record that says the same.
  pub found :
      x.failed ≡ none
      → (held : AttestationRecord) × (lookup_attestation x.store r.id ≡ some held)
        × SameRecord held r
  -- After an error nothing has changed, and nothing happened but that the writer failed.
  pub untouched :
      (e : AttestationError)
      → x.failed ≡ some e
      → (x.store ≡ s)
        × ((x.effects ≡ [])
            ⊎ ((w : PrimaryWriter) × (m : String) × (s.primary_writer ≡ some w)
                × (w r ≡ some m)
                × (e ≡ audit_write_failed m)
                × (x.effects ≡ write_failed r ∷ [])))
  -- What was there is there.
  pub immutable :
      (j : String) (held : AttestationRecord)
      → lookup_attestation s j ≡ some held
      → lookup_attestation x.store j ≡ some held
  -- No other id is touched.
  pub local : (j : String) → r.id ≢ j → lookup_attestation x.store j ≡ lookup_attestation s j

put-own :
    (s : AttestationStore) (r : AttestationRecord)
    → lookup_attestation (put_record s r) r.id ≡ some r
unfolding lookup_attestation put_record
put-own s r = ground (arith, lookup-insert r.id r.id r s.by_id, eq_iff r.id r.id)

put-other :
    (s : AttestationStore) (r : AttestationRecord) (j : String)
    → r.id ≢ j
    → lookup_attestation (put_record s r) j ≡ lookup_attestation s j
unfolding lookup_attestation put_record
put-other s r j n = ground (arith, lookup-insert r.id j r s.by_id, eq_iff r.id j, n)

put-old :
    (s : AttestationStore) (r : AttestationRecord) (j : String) (held : AttestationRecord)
    → lookup r.id s.by_id ≡ none
    → lookup_attestation s j ≡ some held
    → lookup_attestation (put_record s r) j ≡ some held
unfolding lookup_attestation put_record
put-old s r j held free h = ground (arith, lookup-insert r.id j r s.by_id, eq_iff r.id j, free, h)

unchanged-Kept :
    (s : AttestationStore) (r : AttestationRecord) (e : AttestationError)
    → Kept s r (record { failed = some e; store = s; effects = [] })
unchanged-Kept s r e = record {
  found = λ h. cc;
  untouched = λ f h. (refl, inl refl);
  immutable = λ j held h. h;
  local = λ j n. refl;
}

some-error : (e f : AttestationError) → ◌≡◌ {A = Option AttestationError} (some f) (some e) → e ≡ f
some-error e f h = cc

Outcome-Kept :
    (s : AttestationStore) (r : AttestationRecord) (x : Recorded) → Outcome s r x → Kept s r x
unfolding lookup_attestation
Outcome-Kept s r x (known held at same e) = subst (Kept s r) (sym e) (record {
  found = λ h. (held, at, (attestation_records_equal_iff held r).0 same);
  untouched = λ f h. cc;
  immutable = λ j h k. k;
  local = λ j n. refl;
})
Outcome-Kept s r x (refused f e) = subst (Kept s r) (sym e) (unchanged-Kept s r f)
Outcome-Kept s r x (unwritten w m e a h) = subst (Kept s r) (sym h) (record {
  found = λ f. cc;
  untouched = λ f k. (refl, inr (w, m, e, a, some-error f (audit_write_failed m) k, refl));
  immutable = λ j held k. k;
  local = λ j n. refl;
})
Outcome-Kept s r x (stored free done e w) = record {
  found = λ h. (
    r,
    ap (λ t. lookup_attestation t r.id) e ∙ put-own s r,
    (attestation_records_equal_iff r r).0 (attestation_records_equal_refl r),
  );
  untouched = λ f h. absurd (ground (arith, h, done));
  immutable = λ j held h. ap (λ t. lookup_attestation t j) e ∙ put-old s r j held free h;
  local = λ j n. ap (λ t. lookup_attestation t j) e ∙ put-other s r j n;
}

-- After `Record`: if it succeeded, the id leads to a record that says what was recorded; if not,
-- the store is as before, no observer was told, and the writer was not asked, or it was asked for
-- this record and its error is the one that is returned, which does not say what it left in its
-- file; each record that was in the store is there unchanged; and no other id is touched.
pub record_attestation-Kept :
    (rules : Rules) (s : AttestationStore) (r : AttestationRecord)
    → Kept s r (record_attestation rules s r)
record_attestation-Kept rules s r = elim (record_attestation-Outcome rules s r) [
  | inl (v, out) ↦ Outcome-Kept s r (record_attestation rules s r) out
  | inr (e, h) ↦ subst (Kept s r) (sym h) (unchanged-Kept s r e)
]

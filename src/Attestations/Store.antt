-- ===== src/Attestations/Store.antt =====
-- runner/attestationstore.go: the store of verdicts.
use ghyll.Base.{
  ℕ, ◌+◌, ◌%◌, ◌^◌, ℤ, pos, String, Option, none, some, List, [], ◌∷◌, ◌++◌, Result, ok, err, ◌>>◌,
  ◌==◌, string_key, if◌then◌else◌, int_ltb, select, map, length,
}
use ghyll.Base.Map.{Map, lookup, insert}
use ghyll.Attestations.{
  Rules, AttestationRecord, AttestationError, duplicate, audit_write_failed, Check,
  validate_attestation, validate_attestation_tier2, attestation_records_equal,
}

-- The audit writer: the error that it answers with, if any.
abbrev pub PrimaryWriter : Type 0
PrimaryWriter = AttestationRecord → Option String

-- `AttestationStore`; of the observers their number matters.
pub record AttestationStore : Type 0 where
  pub by_id : Map String AttestationRecord
  pub version : ℕ
  pub observers : ℕ
  pub primary_writer : Option PrimaryWriter
  pub residue_note_max_bytes : ℤ

-- `NewAttestationStore`
unfoldable pub new_attestation_store : AttestationStore
new_attestation_store = record {
  by_id = [];
  version = 0;
  observers = 0;
  primary_writer = none;
  residue_note_max_bytes = pos 0;
}

-- What a call does outside the store: the writer has taken a record, or has answered with an error,
-- whatever it has left of the record by then, or an observer has seen the record (`AttestationEvent`,
-- whose one kind is `record`).
pub data AttestationEffect : Type 0 where
  wrote write_failed : AttestationRecord → AttestationEffect
  notified : AttestationRecord → AttestationEffect

-- What `Record` returns, the store, and the effects in their order.
pub record Recorded : Type 0 where
  pub failed : Option AttestationError
  pub store : AttestationStore
  pub effects : List AttestationEffect

-- `Observe`
unfoldable pub observe : AttestationStore → AttestationStore
observe s = record s { observers = s.observers + 1 }

-- `SetPrimaryWriter`
unfoldable pub set_primary_writer : AttestationStore → Option PrimaryWriter → AttestationStore
set_primary_writer s w = record s { primary_writer = w }

-- `SetResidueNoteMaxBytes`
unfoldable pub set_residue_note_max_bytes : AttestationStore → ℤ → AttestationStore
set_residue_note_max_bytes s n = record s { residue_note_max_bytes = n }

-- `s.byID[rec.ID] = rec; s.version++`
unfoldable pub put_record : AttestationStore → AttestationRecord → AttestationStore
put_record s r = record s { by_id = insert r.id r s.by_id; version = (s.version + 1) % 2 ^ 64 }

abbrev pub notices : ℕ → AttestationRecord → List AttestationEffect
notices ℕ.zero r = []
notices (ℕ.suc n) r = notified r ∷ notices n r

unfoldable pub accept : AttestationStore → AttestationRecord → List AttestationEffect → Recorded
unfolding put_record
accept s r written = record {
  failed = none;
  store = put_record s r;
  effects = written ++ notices s.observers r;
}

-- The writer's answer decides.
unfoldable pub accept_written : AttestationStore → AttestationRecord → Option String → Recorded
unfolding accept
accept_written s r none = accept s r (wrote r ∷ [])
accept_written s r (some e) = record {
  failed = some (audit_write_failed e);
  store = s;
  effects = write_failed r ∷ [];
}

-- The audit writer is asked first.
unfoldable pub write_first : AttestationStore → AttestationRecord → Option PrimaryWriter → Recorded
unfolding accept accept_written
write_first s r none = accept s r []
write_first s r (some w) = accept_written s r (w r)

-- A record with the id may be there already.
unfoldable pub record_new :
    AttestationStore → AttestationRecord → Option AttestationRecord → Recorded
unfolding write_first
record_new s r (some existing) = record {
  failed = if attestation_records_equal existing r then none else some duplicate;
  store = s;
  effects = [];
}
record_new s r none = write_first s r s.primary_writer

unfoldable pub record_checked : AttestationStore → AttestationRecord → Check → Recorded
unfolding record_new
record_checked s r (err e) = record { failed = some e; store = s; effects = [] }
record_checked s r (ok u) = record_new s r (lookup r.id s.by_id)

-- `Record`
unfoldable pub record_attestation : Rules → AttestationStore → AttestationRecord → Recorded
unfolding record_checked
record_attestation rules s r =
    record_checked s r
      (validate_attestation rules r >> validate_attestation_tier2 rules r s.residue_note_max_bytes)

unfoldable pub replay_known :
    AttestationStore → AttestationRecord → Option AttestationRecord → AttestationStore
unfolding put_record
replay_known s r none = put_record s r
replay_known s r (some existing) =
    if attestation_records_equal existing r
    then s
    else if int_ltb existing.timestamp r.timestamp
    then put_record s r
    else s

-- `recordReplay`
unfoldable pub record_replay :
    Rules → AttestationStore → AttestationRecord → Result AttestationError AttestationStore
unfolding replay_known
record_replay rules s r =
    validate_attestation rules r >> ok (replay_known s r (lookup r.id s.by_id))

-- `Lookup`
unfoldable pub lookup_attestation : AttestationStore → String → Option AttestationRecord
lookup_attestation s id = lookup id s.by_id

-- `All`
unfoldable pub all_attestations : AttestationStore → List AttestationRecord
all_attestations s = map (λ (e : String × AttestationRecord). e.1) s.by_id

-- `ForArrow`
unfoldable pub for_arrow : AttestationStore → String → List AttestationRecord
unfolding all_attestations
for_arrow s arrow_id = select (λ r. r.arrow_id == arrow_id) (all_attestations s)

-- `Len`
unfoldable pub len_attestations : AttestationStore → ℕ
len_attestations s = length s.by_id

-- ===== src/Attestations/Examples.antt =====
-- Two verdicts on one arrow.
use ghyll.Base.{
  ℕ, zero, suc, ℤ, pos, ◌≤ℤ◌, String, ◌≡◌, ◌≢◌, ◌↔◌, refl, true, false, not, Option, none, some,
  List, [], ◌∷◌, arith, ok, ◌==◌, string_key, All, eq_iff, subst, length, is_blank, if◌then◌else◌,
  has_break, get_elem?,
}
use ghyll.Basis.{pass, fail}
use ghyll.Attestations.{
  Rules, AttestationRecord, on_the_spot, no_unit, attestation_records_equal, validate_attestation,
  validate_attestation_tier2,
}
use ghyll.Attestations.Equality.{
  SameRecord, attestation_records_equal_iff, attestation_records_equal_refl,
}
use ghyll.Attestations.Store.{
  AttestationStore, PrimaryWriter, new_attestation_store, set_primary_writer, record_attestation,
  lookup_attestation,
}
use ghyll.Attestations.Outcomes.{Kept, record_attestation-Kept}
use ghyll.Attestations.History.{StoreCall, recording, store_run, run_trail}
use ghyll.Attestations.Independence.{IsVouched, store_run-IsVouched}
use ghyll.Attestations.Trail.{SameContents, replay_all, run_trail-Rebuilds}
use ghyll.Attestations.Replaying.{Among, replay_all-latest, replay_all-order}
use ghyll.Attestations.Wire.{payload_of, empty_payload, new_jsonl_record}
use ghyll.Attestations.Truncation.{FileFaults, truncate_trailing_partial}
use ghyll.Attestations.Truncation.Laws.{Kept as CompleteLines, truncate_trailing_partial-Kept}
use ghyll.Attestations.Loading.{Json, opened, load_from_jsonl}
use ghyll.Attestations.Recovery.{IsLineFormat, trail_text, load_from_jsonl-recovers}

abbrev rules : Rules
rules = record { equal_fold = λ s t. s == t; is_json_object = λ s. true }

fold_refl : (s : String) → rules.equal_fold s s ≡ true
fold_refl s = ground (arith, eq_iff s s)

abbrev verdict : AttestationRecord
verdict = record {
  id = "att-a1-v3";
  kind = on_the_spot;
  arrow_id = "a1";
  clause_id = "";
  op_id = "op";
  attested_by_role = "architect";
  source_role = "analyst";
  target_role = "implementer";
  verdict = fail;
  reason = "too thin";
  timestamp = pos 10;
  grid_version = 3;
  pass_id = "p1";
  context = "billing";
  stratum = "2";
  adversary_role = "";
  unit = no_unit;
  unit_payload = empty_payload;
  unit_payload_json = "";
  hint_json = "";
}

abbrev second : AttestationRecord
second = record verdict { verdict = pass; timestamp = pos 20 }

abbrev json : Json
json = record {
  marshal = λ w. "{\"attestation_id\":\"att-a1-v3\"}";
  unmarshal = λ s. some (new_jsonl_record verdict);
  read_payload = λ s. empty_payload;
}

abbrev writer : PrimaryWriter
writer r = none

abbrev calls : List StoreCall
calls = recording verdict ∷ recording second ∷ []

abbrev session : AttestationStore
session = set_primary_writer new_attestation_store (some writer)

line : IsLineFormat json (new_jsonl_record verdict)
unfolding ghyll.Base.has_prefix ghyll.Base.trim_space
line = record { round = refl; one_line = refl; braced = refl; tight = refl }

attestation_records_equal_iff_example :
    (attestation_records_equal verdict second ≡ true) ↔ SameRecord verdict second
attestation_records_equal_iff_example = attestation_records_equal_iff verdict second

record_attestation-Kept_example :
    Kept new_attestation_store verdict (record_attestation rules new_attestation_store verdict)
record_attestation-Kept_example = record_attestation-Kept rules new_attestation_store verdict

stored_verdict :
    lookup_attestation (store_run rules new_attestation_store (recording verdict ∷ [])) "att-a1-v3"
    ≡ some verdict
unfolding lookup_attestation ghyll.Base.Map.lookup store_run record_attestation validate_attestation
    is_blank validate_attestation_tier2 new_attestation_store ghyll.Base.Map.insert
stored_verdict = refl

store_run-IsVouched_example : IsVouched "att-a1-v3" verdict
store_run-IsVouched_example =
    store_run-IsVouched rules fold_refl (recording verdict ∷ []) "att-a1-v3" verdict stored_verdict

run_trail-Rebuilds_example :
    (u : AttestationStore) × (replay_all rules new_attestation_store (run_trail rules session calls)
      ≡ ok u)
    × SameContents u (store_run rules session calls)
run_trail-Rebuilds_example = run_trail-Rebuilds rules writer calls (tt, (tt, tt))

abbrev both : List AttestationRecord
both = verdict ∷ second ∷ []

valid_verdict : validate_attestation rules verdict ≡ ok tt
unfolding validate_attestation is_blank
valid_verdict = refl

valid_second : validate_attestation rules second ≡ ok tt
unfolding validate_attestation is_blank
valid_second = refl

valid_tier2 : validate_attestation_tier2 rules verdict (pos 0) ≡ ok tt
unfolding validate_attestation_tier2 is_blank
valid_tier2 = refl

abbrev one_call : List StoreCall
one_call = recording verdict ∷ []

no_payload : payload_of json.read_payload verdict.unit_payload_json ≡ verdict.unit_payload
unfolding payload_of
no_payload = refl

some-eq : (x r : AttestationRecord) → ◌≡◌ {A = Option AttestationRecord} (some x) (some r) → x ≡ r
some-eq x r h = cc

-- What holds of both records holds of each in the list.
of_two :
    (P : AttestationRecord → Type 0) (x y : AttestationRecord)
    → P x
    → P y
    → (r : AttestationRecord) → Among r (x ∷ y ∷ [])
    → P r
of_two P x y p q r (zero, h) = subst P (some-eq x r h) p
of_two P x y p q r (suc zero, h) = subst P (some-eq y r h) q
of_two P x y p q r (suc (suc i), h) = absurd (ground (arith, h))

valid_both : (r : AttestationRecord) → Among r both → validate_attestation rules r ≡ ok tt
valid_both =
    of_two (λ r. validate_attestation rules r ≡ ok tt) verdict second valid_verdict valid_second

replay_all-latest_example :
    (u : AttestationStore) × (replay_all rules new_attestation_store both ≡ ok u)
    × ((j : String) (x : AttestationRecord)
        → lookup_attestation u j ≡ some x
        → Among x both × (x.id ≡ j))
    × ((r : AttestationRecord)
        → Among r both
        → (held : AttestationRecord) × (lookup_attestation u r.id ≡ some held)
          × (r.timestamp ≤ℤ held.timestamp))
replay_all-latest_example = replay_all-latest rules both valid_both

abbrev swapped : List AttestationRecord
swapped = second ∷ verdict ∷ []

there : (r : AttestationRecord) → Among r both → Among r swapped
there = of_two (λ r. Among r swapped) verdict second (1, refl) (0, refl)

back : (r : AttestationRecord) → Among r swapped → Among r both
back = of_two (λ r. Among r both) second verdict (1, refl) (0, refl)

Alike : AttestationRecord → AttestationRecord → Type 0
Alike a b = a.id ≡ b.id → a.timestamp ≡ b.timestamp → SameRecord a b

same_as_itself : (r : AttestationRecord) → Alike r r
unfolding Alike
same_as_itself r e f = (attestation_records_equal_iff r r).0 (attestation_records_equal_refl r)

first_then_second : Alike verdict second
unfolding Alike
first_then_second e f = absurd (ground (arith, f))

second_then_first : Alike second verdict
unfolding Alike
second_then_first e f = absurd (ground (arith, f))

no_ties :
    (a b : AttestationRecord)
    → Among a both
    → Among b both
    → a.id ≡ b.id
    → a.timestamp ≡ b.timestamp
    → SameRecord a b
unfolding Alike
no_ties a b in_a in_b =
    of_two (λ x. Alike x b) verdict second
      (of_two (Alike verdict) verdict second (same_as_itself verdict) first_then_second b in_b)
      (of_two (Alike second) verdict second second_then_first (same_as_itself second) b in_b) a in_a

replay_all-order_example :
    (u v : AttestationStore) × (replay_all rules new_attestation_store both ≡ ok u)
    × (replay_all rules new_attestation_store swapped ≡ ok v)
    × ((j : String) (a : AttestationRecord)
        → lookup_attestation u j ≡ some a
        → (b : AttestationRecord) × (lookup_attestation v j ≡ some b) × SameRecord a b)
replay_all-order_example = replay_all-order rules both swapped there back valid_both no_ties

load_from_jsonl-recovers_example :
    (u : AttestationStore) × (load_from_jsonl rules json new_attestation_store
        (opened (record {
          text = trail_text json (run_trail rules session one_call) "{\"at";
          ending = none;
        }))
        true
      ≡ record {
        loaded = length (run_trail rules session one_call);
        truncated = true;
        records = run_trail rules session one_call;
        failed = none;
        store = u;
      })
    × SameContents u (store_run rules session one_call)
load_from_jsonl-recovers_example =
    load_from_jsonl-recovers rules json writer one_call "{\"at" true (tt, tt)
      ((no_payload, line), tt) refl

abbrev no_faults : FileFaults
no_faults = record { stat = none; read_at = λ n. none; truncate = none; seek = none; sync = none }

-- A line and half of a second, read two bytes at a time.
abbrev audit_bytes : List ℕ
audit_bytes = b'a' ∷ b'\n' ∷ b'b' ∷ []

truncate_trailing_partial-Kept_example :
    (kept : List ℕ) × (truncate_trailing_partial 2 false true no_faults audit_bytes ≡ (none, kept))
    × CompleteLines audit_bytes kept
truncate_trailing_partial-Kept_example =
    truncate_trailing_partial-Kept no_faults
      (record { stat = refl; read_at = λ n. refl; truncate = refl; seek = refl; sync = refl })
      audit_bytes 2 (omega arith)

-- ===== src/Attestations/History.antt =====
-- Any sequence of calls on the store of verdicts.
use ghyll.Base.{ℤ, Option, List, [], ◌∷◌, ◌++◌, Result, ok, err}
use ghyll.Attestations.{Rules, AttestationRecord, AttestationError}
use ghyll.Attestations.Store.{
  AttestationStore, PrimaryWriter, observe, set_primary_writer, set_residue_note_max_bytes,
  record_attestation, record_replay,
}
use ghyll.Attestations.Outcomes.{written}

pub data StoreCall : Type 0 where
  recording replaying : AttestationRecord → StoreCall
  observing : StoreCall
  rewiring : Option PrimaryWriter → StoreCall
  capping : ℤ → StoreCall

abbrev pub or_unchanged :
    AttestationStore → Result AttestationError AttestationStore → AttestationStore
or_unchanged s (ok s') = s'
or_unchanged s (err e) = s

module _ (rules : Rules) where
  unfoldable pub store_step : AttestationStore → StoreCall → AttestationStore
  store_step s (recording r) = (record_attestation rules s r).store
  store_step s (replaying r) = or_unchanged s (record_replay rules s r)
  store_step s observing = observe s
  store_step s (rewiring w) = set_primary_writer s w
  store_step s (capping n) = set_residue_note_max_bytes s n

  unfoldable pub store_run : AttestationStore → List StoreCall → AttestationStore
  unfolding store_step
  store_run s [] = s
  store_run s (c ∷ cs) = store_run (store_step s c) cs

  -- The records that the audit writers take in a call, and in a sequence of calls.
  unfoldable pub step_trail : AttestationStore → StoreCall → List AttestationRecord
  step_trail s (recording r) = written (record_attestation rules s r).effects
  step_trail s _ = []

  unfoldable pub run_trail : AttestationStore → List StoreCall → List AttestationRecord
  unfolding step_trail
  run_trail s [] = []
  run_trail s (c ∷ cs) = step_trail s c ++ run_trail (store_step s c) cs

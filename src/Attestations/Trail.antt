-- ===== src/Attestations/Trail.antt =====
-- The audit trail is the source of truth: what the writers took rebuilds the store.
use ghyll.Base.{
  ◌+◌, ◌%◌, ◌^◌, ◌≡◌, inl, inr, refl, sym, ap, subst, ◌∙◌, none, some, List, [], ◌∷◌, ◌++◌, ok, err,
  Result, ◌>>=◌, All, string_key,
}
use ghyll.Base.Map.{lookup, insert}
use ghyll.Attestations.{Rules, AttestationRecord, AttestationError, validate_attestation}
use ghyll.Attestations.Store.{
  AttestationStore, PrimaryWriter, Recorded, new_attestation_store, put_record, replay_known,
  record_replay, record_attestation, observe, set_primary_writer, set_residue_note_max_bytes,
}
use ghyll.Attestations.Outcomes.{
  Outcome, known, refused, unwritten, stored, record_attestation-Outcome, written, audited,
}
use ghyll.Attestations.History.{
  StoreCall, recording, replaying, observing, rewiring, capping, store_step, store_run, step_trail,
  run_trail,
}

-- A call that keeps the audit on: nothing is replayed, and no writer is taken away.
abbrev pub IsAudited : StoreCall → Type 0
IsAudited (replaying r) = ⊥
IsAudited (rewiring none) = ⊥
IsAudited _ = Unit

-- The store has a writer.
abbrev HasWriter : AttestationStore → Type 0
HasWriter s = (w : PrimaryWriter) × (s.primary_writer ≡ some w)

-- The same records, in the same order, after as many changes.
pub record SameContents (t s : AttestationStore) : Type 0 where
  pub records : t.by_id ≡ s.by_id
  pub changes : t.version ≡ s.version

module _ (rules : Rules) where
  -- One record after the other.
  unfoldable pub replay_all :
      AttestationStore → List AttestationRecord → Result AttestationError AttestationStore
  replay_all t [] = ok t
  replay_all t (r ∷ rs) = record_replay rules t r >>= λ u. replay_all u rs

  abbrev Rebuilds : AttestationStore → List AttestationRecord → AttestationStore → Type 0
  Rebuilds t rs s = (u : AttestationStore) × (replay_all t rs ≡ ok u) × SameContents u s

  >>=-append :
      (m : Result AttestationError AttestationStore) (xs ys : List AttestationRecord)
      → ((u : AttestationStore)
          → replay_all u (xs ++ ys) ≡ (replay_all u xs >>= λ v. replay_all v ys))
      → (m >>= λ u. replay_all u (xs ++ ys))
        ≡ ((m >>= λ u. replay_all u xs) >>= λ v. replay_all v ys)
  >>=-append (ok u) xs ys ih = ih u
  >>=-append (err e) xs ys ih = refl

  pub replay_all-append :
      (t : AttestationStore) (xs ys : List AttestationRecord)
      → replay_all t (xs ++ ys) ≡ (replay_all t xs >>= λ v. replay_all v ys)
  unfolding replay_all
  replay_all-append t [] ys = refl
  replay_all-append t (x ∷ xs) ys =
      >>=-append (record_replay rules t x) xs ys (λ u. replay_all-append u xs ys)

  record_replay-fresh :
      (t : AttestationStore) (r : AttestationRecord)
      → validate_attestation rules r ≡ ok tt
      → lookup r.id t.by_id ≡ none
      → record_replay rules t r ≡ ok (put_record t r)
  unfolding record_replay replay_known
  record_replay-fresh t r v free = rw (v, free) refl

  put_record-SameContents :
      (s t : AttestationStore) (r : AttestationRecord)
      → SameContents t s
      → SameContents (put_record t r) (put_record s r)
  unfolding put_record
  put_record-SameContents s t r same = record {
    records = ap (insert r.id r) same.records;
    changes = ap (λ v. (v + 1) % 2 ^ 64) same.changes;
  }

  nothing-Rebuilds :
      (s t : AttestationStore) → HasWriter s → SameContents t s → Rebuilds t [] s × HasWriter s
  unfolding replay_all
  nothing-Rebuilds s t w same = ((t, refl, same), w)

  Outcome-Rebuilds :
      (s t : AttestationStore) (r : AttestationRecord) (x : Recorded)
      → validate_attestation rules r ≡ ok tt
      → HasWriter s
      → SameContents t s
      → Outcome s r x
      → Rebuilds t (written x.effects) x.store × HasWriter x.store
  unfolding replay_all put_record
  Outcome-Rebuilds s t r x v w same (known held at eq h) =
      subst (λ y. Rebuilds t (written y.effects) y.store × HasWriter y.store) (sym h)
        (nothing-Rebuilds s t w same)
  Outcome-Rebuilds s t r x v w same (refused f h) =
      subst (λ y. Rebuilds t (written y.effects) y.store × HasWriter y.store) (sym h)
        (nothing-Rebuilds s t w same)
  Outcome-Rebuilds s t r x v w same (unwritten u m e a h) =
      subst (λ y. Rebuilds t (written y.effects) y.store × HasWriter y.store) (sym h)
        (nothing-Rebuilds s t w same)
  Outcome-Rebuilds s t r x v (w, e) same (stored free done h k) =
      let fresh = record_replay-fresh t r v (ap (lookup r.id) same.records ∙ free) in
      let taken : written x.effects ≡ r ∷ [] = k ∙ ap (λ o. audited o r) e in
      (
        (
          put_record t r,
          ap (replay_all t) taken ∙ ap (λ m. m >>= λ u. replay_all u []) fresh,
          subst (SameContents (put_record t r)) (sym h) (put_record-SameContents s t r same),
        ),
        (w, ap (λ y. y.primary_writer) h ∙ e),
      )

  store_step-Rebuilds :
      (s t : AttestationStore) (c : StoreCall)
      → IsAudited c
      → HasWriter s
      → SameContents t s
      → Rebuilds t (step_trail rules s c) (store_step rules s c) × HasWriter (store_step rules s c)
  unfolding step_trail store_step observe set_primary_writer set_residue_note_max_bytes
  store_step-Rebuilds s t (recording r) a w same = elim (record_attestation-Outcome rules s r) [
    | inl (v, out) ↦ Outcome-Rebuilds s t r (record_attestation rules s r) v.plain w same out
    | inr (f, h) ↦
        subst (λ y. Rebuilds t (written y.effects) y.store × HasWriter y.store) (sym h)
          (nothing-Rebuilds s t w same)
  ]
  store_step-Rebuilds s t (replaying r) a w same = elim a [ ]
  store_step-Rebuilds s t observing a w same =
      nothing-Rebuilds (observe s) t w (record { records = same.records; changes = same.changes })
  store_step-Rebuilds s t (rewiring none) a w same = elim a [ ]
  store_step-Rebuilds s t (rewiring (some v)) a w same =
      nothing-Rebuilds (set_primary_writer s (some v)) t (v, refl)
        (record { records = same.records; changes = same.changes })
  store_step-Rebuilds s t (capping n) a w same =
      nothing-Rebuilds (set_residue_note_max_bytes s n) t w
        (record { records = same.records; changes = same.changes })

  store_run-Rebuilds :
      (s t : AttestationStore) (cs : List StoreCall)
      → All IsAudited cs
      → HasWriter s
      → SameContents t s
      → Rebuilds t (run_trail rules s cs) (store_run rules s cs)
  unfolding store_run run_trail replay_all
  store_run-Rebuilds s t [] as' w same = (t, refl, same)
  store_run-Rebuilds s t (c ∷ cs) (a, as') w same =
      let ((u, ran, mid), w') = store_step-Rebuilds s t c a w same in
      let (v, rest, last) = store_run-Rebuilds (store_step rules s c) u cs as' w' mid in
      let later = run_trail rules (store_step rules s c) cs in
      (
        v,
        replay_all-append t (step_trail rules s c) later
            ∙ ap (λ m. m >>= λ y. replay_all y later) ran
            ∙ rest,
        last,
      )

  -- Whatever is recorded in an empty store with an audit writer, also where the writer fails or is
  -- exchanged, and as long as nothing is replayed and the audit is not switched off: replaying the
  -- records that the writers took, in their order, into another empty store never fails, and gives
  -- the same records and the same version.
  pub run_trail-Rebuilds :
      (w : PrimaryWriter) (cs : List StoreCall)
      → All IsAudited cs
      → (u : AttestationStore) × (replay_all new_attestation_store
            (run_trail rules (set_primary_writer new_attestation_store (some w)) cs)
          ≡ ok u)
        × SameContents u (store_run rules (set_primary_writer new_attestation_store (some w)) cs)
  unfolding set_primary_writer
  run_trail-Rebuilds w cs a =
      store_run-Rebuilds (set_primary_writer new_attestation_store (some w)) new_attestation_store
        cs a (w, refl) (record { records = refl; changes = refl })

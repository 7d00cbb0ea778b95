-- ===== src/Attestations/Independence.antt =====
-- Nobody vouches for a hand-over that they are a side of.
use ghyll.Base.{
  String, ◌≡◌, ◌≢◌, ◌⊎◌, inl, inr, refl, sym, ap, subst, ◌∙◌, true, false, Bool, Option, none, some,
  List, [], ◌∷◌, arith, eq_iff, ◌==◌, string_key, ok, err, Bool-cases, if◌then◌else◌, int_ltb,
  is_blank, trim_space,
}
use ghyll.Base.Map.{lookup, lookup-insert}
use ghyll.Basis.{AttestationVerdict, pass, fail, insufficient_basis, other}
use ghyll.Attestations.{
  Rules, Check, attestation_records_equal, AttestationRecord, AttestationError, AttestationKind,
  depth_type, on_the_spot, validate_attestation, check_apart, check_kind, check_verdict,
  check_roles,
}
use ghyll.Attestations.Store.{
  AttestationStore, Recorded, put_record, replay_known, record_replay, record_attestation,
  new_attestation_store, lookup_attestation, observe, set_primary_writer,
  set_residue_note_max_bytes,
}
use ghyll.Attestations.Outcomes.{
  Outcome, known, refused, unwritten, stored, record_attestation-Outcome,
}
use ghyll.Attestations.History.{
  StoreCall, recording, replaying, observing, rewiring, capping, store_step, store_run,
  or_unchanged,
}

-- The role is not the side, where the side is known.
abbrev pub Apart : String → String → Type 0
Apart role side = is_blank side ≡ false → trim_space role ≢ trim_space side

-- A record that a store may hold under an id.
pub record IsVouched (j : String) (r : AttestationRecord) : Type 0 where
  pub filed : r.id ≡ j
  pub signed : is_blank r.attested_by_role ≡ false
  pub decided : (r.verdict ≡ pass) ⊎ ((r.verdict ≡ fail) ⊎ (r.verdict ≡ insufficient_basis))
  pub on_clause : r.kind ≡ depth_type → is_blank r.clause_id ≡ false
  pub on_arrow : r.kind ≡ on_the_spot → is_blank r.clause_id ≡ true
  pub source_apart : Apart r.attested_by_role r.source_role
  pub target_apart : Apart r.attested_by_role r.target_role
  pub adversary_source : is_blank r.adversary_role ≡ false → Apart r.adversary_role r.source_role
  pub adversary_target : is_blank r.adversary_role ≡ false → Apart r.adversary_role r.target_role

Check-cases : (c : Check) → (c ≡ ok tt) ⊎ ((e : AttestationError) × (c ≡ err e))
Check-cases (ok tt) = inl refl
Check-cases (err e) = inr (e, refl)

-- The four comparisons of the roles.
pub sides :
    (rules : Rules) (r : AttestationRecord)
    → check_roles rules r ≡ ok tt
    → (check_apart rules r.attested_by_role r.source_role ≡ ok tt)
      × (check_apart rules r.attested_by_role r.target_role ≡ ok tt)
      × (is_blank r.adversary_role ≡ false
          → check_apart rules r.adversary_role r.source_role ≡ ok tt)
      × (is_blank r.adversary_role ≡ false
          → check_apart rules r.adversary_role r.target_role ≡ ok tt)
unfolding check_roles
sides rules r h = (
  ground (arith, h),
  ground (arith, h),
  λ present. ground (arith, h, present),
  λ present. ground (arith, h, present),
)

pub parts :
    (rules : Rules) (r : AttestationRecord)
    → validate_attestation rules r ≡ ok tt
    → (is_blank r.attested_by_role ≡ false)
      × (check_kind r.kind r.clause_id ≡ ok tt)
      × (check_verdict r.verdict ≡ ok tt)
      × (check_roles rules r ≡ ok tt)
unfolding validate_attestation
parts rules r h = (ground (arith, h), ground (arith, h), ground (arith, h), ground (arith, h))

module _ (rules : Rules) (fold_refl : (s : String) → rules.equal_fold s s ≡ true) where
  check_apart-Apart : (role side : String) → check_apart rules role side ≡ ok tt → Apart role side
  unfolding check_apart is_blank
  check_apart-Apart role side h present same =
      let folded : rules.equal_fold (trim_space role) (trim_space side) ≡ true =
        ap (λ t. rules.equal_fold t (trim_space side)) same ∙ fold_refl (trim_space side) in
      absurd (ground (arith, h, present, folded))

  verdict_known :
      (v : AttestationVerdict)
      → check_verdict v ≡ ok tt
      → (v ≡ pass) ⊎ ((v ≡ fail) ⊎ (v ≡ insufficient_basis))
  unfolding check_verdict
  verdict_known pass h = inl refl
  verdict_known fail h = inr (inl refl)
  verdict_known insufficient_basis h = inr (inr refl)
  verdict_known (other s) h = cc

  kind_clause :
      (k : AttestationKind) (clause_id : String)
      → check_kind k clause_id ≡ ok tt
      → (k ≡ depth_type → is_blank clause_id ≡ false)
        × (k ≡ on_the_spot → is_blank clause_id ≡ true)
  unfolding check_kind
  kind_clause k clause_id h = (λ e. ground (arith, e, h), λ e. ground (arith, e, h))

  validate_attestation-IsVouched :
      (r : AttestationRecord) → validate_attestation rules r ≡ ok tt → IsVouched r.id r
  validate_attestation-IsVouched r h =
      let (present, kind, verdict, roles) = parts rules r h in
      let (source, target, adv_source, adv_target) = sides rules r roles in
      record {
        filed = refl;
        signed = present;
        decided = verdict_known r.verdict verdict;
        on_clause = (kind_clause r.kind r.clause_id kind).0;
        on_arrow = (kind_clause r.kind r.clause_id kind).1;
        source_apart = check_apart-Apart r.attested_by_role r.source_role source;
        target_apart = check_apart-Apart r.attested_by_role r.target_role target;
        adversary_source = λ p. check_apart-Apart r.adversary_role r.source_role (adv_source p);
        adversary_target = λ p. check_apart-Apart r.adversary_role r.target_role (adv_target p);
      }

  -- Every record that the store holds is vouched for by somebody else.
  AllVouched : AttestationStore → Type 0
  AllVouched s =
      (j : String) (r : AttestationRecord) → lookup_attestation s j ≡ some r → IsVouched j r

  if-AllVouched :
      (b : Bool) (s t : AttestationStore)
      → AllVouched s
      → AllVouched t
      → AllVouched (if b then s else t)
  if-AllVouched true s t p q = p
  if-AllVouched false s t p q = q

  put_record-AllVouched :
      (s : AttestationStore) (r : AttestationRecord)
      → IsVouched r.id r
      → AllVouched s
      → AllVouched (put_record s r)
  unfolding AllVouched lookup_attestation put_record
  put_record-AllVouched s r v all j x at = elim (Bool-cases (r.id == j)) [
    | inl same ↦
        let e : r ≡ x = ground (arith, at, same, lookup-insert r.id j r s.by_id) in
        subst (IsVouched j) e (subst (λ k. IsVouched k r) ((eq_iff r.id j).0 same) v)
    | inr differs ↦ all j x (ground (arith, at, differs, lookup-insert r.id j r s.by_id))
  ]

  Outcome-AllVouched :
      (s : AttestationStore) (r : AttestationRecord) (x : Recorded)
      → IsVouched r.id r
      → AllVouched s
      → Outcome s r x
      → AllVouched x.store
  Outcome-AllVouched s r x v all (known held at same e) =
      subst AllVouched (sym (ap (λ y. y.store) e)) all
  Outcome-AllVouched s r x v all (refused f e) = subst AllVouched (sym (ap (λ y. y.store) e)) all
  Outcome-AllVouched s r x v all (unwritten w m e a h) =
      subst AllVouched (sym (ap (λ y. y.store) h)) all
  Outcome-AllVouched s r x v all (stored free done e w) =
      subst AllVouched (sym e) (put_record-AllVouched s r v all)

  record_attestation-AllVouched :
      (s : AttestationStore) (r : AttestationRecord)
      → AllVouched s
      → AllVouched (record_attestation rules s r).store
  record_attestation-AllVouched s r all = elim (record_attestation-Outcome rules s r) [
    | inl (v, out) ↦
        Outcome-AllVouched s r (record_attestation rules s r)
          (validate_attestation-IsVouched r v.plain) all out
    | inr (e, h) ↦ subst AllVouched (sym (ap (λ y. y.store) h)) all
  ]

  replay_known-AllVouched :
      (s : AttestationStore) (r : AttestationRecord) (o : Option AttestationRecord)
      → IsVouched r.id r
      → AllVouched s
      → AllVouched (replay_known s r o)
  unfolding replay_known
  replay_known-AllVouched s r none v all = put_record-AllVouched s r v all
  replay_known-AllVouched s r (some held) v all =
      if-AllVouched (attestation_records_equal held r) s
        (if int_ltb held.timestamp r.timestamp then put_record s r else s) all
        (if-AllVouched (int_ltb held.timestamp r.timestamp) (put_record s r) s
          (put_record-AllVouched s r v all) all)

  record_replay-AllVouched :
      (s : AttestationStore) (r : AttestationRecord)
      → AllVouched s
      → AllVouched (or_unchanged s (record_replay rules s r))
  unfolding record_replay
  record_replay-AllVouched s r all = elim (Check-cases (validate_attestation rules r)) [
    | inl v ↦
        rw v (
          replay_known-AllVouched s r (lookup r.id s.by_id) (validate_attestation-IsVouched r v)
            all)
    | inr (e, h) ↦ rw h all
  ]

  store_step-AllVouched :
      (s : AttestationStore) (c : StoreCall) → AllVouched s → AllVouched (store_step rules s c)
  unfolding store_step observe set_primary_writer set_residue_note_max_bytes AllVouched
      lookup_attestation
  store_step-AllVouched s (recording r) all = record_attestation-AllVouched s r all
  store_step-AllVouched s (replaying r) all = record_replay-AllVouched s r all
  store_step-AllVouched s observing all = all
  store_step-AllVouched s (rewiring w) all = all
  store_step-AllVouched s (capping n) all = all

  store_run-AllVouched :
      (s : AttestationStore) (cs : List StoreCall)
      → AllVouched s
      → AllVouched (store_run rules s cs)
  unfolding store_run
  store_run-AllVouched s [] all = all
  store_run-AllVouched s (c ∷ cs) all =
      store_run-AllVouched (store_step rules s c) cs (store_step-AllVouched s c all)

  new_attestation_store-AllVouched : AllVouched new_attestation_store
  unfolding AllVouched lookup_attestation lookup new_attestation_store
  new_attestation_store-AllVouched j r at = cc

  -- Where folding case makes every text equal to itself: whatever is recorded and replayed from an
  -- empty store on, each record in it is under its own id, has one of the three verdicts, names a
  -- clause exactly as its kind asks, and neither the role that signed it nor its adversary role is
  -- the arrow's source or target, as far as these are given.
  pub store_run-IsVouched :
      (cs : List StoreCall) (j : String) (r : AttestationRecord)
      → lookup_attestation (store_run rules new_attestation_store cs) j ≡ some r
      → IsVouched j r
  unfolding AllVouched
  store_run-IsVouched cs =
      store_run-AllVouched new_attestation_store cs new_attestation_store-AllVouched

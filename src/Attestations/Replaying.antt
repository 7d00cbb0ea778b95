-- ===== src/Attestations/Replaying.antt =====
-- Replaying: the latest verdict under an id wins, in whatever order the records come.
use ghyll.Base.{
  ℕ, zero, suc, ℤ, ◌≤ℤ◌, String, ◌≡◌, ◌⊎◌, inl, inr, refl, sym, ap, subst, ◌∙◌, true, Option, none,
  some, List, [], ◌∷◌, arith, ok, ◌>>=◌, eq_iff, ◌==◌, string_key, int_ltb, if◌then◌else◌,
  get_elem?, Bool-cases,
}
use ghyll.Base.Map.{lookup, lookup-insert}
use ghyll.Attestations.{Rules, AttestationRecord, validate_attestation, attestation_records_equal}
use ghyll.Attestations.Equality.{SameRecord, attestation_records_equal_iff}
use ghyll.Attestations.Store.{
  AttestationStore, new_attestation_store, put_record, replay_known, record_replay,
  lookup_attestation,
}
use ghyll.Attestations.Trail.{replay_all}

-- The store knows a record with the id of `r` that is at least as late.
abbrev Covers : AttestationStore → AttestationRecord → Type 0
Covers t r =
    (held : AttestationRecord) × (lookup_attestation t r.id ≡ some held)
    × (r.timestamp ≤ℤ held.timestamp)

replayed : AttestationStore → AttestationRecord → AttestationStore
replayed t r = replay_known t r (lookup r.id t.by_id)

lookup-put :
    (t : AttestationStore) (r : AttestationRecord) (j : String)
    → lookup_attestation (put_record t r) j ≡ (if r.id == j then some r else lookup_attestation t j)
unfolding put_record lookup_attestation
lookup-put t r j = lookup-insert r.id j r t.by_id

timestamp_same :
    (a b : AttestationRecord) → attestation_records_equal a b ≡ true → a.timestamp ≡ b.timestamp
timestamp_same a b h = ((attestation_records_equal_iff a b).0 h).timestamps

-- What one replay does to the look-ups.
data Replayed (t : AttestationStore) (r : AttestationRecord) (u : AttestationStore) : Type 0 where
  kept :
      (held : AttestationRecord)
      → lookup_attestation t r.id ≡ some held
      → r.timestamp ≤ℤ held.timestamp
      → u ≡ t
      → Replayed t r u
  fresh : lookup_attestation t r.id ≡ none → u ≡ put_record t r → Replayed t r u
  later :
      (held : AttestationRecord)
      → lookup_attestation t r.id ≡ some held
      → held.timestamp ≤ℤ r.timestamp
      → u ≡ put_record t r
      → Replayed t r u

replay_known-Replayed :
    (t : AttestationStore) (r : AttestationRecord) (o : Option AttestationRecord)
    → lookup_attestation t r.id ≡ o
    → Replayed t r (replay_known t r o)
unfolding replay_known
replay_known-Replayed t r none e = fresh e refl
replay_known-Replayed t r (some held) e = elim (Bool-cases (attestation_records_equal held r)) [
  | inl same ↦ kept held e (ground (arith, timestamp_same held r same)) (rw same refl)
  | inr differs ↦ elim (Bool-cases (int_ltb held.timestamp r.timestamp)) [
    | inl less ↦ later held e (ground (arith, less)) (rw (differs, less) refl)
    | inr more ↦ kept held e (ground (arith, more)) (rw (differs, more) refl)
  ]
]

replayed-Replayed : (t : AttestationStore) (r : AttestationRecord) → Replayed t r (replayed t r)
unfolding replayed lookup_attestation
replayed-Replayed t r = replay_known-Replayed t r (lookup r.id t.by_id) refl

own :
    (t : AttestationStore) (r : AttestationRecord)
    → lookup_attestation (put_record t r) r.id ≡ some r
own t r = ground (arith, lookup-put t r r.id, eq_iff r.id r.id)

Replayed-own : (t u : AttestationStore) (r : AttestationRecord) → Replayed t r u → Covers u r
Replayed-own t u r (kept held e le h) = (held, ap (λ v. lookup_attestation v r.id) h ∙ e, le)
Replayed-own t u r (fresh e h) = (r, ap (λ v. lookup_attestation v r.id) h ∙ own t r, omega arith)
Replayed-own t u r (later held e le h) =
    (r, ap (λ v. lookup_attestation v r.id) h ∙ own t r, omega arith)

≤ℤ-trans : (a b c : ℤ) → a ≤ℤ b → b ≤ℤ c → a ≤ℤ c
≤ℤ-trans a b c h k = omega arith

put_record-Covers :
    (t : AttestationStore) (r x : AttestationRecord)
    → Covers t x
    → ((held : AttestationRecord)
        → lookup_attestation t r.id ≡ some held
        → held.timestamp ≤ℤ r.timestamp)
    → Covers (put_record t r) x
put_record-Covers t r x (held, at, le) late = elim (Bool-cases (r.id == x.id)) [
  | inl same ↦
      let same_id : x.id ≡ r.id = sym ((eq_iff r.id x.id).0 same) in
      (
        r,
        ground (arith, lookup-put t r x.id, same),
        ≤ℤ-trans x.timestamp held.timestamp r.timestamp le
            (late held (ap (lookup_attestation t) (sym same_id) ∙ at)),
      )
  | inr differs ↦ (held, ground (arith, lookup-put t r x.id, differs, at), le)
]

none-some : (o : Option AttestationRecord) (a : AttestationRecord) → o ≡ none → o ≡ some a → ⊥
none-some o a h k = absurd (ground (arith, h, k))

Replayed-Covers :
    (t u : AttestationStore) (r x : AttestationRecord) → Replayed t r u → Covers t x → Covers u x
Replayed-Covers t u r x (kept held e le h) c = subst (λ v. Covers v x) (sym h) c
Replayed-Covers t u r x (fresh e h) c =
    subst (λ v. Covers v x) (sym h)
      (put_record-Covers t r x c
        (λ held at. absurd (none-some (lookup_attestation t r.id) held e at)))
Replayed-Covers t u r x (later held e le h) c =
    subst (λ v. Covers v x) (sym h)
      (put_record-Covers t r x c (λ other at.
        let same : held ≡ other = ground (arith, e, at) in
        subst (λ (y : AttestationRecord). y.timestamp ≤ℤ r.timestamp) same le))

-- What is found after a replay was there, or is the record replayed.
put_record-from :
    (t : AttestationStore) (r : AttestationRecord) (j : String) (x : AttestationRecord)
    → lookup_attestation (put_record t r) j ≡ some x
    → (lookup_attestation t j ≡ some x) ⊎ ((r ≡ x) × (r.id ≡ j))
put_record-from t r j x at = elim (Bool-cases (r.id == j)) [
  | inl same ↦ inr (ground (arith, lookup-put t r j, same, at), (eq_iff r.id j).0 same)
  | inr differs ↦ inl (ground (arith, lookup-put t r j, differs, at))
]

Replayed-from :
    (t u : AttestationStore) (r : AttestationRecord) (j : String) (x : AttestationRecord)
    → Replayed t r u
    → lookup_attestation u j ≡ some x
    → (lookup_attestation t j ≡ some x) ⊎ ((r ≡ x) × (r.id ≡ j))
Replayed-from t u r j x (kept held e le h) at = inl (ap (λ v. lookup_attestation v j) (sym h) ∙ at)
Replayed-from t u r j x (fresh e h) at =
    put_record-from t r j x (ap (λ v. lookup_attestation v j) (sym h) ∙ at)
Replayed-from t u r j x (later held e le h) at =
    put_record-from t r j x (ap (λ v. lookup_attestation v j) (sym h) ∙ at)

-- The record stands in the list.
abbrev pub Among : AttestationRecord → List AttestationRecord → Type 0
Among r rs = (i : ℕ) × (get_elem? rs i ≡ some r)

Among-cons :
    (r x : AttestationRecord) (rs : List AttestationRecord)
    → Among r (x ∷ rs)
    → (x ≡ r) ⊎ Among r rs
Among-cons r x rs (zero, h) = inl (ground (arith, h))
Among-cons r x rs (suc i, h) = inr (i, h)

module _ (rules : Rules) where
  -- Every record of the list passes the checks.
  abbrev pub AllValid : List AttestationRecord → Type 0
  AllValid rs = (r : AttestationRecord) → Among r rs → validate_attestation rules r ≡ ok tt

  record_replay-valid :
      (t : AttestationStore) (r : AttestationRecord)
      → validate_attestation rules r ≡ ok tt
      → record_replay rules t r ≡ ok (replayed t r)
  unfolding record_replay replayed
  record_replay-valid t r v = rw v refl

  -- After replaying a list in a store: each record of the list is covered, and so is what was
  -- covered; and what is found is from the list or was there.
  record Latest (t : AttestationStore) (rs : List AttestationRecord) (u : AttestationStore)
      : Type 0 where
    covers : (r : AttestationRecord) → Among r rs → Covers u r
    still : (r : AttestationRecord) → Covers t r → Covers u r
    from :
        (j : String) (x : AttestationRecord)
        → lookup_attestation u j ≡ some x
        → (lookup_attestation t j ≡ some x) ⊎ (Among x rs × (x.id ≡ j))

  Latest-cons :
      (t u v : AttestationStore) (x : AttestationRecord) (rs : List AttestationRecord)
      → Replayed t x u
      → Latest u rs v
      → Latest t (x ∷ rs) v
  Latest-cons t u v x rs one rest = record {
    covers = λ r a. elim (Among-cons r x rs a) [
      | inl e ↦ subst (Covers v) e (rest.still x (Replayed-own t u x one))
      | inr a' ↦ rest.covers r a'
    ];
    still = λ r c. rest.still r (Replayed-Covers t u x r one c);
    from = λ j y at. elim (rest.from j y at) [
      | inl old ↦ elim (Replayed-from t u x j y one old) [
        | inl older ↦ inl older
        | inr (e, i) ↦ inr ((0, ap some e), sym (ap (λ z. z.id) e) ∙ i)
      ]
      | inr ((i, a), e) ↦ inr ((suc i, a), e)
    ];
  }

  replay_all-Latest :
      (t : AttestationStore) (rs : List AttestationRecord)
      → AllValid rs
      → (u : AttestationStore) × (replay_all rules t rs ≡ ok u) × Latest t rs u
  unfolding replay_all
  replay_all-Latest t [] valid = (
    t,
    refl,
    record {
      covers = λ r a. absurd (ground (arith, a.1));
      still = λ r c. c;
      from = λ j x at. inl at;
    },
  )
  replay_all-Latest t (x ∷ rs) valid =
      let (v, ran, latest) = replay_all-Latest (replayed t x) rs (λ r (i, a). valid r (suc i, a)) in
      (
        v,
        ap (λ m. m >>= λ y. replay_all rules y rs) (record_replay-valid t x (valid x (0, refl)))
            ∙ ran,
        Latest-cons t (replayed t x) v x rs (replayed-Replayed t x) latest,
      )

  nothing-held :
      (j : String) (x : AttestationRecord) → lookup_attestation new_attestation_store j ≡ some x → ⊥
  unfolding lookup_attestation new_attestation_store lookup
  nothing-held j x at = absurd (ground (arith, at))

  -- Replaying records that pass the checks in an empty store succeeds. Each id that one of them has
  -- leads to a record of the list with this id, and no record of the list with the id is later;
  -- other ids lead nowhere.
  pub replay_all-latest :
      (rs : List AttestationRecord)
      → AllValid rs
      → (u : AttestationStore) × (replay_all rules new_attestation_store rs ≡ ok u)
        × ((j : String) (x : AttestationRecord)
            → lookup_attestation u j ≡ some x
            → Among x rs × (x.id ≡ j))
        × ((r : AttestationRecord)
            → Among r rs
            → (held : AttestationRecord) × (lookup_attestation u r.id ≡ some held)
              × (r.timestamp ≤ℤ held.timestamp))
  replay_all-latest rs valid =
      let (u, ran, latest) = replay_all-Latest new_attestation_store rs valid in
      (
        u,
        ran,
        λ j x at. elim (latest.from j x at) [
          | inl old ↦ absurd (nothing-held j x old)
          | inr new ↦ new
        ],
        latest.covers,
      )

  -- Two records of the list with one id and one time say the same.
  abbrev pub NoTies : List AttestationRecord → Type 0
  NoTies rs =
      (a b : AttestationRecord)
      → Among a rs
      → Among b rs
      → a.id ≡ b.id
      → a.timestamp ≡ b.timestamp
      → SameRecord a b

  ≤ℤ-antisym : (a b : ℤ) → a ≤ℤ b → b ≤ℤ a → a ≡ b
  ≤ℤ-antisym a b h k = ground arith

  -- The order of the files does not matter: two lists with the same records, all of which pass the
  -- checks, and of which two with the same id and the same time say the same, are both replayed in
  -- an empty store with success, and what an id leads to in the one store says the same as what it
  -- leads to in the other.
  pub replay_all-order :
      (rs ss : List AttestationRecord)
      → ((r : AttestationRecord) → Among r rs → Among r ss)
      → ((r : AttestationRecord) → Among r ss → Among r rs)
      → AllValid rs
      → NoTies rs
      → (u v : AttestationStore) × (replay_all rules new_attestation_store rs ≡ ok u)
        × (replay_all rules new_attestation_store ss ≡ ok v)
        × ((j : String) (a : AttestationRecord)
            → lookup_attestation u j ≡ some a
            → (b : AttestationRecord) × (lookup_attestation v j ≡ some b) × SameRecord a b)
  replay_all-order rs ss to back valid apart =
      let (u, ran, from, covers) = replay_all-latest rs valid in
      let (v, ran', from', covers') = replay_all-latest ss (λ r a. valid r (back r a)) in
      (
        u,
        v,
        ran,
        ran',
        λ j a at.
            let (in_rs, id) = from j a at in
            let (b, at', le) = covers' a (to a in_rs) in
            let (in_ss, id') = from' a.id b at' in
            let (c, at_c, le') = covers b (back b in_ss) in
            let found : some c ≡ some a = sym at_c ∙ ap (lookup_attestation u) (id' ∙ id) ∙ at in
            let same : c ≡ a = ground (arith, found) in
            let le_a = subst (λ (y : AttestationRecord). b.timestamp ≤ℤ y.timestamp) same le' in
            (
              b,
              ap (lookup_attestation v) (sym id) ∙ at',
              apart a b in_rs (back b in_ss) (sym id') (≤ℤ-antisym a.timestamp b.timestamp le le_a),
            ),
      )

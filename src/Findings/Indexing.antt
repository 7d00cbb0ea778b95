-- ===== src/Findings/Indexing.antt =====
-- The index of the findings store and its lists agree, and every operation keeps it so.
use ghyll.Base.{
  ℕ, ◌<◌, String, ◌≡◌, inl, inr, none, some, [], ◌∷◌, ◌++◌, arith, eq_iff, nat_eq, ◌==◌, string_key,
  length, length-append, get_elem?-lt, get_elem?-snoc, if◌then◌else◌, Bool-cases,
}
use ghyll.Base.Map.{lookup, lookup-insert}
use ghyll.Findings.{
  FindingRecord, FindingLocator, FindingsStore, findings_on, record_at, store_record, or_empty,
}

-- The index leads from each id to the one record with that id, and every record is indexed.
pub record IsIndexed (s : FindingsStore) : Type 0 where
  pub leads :
      (id : String) (loc : FindingLocator)
      → lookup id s.by_id ≡ some loc
      → (r : FindingRecord) × (record_at s loc ≡ some r) × (r.id ≡ id) × (r.arrow_id ≡ loc.arrow_id)
  pub covers :
      (loc : FindingLocator) (r : FindingRecord)
      → record_at s loc ≡ some r
      → lookup r.id s.by_id ≡ some loc

abbrev pub place : String → ℕ → FindingLocator
place a i = record { arrow_id = a; idx = i }

-- Reading a place after a record was appended to the list of its arrow.
record_at-store :
    (now : String) (s : FindingsStore) (r : FindingRecord) (a : String) (i : ℕ)
    → record_at (store_record now s r).0 (place a i) ≡ (
        if r.arrow_id == a
        then if nat_eq i (length (findings_on s a)) then some r else record_at s (place a i)
        else record_at s (place a i))
unfolding store_record record_at findings_on
record_at-store now s r a i = elim (Bool-cases (r.arrow_id == a)) [
  | inl e ↦
      let p = (eq_iff r.arrow_id a).0 e in
      ground (
        arith,
        p,
        lookup-insert r.arrow_id a (or_empty (lookup r.arrow_id s.by_arrow) ++ r ∷ []) s.by_arrow,
        get_elem?-snoc (or_empty (lookup r.arrow_id s.by_arrow)) r i,
      )
  | inr e ↦ ground (
    arith,
    lookup-insert r.arrow_id a (or_empty (lookup r.arrow_id s.by_arrow) ++ r ∷ []) s.by_arrow,
  )
]

pub record_at-lt :
    (s : FindingsStore) (loc : FindingLocator) (x : FindingRecord)
    → record_at s loc ≡ some x
    → loc.idx < length (findings_on s loc.arrow_id)
unfolding record_at
record_at-lt s loc x h = get_elem?-lt (findings_on s loc.arrow_id) loc.idx h

-- A place that holds a record keeps it.
pub record_at-store_old :
    (now : String) (s : FindingsStore) (r x : FindingRecord) (loc : FindingLocator)
    → record_at s loc ≡ some x
    → record_at (store_record now s r).0 loc ≡ some x
record_at-store_old now s r x loc h =
    rw (record_at-store now s r loc.arrow_id loc.idx) (ground (arith, h, record_at-lt s loc x h))

pub lookup-store :
    (now : String) (s : FindingsStore) (r : FindingRecord) (id : String)
    → lookup id (store_record now s r).0.by_id ≡ (
        if r.id == id
        then some (place r.arrow_id (length (findings_on s r.arrow_id)))
        else lookup id s.by_id)
unfolding store_record
lookup-store now s r id =
    rw (lookup-insert r.id id, length-append (findings_on s r.arrow_id) (r ∷ [])) (ground arith)

module _ (now : String) (s : FindingsStore) (r : FindingRecord) (v : IsIndexed s)
    (fresh : lookup r.id s.by_id ≡ none) where
  pub record_at-store_new :
      record_at (store_record now s r).0 (place r.arrow_id (length (findings_on s r.arrow_id)))
      ≡ some r
  record_at-store_new =
      rw (record_at-store now s r r.arrow_id (length (findings_on s r.arrow_id)))
        (ground (arith, eq_iff r.arrow_id r.arrow_id))

  store_record-leads :
      (id : String) (loc : FindingLocator)
      → lookup id (store_record now s r).0.by_id ≡ some loc
      → (x : FindingRecord) × (record_at (store_record now s r).0 loc ≡ some x)
        × (x.id ≡ id)
        × (x.arrow_id ≡ loc.arrow_id)
  store_record-leads id loc h = elim (Bool-cases (r.id == id)) [
    | inl e ↦
        let h' = rw (lookup-store now s r id, e) at h in
        (r, cc (h', record_at-store_new), (eq_iff r.id id).0 e, cc h')
    | inr e ↦
        let (x, at, i, a) = v.leads id loc (rw (lookup-store now s r id, e) at h) in
        (x, record_at-store_old now s r x loc at, i, a)
  ]

  store_record-covers :
      (a : String) (i : ℕ) (x : FindingRecord)
      → record_at (store_record now s r).0 (place a i) ≡ some x
      → lookup x.id (store_record now s r).0.by_id ≡ some (place a i)
  store_record-covers a i x h = rw (lookup-store now s r x.id) (
      ground (
        arith,
        record_at-store now s r a i,
        eq_iff r.arrow_id a,
        eq_iff r.id x.id,
        v.covers (place a i) x,
        fresh,
        h,
      ))

  -- Storing a record under a new id keeps the index in step with the lists.
  pub store_record-IsIndexed : IsIndexed (store_record now s r).0
  store_record-IsIndexed = record {
    leads = store_record-leads;
    covers = λ loc. store_record-covers loc.arrow_id loc.idx;
  }

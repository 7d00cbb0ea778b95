-- ===== src/Findings/Moving.antt =====
-- A transition writes one record where it stands.
use ghyll.Base.{
  ℕ, String, ◌≡◌, inl, inr, ◌&&◌, some, arith, eq_iff, nat_eq, ◌==◌, string_key, set, get_elem?-set,
  if◌then◌else◌, Bool-cases,
}
use ghyll.Base.Map.{lookup, lookup-insert}
use ghyll.Arrow.{FindingStatus}
use ghyll.Findings.{
  FindingRecord, FindingLocator, FindingsStore, findings_on, record_at, store_moved, moved,
  or_empty,
}
use ghyll.Findings.Indexing.{IsIndexed, place}

module _ (now : String) (s : FindingsStore) (loc : FindingLocator) (r : FindingRecord)
    (to : FindingStatus) (role reason : String) (held : record_at s loc ≡ some r) where
  pub record_at-move :
      (a : String) (i : ℕ)
      → record_at (store_moved now s loc r to role reason).0 (place a i) ≡ (
          if loc.arrow_id == a
          then if nat_eq loc.idx i then some (moved r to role reason) else record_at s (place a i)
          else record_at s (place a i))
  unfolding store_moved record_at findings_on
  record_at-move a i =
      let old = or_empty (lookup loc.arrow_id s.by_arrow) in
      let r' = moved r to role reason in
      ground (
        arith,
        eq_iff loc.arrow_id a,
        lookup-insert loc.arrow_id a (set old loc.idx r') s.by_arrow,
        get_elem?-set old loc.idx i r' held,
      )

  module _ (v : IsIndexed s) where
    store_moved-leads :
        (id : String) (l : FindingLocator)
        → lookup id s.by_id ≡ some l
        → (x : FindingRecord) × (record_at (store_moved now s loc r to role reason).0 l ≡ some x)
          × (x.id ≡ id)
          × (x.arrow_id ≡ l.arrow_id)
    unfolding moved
    store_moved-leads id l h =
        let (x, at, i, a) = v.leads id l h in
        elim (Bool-cases (loc.arrow_id == l.arrow_id && nat_eq loc.idx l.idx)) [
          | inl e ↦ (
            moved r to role reason,
            rw (record_at-move l.arrow_id l.idx) (ground (arith, e)),
            ground (arith, eq_iff loc.arrow_id l.arrow_id, held, at, i),
            ground (arith, eq_iff loc.arrow_id l.arrow_id, held, at, a),
          )
          | inr e ↦ (x, rw (record_at-move l.arrow_id l.idx) (ground (arith, e, at)), i, a)
        ]

    store_moved-covers :
        (a : String) (i : ℕ) (x : FindingRecord)
        → record_at (store_moved now s loc r to role reason).0 (place a i) ≡ some x
        → lookup x.id s.by_id ≡ some (place a i)
    unfolding moved
    store_moved-covers a i x h = ground (
      arith,
      h,
      record_at-move a i,
      eq_iff loc.arrow_id a,
      v.covers loc r held,
      v.covers (place a i) x,
    )

    -- A transition keeps the index in step with the lists.
    pub store_moved-IsIndexed : IsIndexed (store_moved now s loc r to role reason).0
    unfolding store_moved
    store_moved-IsIndexed = record {
      leads = store_moved-leads;
      covers = λ l. store_moved-covers l.arrow_id l.idx;
    }

-- ===== src/Findings/Purging.antt =====
-- Forgetting all findings of an arrow.
use ghyll.Base.{
  String, ◌≡◌, refl, inl, inr, false, none, some, List, [], ◌∷◌, arith, eq_iff, ◌==◌, string_key,
  any, any-get_elem?, any_elem, if◌then◌else◌, Bool-cases,
}
use ghyll.Base.Map.{Map, lookup, delete, lookup-delete}
use ghyll.Findings.{
  FindingRecord, FindingLocator, FindingsStore, findings_on, record_at, forget_arrow, delete_all,
  or_empty,
}
use ghyll.Findings.Indexing.{IsIndexed, place}

lookup-delete_all :
    (rs : List FindingRecord) (m : Map String FindingLocator) (j : String)
    → lookup j (delete_all rs m) ≡ (if any (λ r. r.id == j) rs then none else lookup j m)
lookup-delete_all [] m j = refl
lookup-delete_all (r ∷ rs) m j =
    ground (arith, lookup-delete_all rs (delete r.id m) j, lookup-delete r.id j m)

module _ (now : String) (s : FindingsStore) (arrow_id : String) where
  -- The store after the call, for an arrow that has findings or not.
  pub by_id-forget_arrow :
      (j : String)
      → lookup j (forget_arrow now s arrow_id).1.by_id
        ≡ (if any (λ r. r.id == j) (findings_on s arrow_id) then none else lookup j s.by_id)
  unfolding forget_arrow findings_on
  by_id-forget_arrow j =
      ground (arith, lookup-delete_all (or_empty (lookup arrow_id s.by_arrow)) s.by_id j)

  pub record_at-forget_arrow :
      (l : FindingLocator)
      → record_at (forget_arrow now s arrow_id).1 l
        ≡ (if arrow_id == l.arrow_id then none else record_at s l)
  unfolding forget_arrow record_at findings_on
  record_at-forget_arrow l =
      ground (arith, eq_iff arrow_id l.arrow_id, lookup-delete arrow_id l.arrow_id s.by_arrow)

  module _ (v : IsIndexed s) where
    stays :
        (j : String) (l : FindingLocator) (x : FindingRecord)
        → record_at s l ≡ some x
        → x.id ≡ j
        → any (λ r. r.id == j) (findings_on s arrow_id) ≡ false
        → arrow_id == l.arrow_id ≡ false
    unfolding record_at
    stays j l x at e n = ground (
      arith,
      eq_iff x.id j,
      eq_iff arrow_id l.arrow_id,
      at,
      e,
      n,
      any-get_elem? (λ r. r.id == j) (findings_on s arrow_id) l.idx x,
    )

    forget_arrow-leads :
        (j : String) (l : FindingLocator)
        → lookup j (forget_arrow now s arrow_id).1.by_id ≡ some l
        → (x : FindingRecord) × (record_at (forget_arrow now s arrow_id).1 l ≡ some x)
          × (x.id ≡ j)
          × (x.arrow_id ≡ l.arrow_id)
    forget_arrow-leads j l h =
        let h' = rw (by_id-forget_arrow j) at h in
        elim (Bool-cases (any (λ r. r.id == j) (findings_on s arrow_id))) [
          | inl e ↦ absurd (ground (arith, h', e))
          | inr e ↦
              let (x, at, i, a) = v.leads j l (ground (arith, h', e)) in
              (x, rw (record_at-forget_arrow l, stays j l x at i e) at, i, a)
        ]

    forget_arrow-covers :
        (l : FindingLocator) (x : FindingRecord)
        → record_at (forget_arrow now s arrow_id).1 l ≡ some x
        → lookup x.id (forget_arrow now s arrow_id).1.by_id ≡ some l
    unfolding record_at
    forget_arrow-covers l x h =
        let here = rw (record_at-forget_arrow l) at h in
        elim (Bool-cases (any (λ r. r.id == x.id) (findings_on s arrow_id))) [
          | inr e ↦ rw (by_id-forget_arrow x.id, e) (ground (arith, here, v.covers l x))
          | inl e ↦
              let (i, y, at, ey) = any_elem (λ r. r.id == x.id) (findings_on s arrow_id) e in
              absurd (
                ground (
                  arith,
                  here,
                  ey,
                  eq_iff y.id x.id,
                  eq_iff arrow_id l.arrow_id,
                  v.covers (place arrow_id i) y at,
                  v.covers l x,
                ))
        ]

    -- Forgetting an arrow keeps the index in step with the lists.
    pub forget_arrow-IsIndexed : IsIndexed (forget_arrow now s arrow_id).1
    forget_arrow-IsIndexed = record { leads = forget_arrow-leads; covers = forget_arrow-covers }

-- ===== src/Findings/Forgetting.antt =====
-- Forgetting a finding shifts the entries behind it, and rewrites their places in the index.
use ghyll.Base.{
  ℕ, zero, suc, ◌+◌, ◌-◌, String, ◌≡◌, ◌≢◌, refl, ◌∙◌, ◌⊎◌, inl, inr, none, some, List, [], ◌∷◌,
  arith, eq_iff, ltb, ◌==◌, string_key, get_elem?, remove_at, drop, get_elem?-remove_at,
  get_elem?-drop, if◌then◌else◌, Bool-cases,
}
use ghyll.Base.Map.{Map, lookup, insert, delete, lookup-insert, lookup-delete}
use ghyll.Findings.{
  FindingRecord, FindingLocator, FindingsStore, findings_on, record_at, drop_record, reindex,
  or_empty,
}
use ghyll.Findings.Indexing.{IsIndexed, place}

-- The last entry of `rs` with the id `j`, or none: what `reindex` leaves for `j`.
abbrev Reindexed : String → ℕ → List FindingRecord → Map String FindingLocator → String → Type 0
Reindexed a i rs m j =
    ((k : ℕ) × (x : FindingRecord) × (get_elem? rs k ≡ some x)
      × (x.id ≡ j)
      × (lookup j (reindex a i rs m) ≡ some (place a (i + k))))
    ⊎ ((lookup j (reindex a i rs m) ≡ lookup j m)
        × ((k : ℕ) (x : FindingRecord) → get_elem? rs k ≡ some x → x.id ≢ j))

lookup-reindex :
    (a : String) (i : ℕ) (rs : List FindingRecord) (m : Map String FindingLocator) (j : String)
    → Reindexed a i rs m j
unfolding reindex
lookup-reindex a i [] m j = inr (refl, λ k x h. cc)
lookup-reindex a i (r ∷ rs) m j = elim (lookup-reindex a (suc i) rs (insert r.id (place a i) m) j) [
  | inl (k, x, at, e, l) ↦ inl (suc k, x, at, e, ground (arith, l))
  | inr (l, absent) ↦ elim (Bool-cases (r.id == j)) [
    | inl e ↦ inl (
      zero,
      r,
      refl,
      (eq_iff r.id j).0 e,
      ground (arith, l, e, lookup-insert r.id j (place a i) m),
    )
    | inr e ↦ inr (
      ground (arith, l, e, lookup-insert r.id j (place a i) m),
      absent_cons r rs j absent (λ p. cc (e, (eq_iff r.id j).1 p)),
    )
  ]
]
  where
    absent_cons :
        (r : FindingRecord) (rs : List FindingRecord) (j : String)
        → ((k : ℕ) (x : FindingRecord) → get_elem? rs k ≡ some x → x.id ≢ j)
        → r.id ≢ j
        → (k : ℕ) (x : FindingRecord) → get_elem? (r ∷ rs) k ≡ some x
        → x.id ≢ j
    absent_cons r rs j h e zero x at = λ p. ground (arith, at, p, e)
    absent_cons r rs j h e (suc k) x at = h k x at

module _ (now : String) (s : FindingsStore) (gone : String) (loc : FindingLocator)
    (r : FindingRecord) where
  pub record_at-drop :
      (a : String) (i : ℕ)
      → record_at (drop_record now s gone loc r).0 (place a i) ≡ (
          if loc.arrow_id == a
          then record_at s (place a (if ltb i loc.idx then i else suc i))
          else record_at s (place a i))
  unfolding drop_record record_at findings_on
  record_at-drop a i =
      let old = or_empty (lookup loc.arrow_id s.by_arrow) in
      ground (
        arith,
        eq_iff loc.arrow_id a,
        lookup-insert loc.arrow_id a (remove_at old loc.idx) s.by_arrow,
        get_elem?-remove_at old loc.idx i,
      )

  shifted :
      (k : ℕ)
      → get_elem? (drop loc.idx (remove_at (findings_on s loc.arrow_id) loc.idx)) k
        ≡ record_at s (place loc.arrow_id (suc (loc.idx + k)))
  unfolding record_at
  shifted k =
      let l = findings_on s loc.arrow_id in
      ground (
        arith,
        get_elem?-drop loc.idx (remove_at l loc.idx) k,
        get_elem?-remove_at l loc.idx (loc.idx + k),
      )

  -- What the new index has for `j`: the place of an entry that was shifted, or what it had.
  pub lookup-drop :
      (j : String)
      → ((k : ℕ) × (x : FindingRecord) × (record_at s (place loc.arrow_id (suc (loc.idx + k)))
            ≡ some x)
          × (x.id ≡ j)
          × (lookup j (drop_record now s gone loc r).0.by_id
              ≡ some (place loc.arrow_id (loc.idx + k))))
        ⊎ ((lookup j (drop_record now s gone loc r).0.by_id
              ≡ (if gone == j then none else lookup j s.by_id))
            × ((k : ℕ) (x : FindingRecord)
                → record_at s (place loc.arrow_id (suc (loc.idx + k))) ≡ some x
                → x.id ≢ j))
  unfolding drop_record
  lookup-drop j =
      let arr = remove_at (findings_on s loc.arrow_id) loc.idx in
      elim (lookup-reindex loc.arrow_id loc.idx (drop loc.idx arr) (delete gone s.by_id) j) [
        | inl (k, x, at, e, l) ↦ inl (k, x, cc (shifted k, at), e, l)
        | inr (l, absent) ↦
            inr (cc (l, lookup-delete gone j s.by_id), λ k x at. absent k x (cc (shifted k, at)))
      ]

  module _ (v : IsIndexed s) (found : lookup gone s.by_id ≡ some loc)
      (held : record_at s loc ≡ some r) where
    -- A record that the index covers bears the arrow of its place.
    pub arrow_at :
        (l : FindingLocator) (x : FindingRecord) → record_at s l ≡ some x → x.arrow_id ≡ l.arrow_id
    arrow_at l x at =
        let (y, at', e, a) = v.leads x.id l (v.covers l x at) in ground (arith, at, at', a)

    pub gone_id : r.id ≡ gone
    gone_id = let (y, at, e, a) = v.leads gone loc found in ground (arith, held, at, e)

    pub kept-leads :
        (l : FindingLocator) (x : FindingRecord)
        → record_at s l ≡ some x
        → x.id ≢ gone
        → ((k : ℕ) (y : FindingRecord)
            → record_at s (place loc.arrow_id (suc (loc.idx + k))) ≡ some y
            → y.id ≢ x.id)
        → record_at (drop_record now s gone loc r).0 l ≡ some x
    kept-leads l x at ne absent = rw (record_at-drop l.arrow_id l.idx) (
        ground (
          arith,
          eq_iff loc.arrow_id l.arrow_id,
          at,
          held,
          found,
          ne,
          gone_id,
          v.covers l x at,
          absent (l.idx - loc.idx - 1) x,
        ))

    drop_record-leads :
        (j : String) (l : FindingLocator)
        → lookup j (drop_record now s gone loc r).0.by_id ≡ some l
        → (x : FindingRecord) × (record_at (drop_record now s gone loc r).0 l ≡ some x)
          × (x.id ≡ j)
          × (x.arrow_id ≡ l.arrow_id)
    drop_record-leads j l h = elim (lookup-drop j) [
      | inl (k, x, at, e, p) ↦
          let q = arrow_at (place loc.arrow_id (suc (loc.idx + k))) x at in
          (
            x,
            rw (record_at-drop l.arrow_id l.idx)
                (ground (arith, eq_iff loc.arrow_id l.arrow_id, at, p, h)),
            e,
            ground (arith, p, h, q),
          )
      | inr (p, absent) ↦ elim (Bool-cases (gone == j)) [
        | inl e ↦ absurd (ground (arith, p, e, h))
        | inr e ↦
            let (x, at, i, a) = v.leads j l (ground (arith, p, e, h)) in
            (
              x,
              kept-leads l x at (λ q. ground (arith, q, i, e, eq_iff gone j))
                  (λ k y aty q. absent k y aty (q ∙ i)),
              i,
              a,
            )
      ]
    ]

    -- The index of a record that did not move.
    covers-unmoved :
        (l : FindingLocator) (x : FindingRecord)
        → record_at s l ≡ some x
        → l ≢ loc
        → ((k : ℕ) → l ≢ place loc.arrow_id (suc (loc.idx + k)))
        → lookup x.id (drop_record now s gone loc r).0.by_id ≡ some l
    covers-unmoved l x at other fixed = elim (lookup-drop x.id) [
      | inl (k, y, aty, e, p) ↦ absurd (
          fixed k (
            ground
              (arith, v.covers l x at, e, v.covers (place loc.arrow_id (suc (loc.idx + k))) y aty)))
      | inr (p, absent) ↦ ground (arith, p, v.covers l x at, found, eq_iff gone x.id, other)
    ]

    -- The index of a record that moved up by one place.
    covers-moved :
        (k : ℕ) (x : FindingRecord)
        → record_at s (place loc.arrow_id (suc (loc.idx + k))) ≡ some x
        → lookup x.id (drop_record now s gone loc r).0.by_id
          ≡ some (place loc.arrow_id (loc.idx + k))
    covers-moved k x at = elim (lookup-drop x.id) [
      | inl (k', y, aty, e, p) ↦ ground (
        arith,
        p,
        e,
        v.covers (place loc.arrow_id (suc (loc.idx + k))) x at,
        v.covers (place loc.arrow_id (suc (loc.idx + k'))) y aty,
      )
      | inr (p, absent) ↦ absurd (absent k x at refl)
    ]

    drop_record-covers :
        (a : String) (i : ℕ) (x : FindingRecord)
        → record_at (drop_record now s gone loc r).0 (place a i) ≡ some x
        → lookup x.id (drop_record now s gone loc r).0.by_id ≡ some (place a i)
    drop_record-covers a i x h =
        let here = rw (record_at-drop a i) at h in
        elim (Bool-cases (loc.arrow_id == a)) [
          | inr e ↦
              covers-unmoved (place a i) x (ground (arith, here, e))
                (λ q. ground (arith, q, e, eq_iff loc.arrow_id a))
                (λ k q. ground (arith, q, e, eq_iff loc.arrow_id a))
          | inl e ↦ elim (Bool-cases (ltb i loc.idx)) [
            | inl lt ↦
                covers-unmoved (place a i) x (ground (arith, here, e, lt))
                  (λ q. ground (arith, q, lt)) (λ k q. ground (arith, q, lt))
            | inr ge ↦
                let q =
                  covers-moved (i - loc.idx) x
                    (ground (arith, here, e, ge, eq_iff loc.arrow_id a)) in
                ground (arith, q, e, ge, eq_iff loc.arrow_id a)
          ]
        ]

    -- Forgetting a finding keeps the index in step with the lists.
    pub drop_record-IsIndexed : IsIndexed (drop_record now s gone loc r).0
    drop_record-IsIndexed = record {
      leads = drop_record-leads;
      covers = λ l. drop_record-covers l.arrow_id l.idx;
    }

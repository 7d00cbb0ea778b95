-- ===== src/Findings/Contents.antt =====
-- The store as a map from ids to records: each operation does to the map what its name says.
use ghyll.Base.{
  suc, ◌+◌, String, ◌≡◌, sym, ap, ◌∙◌, inl, inr, none, some, arith, eq_iff, ◌==◌, string_key,
  if◌then◌else◌, Bool-cases, Option-cases, length,
}
use ghyll.Base.Map.{lookup}
use ghyll.Arrow.{FindingStatus}
use ghyll.Findings.{
  FindingRecord, FindingLocator, FindingsStore, findings_on, record_at, get, store_record,
  store_moved, moved, drop_record,
}
use ghyll.Findings.Indexing.{
  IsIndexed, place, record_at-store_new, record_at-store_old, lookup-store,
}
use ghyll.Findings.Moving.{record_at-move}
use ghyll.Findings.Forgetting.{lookup-drop, record_at-drop, kept-leads, gone_id}

-- Under the invariant, `get` finds nothing exactly where the index has nothing.
pub get-none :
    (s : FindingsStore) (id : String) → IsIndexed s → get s id ≡ none → lookup id s.by_id ≡ none
unfolding get
get-none s id v h = elim (Option-cases (lookup id s.by_id)) [
  | inl e ↦ e
  | inr (loc, e) ↦ let (r, at, i, a) = v.leads id loc e in absurd (ground (arith, h, e, at))
]

pub get-missing : (s : FindingsStore) (j : String) → lookup j s.by_id ≡ none → get s j ≡ none
unfolding get
get-missing s j h = rw (h, get)

pub get-at :
    (s : FindingsStore) (j : String) (loc : FindingLocator)
    → lookup j s.by_id ≡ some loc
    → get s j ≡ record_at s loc
unfolding get
get-at s j loc h = rw (h, get)

module _ (now : String) (s : FindingsStore) (v : IsIndexed s) where
  pub get-store_record :
      (r : FindingRecord)
      → lookup r.id s.by_id ≡ none
      → (j : String) → get (store_record now s r).0 j ≡ (if r.id == j then some r else get s j)
  get-store_record r fresh j =
      let s' = (store_record now s r).0 in
      let look = lookup-store now s r j in
      let spot = place r.arrow_id (length (findings_on s r.arrow_id)) in
      elim (Bool-cases (r.id == j)) [
        | inl e ↦ rw e (get-at s' j spot (rw e at look) ∙ record_at-store_new now s r v fresh)
        | inr e ↦ rw e (elim (Option-cases (lookup j s.by_id)) [
          | inl n ↦ get-missing s' j (rw e at look ∙ n) ∙ sym (get-missing s j n)
          | inr (loc, h) ↦
              let (x, at, i, a) = v.leads j loc h in
              get-at s' j loc (rw e at look ∙ h)
              ∙ record_at-store_old now s r x loc at
              ∙ sym at
              ∙ sym (get-at s j loc h)
        ])
      ]

  pub get-store_moved :
      (id : String) (loc : FindingLocator) (r : FindingRecord) (to : FindingStatus)
      (role reason : String)
      → lookup id s.by_id ≡ some loc
      → record_at s loc ≡ some r
      → (j : String)
      → get (store_moved now s loc r to role reason).0 j
        ≡ (if id == j then some (moved r to role reason) else get s j)
  unfolding store_moved
  get-store_moved id loc r to role reason found held j =
      let s' = (store_moved now s loc r to role reason).0 in
      elim (Option-cases (lookup j s.by_id)) [
        | inl n ↦ ground (arith, get-missing s' j n, get-missing s j n, found, eq_iff id j)
        | inr (l, h) ↦
            let (x, at, i, a) = v.leads j l h in
            ground (
              arith,
              get-at s' j l h,
              get-at s j l h,
              found,
              h,
              held,
              at,
              i,
              eq_iff id j,
              eq_iff loc.arrow_id l.arrow_id,
              gone_id now s id loc r v found held,
              record_at-move now s loc r to role reason held l.arrow_id l.idx,
            )
      ]

  pub get-drop_record :
      (id : String) (loc : FindingLocator) (r : FindingRecord)
      → lookup id s.by_id ≡ some loc
      → record_at s loc ≡ some r
      → (j : String) → get (drop_record now s id loc r).0 j ≡ (if id == j then none else get s j)
  get-drop_record id loc r found held j =
      let s' = (drop_record now s id loc r).0 in
      elim (lookup-drop now s id loc r j) [
        | inl (k, x, at, e, p) ↦
            let old = place loc.arrow_id (suc (loc.idx + k)) in
            let q = v.covers old x at in
            ground (
              arith,
              at,
              e,
              q,
              found,
              eq_iff id j,
              eq_iff loc.arrow_id loc.arrow_id,
              get-at s' j (place loc.arrow_id (loc.idx + k)) p,
              get-at s j old (ap (λ i. lookup i s.by_id) (sym e) ∙ q),
              record_at-drop now s id loc r loc.arrow_id (loc.idx + k),
            )
        | inr (p, absent) ↦ elim (Bool-cases (id == j)) [
          | inl e ↦ rw e (get-missing s' j (rw e at p))
          | inr e ↦ rw e (elim (Option-cases (lookup j s.by_id)) [
            | inl n ↦ get-missing s' j (rw e at p ∙ n) ∙ sym (get-missing s j n)
            | inr (l, h) ↦
                let (x, at, i, a) = v.leads j l h in
                get-at s' j l (rw e at p ∙ h)
                ∙ kept-leads now s id loc r v found held l x at
                    (λ q. ground (arith, q, i, e, eq_iff id j))
                    (λ k y aty q. absent k y aty (q ∙ i))
                ∙ sym at
                ∙ sym (get-at s j l h)
          ])
        ]
      ]

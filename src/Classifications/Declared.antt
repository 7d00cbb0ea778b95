-- ===== src/Classifications/Declared.antt =====
-- Every classification is of a declared requirement.
use ghyll.Base.{
  String, ◌≡◌, ◌⊎◌, refl, inl, inr, true, List, [], ◌∷◌, arith, eq_iff, string_key, ok, err, Result,
  Option-cases,
}
use ghyll.Base.Map.{
  lookup, insert, delete, member, lookup-insert, lookup-delete, member-insert, member-delete,
  member-nil,
}
use ghyll.Depth.{Requirement, Classification}
use ghyll.Classifications.{
  ClassificationsStore, ClassificationsEvent, Change, new_classifications_store, requirements_of,
  classifications_of, inner, declare_requirement, record_classification, forget_requirement,
  forget_requirements, normalize_arrow_id,
}

-- Every classification is of a requirement that is declared on its arrow.
IsDeclared : ClassificationsStore → Type 0
IsDeclared s =
    (a id : String)
    → member id (classifications_of s a) ≡ true
    → member id (requirements_of s a) ≡ true

-- The calls on a store.
data StoreCall : Type 0 where
  declaring : String → Requirement → StoreCall
  classifying : String → Classification → StoreCall
  dropping : String → String → StoreCall
  dropping_all : String → StoreCall

abbrev changed : ClassificationsStore → Change → ClassificationsStore
changed s (ok (s', events)) = s'
changed s (err e) = s

unfoldable store_step : ClassificationsStore → StoreCall → ClassificationsStore
store_step s (declaring a r) = changed s (declare_requirement s a r)
store_step s (classifying a c) = changed s (record_classification s a c)
store_step s (dropping a id) = changed s (forget_requirement s a id)
store_step s (dropping_all a) = (forget_requirements s a).1

unfoldable store_run : ClassificationsStore → List StoreCall → ClassificationsStore
unfolding store_step
store_run s [] = s
store_run s (c ∷ cs) = store_run (store_step s c) cs

arrow-cases :
    {E : Type 0} (r : Result E String) → ((e : E) × (r ≡ err e)) ⊎ ((x : String) × (r ≡ ok x))
arrow-cases (err e) = inl (e, refl)
arrow-cases (ok x) = inr (x, refl)

module _ (s s' : ClassificationsStore) (events : List ClassificationsEvent) (v : IsDeclared s) where
  declare_requirement-IsDeclared :
      (a : String) (r : Requirement) → declare_requirement s a r ≡ ok (s', events) → IsDeclared s'
  unfolding declare_requirement IsDeclared requirements_of classifications_of
  declare_requirement-IsDeclared a r h b id m = elim (arrow-cases (normalize_arrow_id a)) [
    | inl (e, n) ↦ absurd (ground (arith, h, n))
    | inr (x, n) ↦ ground (
      arith,
      h,
      n,
      m,
      v b id,
      eq_iff x b,
      lookup-insert x b (insert r.id r (inner (lookup x s.reqs))) s.reqs,
      member-insert r.id id r (inner (lookup x s.reqs)),
    )
  ]

  record_classification-IsDeclared :
      (a : String) (c : Classification)
      → record_classification s a c ≡ ok (s', events)
      → IsDeclared s'
  unfolding record_classification IsDeclared requirements_of classifications_of
  record_classification-IsDeclared a c h b id m = elim (arrow-cases (normalize_arrow_id a)) [
    | inl (e, n) ↦ absurd (ground (arith, h, n))
    | inr (x, n) ↦ ground (
      arith,
      h,
      n,
      m,
      v b id,
      eq_iff x b,
      eq_iff c.requirement_id id,
      lookup-insert x b (insert c.requirement_id c (inner (lookup x s.classifications)))
          s.classifications,
      member-insert c.requirement_id id c (inner (lookup x s.classifications)),
    )
  ]

  forget_requirement-IsDeclared :
      (a req_id : String) → forget_requirement s a req_id ≡ ok (s', events) → IsDeclared s'
  unfolding forget_requirement IsDeclared requirements_of classifications_of
  forget_requirement-IsDeclared a req_id h b id m = elim (arrow-cases (normalize_arrow_id a)) [
    | inl (e, n) ↦ absurd (ground (arith, h, n))
    | inr (x, n) ↦ elim (Option-cases (lookup x s.classifications)) [
      | inl g ↦ ground (
        arith,
        h,
        n,
        g,
        m,
        v b id,
        eq_iff x b,
        lookup-insert x b (delete req_id (inner (lookup x s.reqs))) s.reqs,
        member-delete req_id id (inner (lookup x s.reqs)),
        member-nil Classification id,
      )
      | inr (cm, g) ↦ ground (
        arith,
        h,
        n,
        g,
        m,
        v b id,
        eq_iff x b,
        lookup-insert x b (delete req_id (inner (lookup x s.reqs))) s.reqs,
        lookup-insert x b (delete req_id cm) s.classifications,
        member-delete req_id id (inner (lookup x s.reqs)),
        member-delete req_id id cm,
      )
    ]
  ]

forget_requirements-IsDeclared :
    (s : ClassificationsStore) (a : String) → IsDeclared s → IsDeclared (forget_requirements s a).1
unfolding forget_requirements IsDeclared requirements_of classifications_of
forget_requirements-IsDeclared s a v b id m = elim (arrow-cases (normalize_arrow_id a)) [
  | inl (e, n) ↦ ground (arith, n, m, v b id)
  | inr (x, n) ↦ ground (
    arith,
    n,
    m,
    v b id,
    lookup-delete x b s.reqs,
    lookup-delete x b s.classifications,
    member-nil Classification id,
  )
]

changed-IsDeclared :
    (s : ClassificationsStore) (r : Change)
    → IsDeclared s
    → ((s' : ClassificationsStore) (events : List ClassificationsEvent)
        → r ≡ ok (s', events)
        → IsDeclared s')
    → IsDeclared (changed s r)
changed-IsDeclared s (ok (s', events)) v k = k s' events refl
changed-IsDeclared s (err e) v k = v

store_step-IsDeclared :
    (s : ClassificationsStore) (c : StoreCall) → IsDeclared s → IsDeclared (store_step s c)
unfolding store_step
store_step-IsDeclared s (declaring a r) v =
    changed-IsDeclared s (declare_requirement s a r) v
      (λ s' events h. declare_requirement-IsDeclared s s' events v a r h)
store_step-IsDeclared s (classifying a c) v =
    changed-IsDeclared s (record_classification s a c) v
      (λ s' events h. record_classification-IsDeclared s s' events v a c h)
store_step-IsDeclared s (dropping a id) v =
    changed-IsDeclared s (forget_requirement s a id) v
      (λ s' events h. forget_requirement-IsDeclared s s' events v a id h)
store_step-IsDeclared s (dropping_all a) v = forget_requirements-IsDeclared s a v

store_run-IsDeclared :
    (s : ClassificationsStore) (cs : List StoreCall) → IsDeclared s → IsDeclared (store_run s cs)
unfolding store_run
store_run-IsDeclared s [] v = v
store_run-IsDeclared s (c ∷ cs) v =
    store_run-IsDeclared (store_step s c) cs (store_step-IsDeclared s c v)

new_classifications_store-IsDeclared : IsDeclared new_classifications_store
unfolding IsDeclared new_classifications_store classifications_of lookup
new_classifications_store-IsDeclared a id m = ground (arith, m, member-nil Classification id)

-- Whatever is called on a new store, a requirement that is classified is declared on the same arrow.
store_run-new-IsDeclared :
    (cs : List StoreCall) → IsDeclared (store_run new_classifications_store cs)
store_run-new-IsDeclared cs =
    store_run-IsDeclared new_classifications_store cs new_classifications_store-IsDeclared

-- ===== src/Commit/Laws.antt =====
-- A commit stops the passes that run under the amended arrow.
use ghyll.Base.{
  ℕ, String, ◌≡◌, ◌≢◌, subst, inl, inr, some, List, [], ◌∷◌, arith, eq_iff, ◌==◌, string_key, ok,
  get_elem?, nat_eq, get_elem?-set, All, Option-cases, Bool-cases,
}
use ghyll.Passes.{Pass, World, active, aborted, ended, abort_pass}
use ghyll.Commit.{
  CommitRequest, CommitState, CommitResult, Bindings, abort_one, abort_all, refs_of, is_running,
  reason_of, apply_commit, commit_amendment,
}

-- The pass at the reference does not run under the arrow.
abbrev pub Quiet : String → World → ℕ → Type 0
Quiet source w i =
    (p : Pass) → get_elem? w.passes i ≡ some p → p.arrow_id ≡ source → p.state ≢ active

module _ (now : ℕ) (source reason : String) where
  abort_one-stopped : (w : World) (ref : ℕ) → Quiet source (abort_one now source reason w ref).1 ref
  unfolding abort_one abort_pass
  abort_one-stopped w ref p at on was = elim (Option-cases (get_elem? w.passes ref)) [
    | inl n ↦ ground (arith, n, at)
    | inr (q, e) ↦ ground (
      arith,
      e,
      at,
      on,
      was,
      eq_iff q.arrow_id source,
      get_elem?-set w.passes ref ref (ended now q reason aborted) e,
    )
  ]

  abort_one-kept :
      (w : World) (ref i : ℕ)
      → Quiet source w i
      → Quiet source (abort_one now source reason w ref).1 i
  unfolding abort_one abort_pass
  abort_one-kept w ref i v p at on was = elim (Option-cases (get_elem? w.passes ref)) [
    | inl n ↦ v p (ground (arith, n, at)) on was
    | inr (q, e) ↦ elim (Bool-cases (q.arrow_id == source)) [
      | inr other ↦ v p (ground (arith, e, at, other)) on was
      | inl same ↦ elim (Bool-cases (is_running q.state)) [
        | inr still ↦ v p (ground (arith, e, at, same, still)) on was
        | inl runs ↦ elim (Bool-cases (nat_eq ref i)) [
          | inl here ↦ ground (
            arith,
            e,
            at,
            same,
            runs,
            here,
            was,
            get_elem?-set w.passes ref i (ended now q reason aborted) e,
          )
          | inr there ↦
              v p
                (ground (
                  arith,
                  e,
                  at,
                  same,
                  runs,
                  there,
                  get_elem?-set w.passes ref i (ended now q reason aborted) e,
                ))
                on was
        ]
      ]
    ]
  ]

  abort_all-kept :
      (w : World) (refs : List ℕ) (i : ℕ)
      → Quiet source w i
      → Quiet source (abort_all now source reason w refs).1 i
  unfolding abort_all
  abort_all-kept w [] i v = v
  abort_all-kept w (ref ∷ refs) i v =
      abort_all-kept (abort_one now source reason w ref).1 refs i (abort_one-kept w ref i v)

  abort_all-stopped :
      (w : World) (refs : List ℕ) → All (Quiet source (abort_all now source reason w refs).1) refs
  unfolding abort_all
  abort_all-stopped w [] = tt
  abort_all-stopped w (ref ∷ refs) =
      let w' = (abort_one now source reason w ref).1 in
      (abort_all-kept w' refs ref (abort_one-stopped w ref), abort_all-stopped w' refs)

commit-world :
    (now : ℕ) (st st' : CommitState) (req : CommitRequest) (bindings : Bindings)
    (result : CommitResult)
    → commit_amendment now st req bindings ≡ ok (result, st')
    → (abort_all now req.amendment.source_arrow
        (reason_of req)
        st.world
        (refs_of st.world.registry)).1
      ≡ st'.world
unfolding commit_amendment apply_commit
commit-world now st st' req bindings result h = ground (arith, h)

-- A commit that goes through leaves no pass of the registry open on the arrow that the amendment
-- comes from, whether or not an arrow could be appended.
pub commit_amendment-stopped :
    (now : ℕ) (st st' : CommitState) (req : CommitRequest) (bindings : Bindings)
    (result : CommitResult)
    → commit_amendment now st req bindings ≡ ok (result, st')
    → All (Quiet req.amendment.source_arrow st'.world) (refs_of st.world.registry)
commit_amendment-stopped now st st' req bindings result h =
    subst (λ w. All (Quiet req.amendment.source_arrow w) (refs_of st.world.registry))
      (commit-world now st st' req bindings result h)
      (abort_all-stopped now req.amendment.source_arrow (reason_of req) st.world
        (refs_of st.world.registry))

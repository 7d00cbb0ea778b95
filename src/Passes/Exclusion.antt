-- ===== src/Passes/Exclusion.antt =====
-- At most one open pass has a role in a context.
use ghyll.Base.{
  ℕ, pos, ◌≡◌, ◌≢◌, refl, sym, ◌∙◌, subst, inl, inr, ◌⊎◌, some, [], ◌∷◌, ◌++◌, arith, ok, err,
  Result, length, get_elem?, nat_eq, get_elem?-snoc, Bool-cases,
}
use ghyll.Base.Map.{lookup}
use ghyll.RoleLock.{
  slot_key, RoleContextLock, RoleContextLockToken, LockTable, LockError, try_acquire,
}
use ghyll.RoleLock.Slots.{key, held_by, try_acquire-slots}
use ghyll.RoleLock.Laws.{never_expires}
use ghyll.Passes.{Pass, PassOptions, World, new_world, active, open_pass, fresh_pass}

-- Every open pass holds its slot without a time limit, and no two open passes have one slot.
pub record IsExclusive (w : World) : Type 0 where
  pub signed :
      (i : ℕ) (p : Pass)
      → get_elem? w.passes i ≡ some p
      → p.lock_token ≡ record { key = key p.role p.context; pass_id = p.id }
  pub holds :
      (i : ℕ) (p : Pass)
      → get_elem? w.passes i ≡ some p
      → p.state ≡ active
      → (l : RoleContextLock) × (lookup p.lock_token.key w.locks ≡ some l)
        × (l.pass_id ≡ p.id)
        × (l.expires_at ≡ 0)
  pub apart :
      (i j : ℕ) (p q : Pass)
      → get_elem? w.passes i ≡ some p
      → get_elem? w.passes j ≡ some q
      → p.state ≡ active
      → q.state ≡ active
      → p.lock_token.key ≡ q.lock_token.key
      → i ≡ j

pub new_world-IsExclusive : IsExclusive new_world
unfolding new_world
new_world-IsExclusive = record {
  signed = λ i p h. cc;
  holds = λ i p h. cc;
  apart = λ i j p q h. cc;
}

acquire-cases :
    (r : Result LockError (RoleContextLockToken × LockTable))
    → ((e : LockError) × (r ≡ err e))
      ⊎ ((token : RoleContextLockToken) × (t : LockTable) × (r ≡ ok (token, t)))
acquire-cases (err e) = inl (e, refl)
acquire-cases (ok (token, t)) = inr (token, t, refl)

open_pass-inv :
    (now opened : ℕ) (w w' : World) (o : PassOptions) (ref : ℕ)
    → open_pass now opened w o ≡ ok (ref, w')
    → (token : RoleContextLockToken) × (locks : LockTable) × (try_acquire now w.locks o.role
          o.context o.pass_id o.lock_ttl
        ≡ ok (token, locks))
      × (ref ≡ length w.passes)
      × (w' ≡ record w { locks = locks; passes = w.passes ++ fresh_pass opened o token ∷ [] })
unfolding open_pass
open_pass-inv now opened w w' o ref h =
    elim (acquire-cases (try_acquire now w.locks o.role o.context o.pass_id o.lock_ttl)) [
      | inl (e, f) ↦ absurd (ground (arith, h, f))
      | inr (token, locks, f) ↦ (token, locks, f, ground (arith, h, f), ground (arith, h, f))
    ]

module _ (now opened : ℕ) (w : World) (o : PassOptions) (token : RoleContextLockToken)
    (locks : LockTable) (v : IsExclusive w) (untimed : o.lock_ttl ≡ pos 0)
    (got : try_acquire now w.locks o.role o.context o.pass_id o.lock_ttl ≡ ok (token, locks)) where
  grown : World
  grown = record w { locks = locks; passes = w.passes ++ fresh_pass opened o token ∷ [] }

  -- An element of the longer list is an old one, or the new one.
  grown-cases :
      (i : ℕ) (p : Pass)
      → get_elem? grown.passes i ≡ some p
      → (get_elem? w.passes i ≡ some p) ⊎ ((i ≡ length w.passes) × (p ≡ fresh_pass opened o token))
  unfolding grown
  grown-cases i p h = elim (Bool-cases (nat_eq i (length w.passes))) [
    | inl e ↦ inr (
      ground (arith, e),
      ground (arith, e, h, get_elem?-snoc w.passes (fresh_pass opened o token) i),
    )
    | inr e ↦ inl (ground (arith, e, h, get_elem?-snoc w.passes (fresh_pass opened o token) i))
  ]

  -- No open pass had the slot.
  grown-free :
      (i : ℕ) (p : Pass)
      → get_elem? w.passes i ≡ some p
      → p.state ≡ active
      → p.lock_token.key ≢ key o.role o.context
  grown-free i p h e same =
      let (free, tok, at) =
        try_acquire-slots now w.locks locks o.role o.context o.pass_id o.lock_ttl token got in
      let (l, held, by, forever) = v.holds i p h e in
      ground (
        arith,
        free l (subst (λ k. lookup k w.locks ≡ some l) same held),
        never_expires now l forever,
      )

  grown-holds :
      (i : ℕ) (p : Pass)
      → get_elem? grown.passes i ≡ some p
      → p.state ≡ active
      → (l : RoleContextLock) × (lookup p.lock_token.key grown.locks ≡ some l)
        × (l.pass_id ≡ p.id)
        × (l.expires_at ≡ 0)
  unfolding grown
  grown-holds i p h e =
      let (free, tok, at) =
        try_acquire-slots now w.locks locks o.role o.context o.pass_id o.lock_ttl token got in
      elim (grown-cases i p h) [
        | inl old ↦
            let (l, held, by, forever) = v.holds i p old e in
            let other = grown-free i p old e in
            (
              l,
              ground (
                arith,
                held,
                at p.lock_token.key,
                other,
                slot_key.same_iff (key o.role o.context) p.lock_token.key,
              ),
              by,
              forever,
            )
        | inr (last, new) ↦ (
          held_by now o.pass_id o.lock_ttl,
          ground (
            arith,
            at p.lock_token.key,
            new,
            tok,
            slot_key.same_iff (key o.role o.context) p.lock_token.key,
          ),
          ground (arith, new),
          ground (arith, untimed),
        )
      ]

  grown-apart :
      (i j : ℕ) (p q : Pass)
      → get_elem? grown.passes i ≡ some p
      → get_elem? grown.passes j ≡ some q
      → p.state ≡ active
      → q.state ≡ active
      → p.lock_token.key ≡ q.lock_token.key
      → i ≡ j
  grown-apart i j p q hp hq ep eq same =
      let (free, tok, at) =
        try_acquire-slots now w.locks locks o.role o.context o.pass_id o.lock_ttl token got in
      elim (grown-cases i p hp) [
        | inl old ↦ elim (grown-cases j q hq) [
          | inl old' ↦ v.apart i j p q old old' ep eq same
          | inr (last, new) ↦ absurd (ground (arith, grown-free i p old ep, same, new, tok))
        ]
        | inr (last, new) ↦ elim (grown-cases j q hq) [
          | inl old' ↦ absurd (ground (arith, grown-free j q old' eq, same, new, tok))
          | inr (last', new') ↦ last ∙ sym last'
        ]
      ]

  grown-IsExclusive : IsExclusive grown
  grown-IsExclusive =
      let (free, tok, at) =
        try_acquire-slots now w.locks locks o.role o.context o.pass_id o.lock_ttl token got in
      record {
        signed = λ i p h. elim (grown-cases i p h) [
          | inl old ↦ v.signed i p old
          | inr (last, new) ↦ ground (arith, new, tok)
        ];
        holds = grown-holds;
        apart = grown-apart;
      }

-- An opening without a time limit keeps the open passes apart.
pub open_pass-IsExclusive :
    (now opened : ℕ) (w w' : World) (o : PassOptions) (ref : ℕ)
    → IsExclusive w
    → o.lock_ttl ≡ pos 0
    → open_pass now opened w o ≡ ok (ref, w')
    → IsExclusive w'
unfolding grown
open_pass-IsExclusive now opened w w' o ref v untimed h =
    let (token, locks, got, r, e) = open_pass-inv now opened w w' o ref h in
    subst IsExclusive (sym e) (grown-IsExclusive now opened w o token locks v untimed got)

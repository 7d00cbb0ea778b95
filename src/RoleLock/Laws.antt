-- ===== src/RoleLock/Laws.antt =====
-- Whoever holds a slot keeps it.
use ghyll.Base.{
  ℕ, ℤ, String, ◌≡◌, refl, inl, inr, false, some, List, [], ◌∷◌, ◌==◌, arith, ok, err, Result,
  Bool-cases, All,
}
use ghyll.Base.Map.{lookup}
use ghyll.RoleLock.{
  RoleContextKey, slot_key, RoleContextLock, RoleContextLockToken, LockTable, LockError, busy,
  is_expired, claim_slot, check_acquire, try_acquire, release, expire_older_than,
}
use ghyll.RoleLock.Slots.{key, held_by, try_acquire-slots, release-slots}

-- The calls on a table, each acquisition with its time.
pub data LockCall : Type 0 where
  acquiring : ℕ → String → String → String → ℤ → LockCall
  releasing : RoleContextLockToken → LockCall
  sweeping : ℕ → LockCall

abbrev acquired : LockTable → Result LockError (RoleContextLockToken × LockTable) → LockTable
acquired t (ok (token, t')) = t'
acquired t (err e) = t

unfoldable pub lock_step : LockTable → LockCall → LockTable
lock_step t (acquiring now role context pass_id ttl) =
    acquired t (try_acquire now t role context pass_id ttl)
lock_step t (releasing token) = release t token
lock_step t (sweeping cutoff) = (expire_older_than cutoff t).1

unfoldable pub lock_run : LockTable → List LockCall → LockTable
unfolding lock_step
lock_run t [] = t
lock_run t (c ∷ cs) = lock_run (lock_step t c) cs

-- The calls that leave the lock of a pass alone: all but the release of its own token.
abbrev pub Spares : RoleContextKey → RoleContextLock → LockCall → Type 0
Spares k held (acquiring now role context pass_id ttl) = Unit
Spares k held (releasing token) = ¬ ((k ≡ token.key) × (held.pass_id ≡ token.pass_id))
Spares k held (sweeping cutoff) = Unit

expire_older_than-kept :
    (cutoff : ℕ) (t : LockTable) (k : RoleContextKey) (held : RoleContextLock)
    → lookup k t ≡ some held
    → is_expired cutoff held.expires_at ≡ false
    → lookup k (expire_older_than cutoff t).1 ≡ some held
unfolding expire_older_than lookup
expire_older_than-kept cutoff [] k held h e = cc
expire_older_than-kept cutoff ((j, l) ∷ t) k held h e = elim (Bool-cases (j == k)) [
  | inl same ↦ ground (arith, same, h, e)
  | inr other ↦
      ground (arith, other, expire_older_than-kept cutoff t k held (ground (arith, h, other)) e)
]

pub never_expires :
    (now : ℕ) (held : RoleContextLock)
    → held.expires_at ≡ 0
    → is_expired now held.expires_at ≡ false
unfolding is_expired
never_expires now held e = ground (arith, e)

module _ (k : RoleContextKey) (held : RoleContextLock) (forever : held.expires_at ≡ 0) where
  acquired-kept :
      (now : ℕ) (t : LockTable) (role context pass_id : String) (ttl : ℤ)
      (r : Result LockError (RoleContextLockToken × LockTable))
      → try_acquire now t role context pass_id ttl ≡ r
      → lookup k t ≡ some held
      → lookup k (acquired t r) ≡ some held
  acquired-kept now t role context pass_id ttl (err x) e h = h
  acquired-kept now t role context pass_id ttl (ok (token, t')) e h =
      let (free, tok, at) = try_acquire-slots now t t' role context pass_id ttl token e in
      elim (Bool-cases (key role context == k)) [
        | inl same ↦
            let at_k : lookup (key role context) t ≡ some held =
              ground (arith, h, (slot_key.same_iff (key role context) k).0 same) in
            absurd (ground (arith, free held at_k, never_expires now held forever))
        | inr other ↦ ground (arith, at k, other, h)
      ]

  lock_step-kept :
      (t : LockTable) (c : LockCall)
      → Spares k held c
      → lookup k t ≡ some held
      → lookup k (lock_step t c) ≡ some held
  unfolding lock_step
  lock_step-kept t (acquiring now role context pass_id ttl) s h =
      acquired-kept now t role context pass_id ttl (try_acquire now t role context pass_id ttl) refl
        h
  lock_step-kept t (releasing token) s h = (release-slots t token k held).1 (h, s)
  lock_step-kept t (sweeping cutoff) s h =
      expire_older_than-kept cutoff t k held h (never_expires cutoff held forever)

  lock_run-kept :
      (t : LockTable) (cs : List LockCall)
      → All (Spares k held) cs
      → lookup k t ≡ some held
      → lookup k (lock_run t cs) ≡ some held
  unfolding lock_run
  lock_run-kept t [] s h = h
  lock_run-kept t (c ∷ cs) (s, ss) h = lock_run-kept (lock_step t c) cs ss (lock_step-kept t c s h)

-- A pass that acquired a slot without a time limit has it until its own token is released: after
-- any other calls, at any times, a further acquisition of the slot by a valid call is refused as
-- busy, and the refusal names the pass and when it came.
pub try_acquire-excludes :
    (now later : ℕ) (t t' : LockTable) (role context pass_id other : String) (ttl : ℤ)
    (token : RoleContextLockToken) (cs : List LockCall)
    → try_acquire now t role context pass_id (ℤ.pos 0) ≡ ok (token, t')
    → All (Spares (key role context) (held_by now pass_id (ℤ.pos 0))) cs
    → check_acquire role context other ttl ≡ ok tt
    → try_acquire later (lock_run t' cs) role context other ttl
      ≡ err (busy (key role context) pass_id now)
unfolding try_acquire claim_slot
try_acquire-excludes now later t t' role context pass_id other ttl token cs h spares valid =
    let k = key role context in
    let held = held_by now pass_id (ℤ.pos 0) in
    let (free, tok, at) = try_acquire-slots now t t' role context pass_id (ℤ.pos 0) token h in
    let got : lookup k t' ≡ some held = ground (arith, at k, slot_key.same_iff k k) in
    let kept = lock_run-kept k held refl t' cs spares got in
    ground (arith, valid, kept, never_expires later held refl)

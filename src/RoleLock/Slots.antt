-- ===== src/RoleLock/Slots.antt =====
-- What each operation does to every slot of the table.
use ghyll.Base.{
  ℕ, ℤ, String, ◌≡◌, ◌↔◌, eq_iff, inl, inr, true, some, ◌==◌, arith, ok, Option-cases,
  if◌then◌else◌,
}
use ghyll.Base.Map.{lookup, delete, lookup-insert, lookup-delete}
use ghyll.RoleLock.{
  RoleContextKey, slot_key, RoleContextLock, RoleContextLockToken, LockTable, is_expired, expiry,
  claim_slot, take_slot, try_acquire, release,
}

abbrev pub key : String → String → RoleContextKey
key role context = record { role = role; context = context }

abbrev pub held_by : ℕ → String → ℤ → RoleContextLock
held_by now pass_id ttl = record {
  pass_id = pass_id;
  acquired_at = now;
  expires_at = expiry now ttl;
}

module _ (now : ℕ) (t t' : LockTable) (role context pass_id : String) (ttl : ℤ)
    (token : RoleContextLockToken) where
  -- A pass that acquires a slot found it free, or held by a lock that had expired; it holds the
  -- slot from then on, its token says so, and every other slot is as it was.
  pub try_acquire-slots :
      try_acquire now t role context pass_id ttl ≡ ok (token, t')
      → ((held : RoleContextLock)
          → lookup (key role context) t ≡ some held
          → is_expired now held.expires_at ≡ true)
        × (token ≡ record { key = key role context; pass_id = pass_id })
        × ((k : RoleContextKey)
            → lookup k t'
              ≡ (if key role context == k then some (held_by now pass_id ttl) else lookup k t))
  unfolding try_acquire claim_slot take_slot
  try_acquire-slots h = elim (Option-cases (lookup (key role context) t)) [
    | inl free ↦ (
      λ held e. cc,
      ground (arith, h, free),
      λ k. ground (arith, h, free, lookup-insert (key role context) k (held_by now pass_id ttl) t),
    )
    | inr (l, e) ↦ (
      λ held e'. ground (arith, h, e, e'),
      ground (arith, h, e),
      λ k. ground (
        arith,
        h,
        e,
        lookup-insert (key role context) k (held_by now pass_id ttl) (delete (key role context) t),
        lookup-delete (key role context) k t,
      ),
    )
  ]

-- Releasing a token frees its slot when the pass of the token holds it, and changes nothing
-- otherwise: a stale token never drops the lock of another pass.
pub release-slots :
    (t : LockTable) (token : RoleContextLockToken) (k : RoleContextKey) (held : RoleContextLock)
    → (lookup k (release t token) ≡ some held)
      ↔ ((lookup k t ≡ some held) × ¬ ((k ≡ token.key) × (held.pass_id ≡ token.pass_id)))
unfolding release
release-slots t token k held = elim (Option-cases (lookup token.key t)) [
  | inl free ↦ ground (arith, free, slot_key.same_iff token.key k)
  | inr (l, e) ↦ ground (
    arith,
    e,
    eq_iff l.pass_id token.pass_id,
    slot_key.same_iff token.key k,
    lookup-delete token.key k t,
  )
]

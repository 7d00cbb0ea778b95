-- ===== src/RoleLock.antt =====
-- runner/rolelock.go: the lock of a role in a context. A time is the count of nanoseconds from Go's
-- zero time, which is 0 and stands for "no expiry".
pub mod Slots
pub mod Laws
mod Examples
use ghyll.Base.{
  ℕ, suc, ◌+◌, ℤ, pos, String, ◌≡◌, refl, ◌↔◌, Bool, true, false, ◌&&◌, not, Option, none, some,
  List, [], ◌∷◌, ◌==◌, string_key, Key, nat_eq, leb, int_ltb, pos_part, length, Result, ok, err,
  ◌>>◌, ◌>>=◌, refuse, if◌then◌else◌, arith, eq_iff,
}
use ghyll.Base.Map.{Map, lookup, insert, delete}

-- `roleContextKey`
pub record RoleContextKey : Type 0 where
  pub role : String
  pub context : String

abbrev pub same_key : RoleContextKey → RoleContextKey → Bool
same_key a b = a.role == b.role && a.context == b.context

pub same_key_iff : (a b : RoleContextKey) → (same_key a b ≡ true) ↔ (a ≡ b)
same_key_iff a b = ground (arith, eq_iff a.role b.role, eq_iff a.context b.context)

instance abbrev pub slot_key : Key RoleContextKey
slot_key = record { same = same_key; same_iff = same_key_iff }

-- `roleContextLock`
pub record RoleContextLock : Type 0 where
  pub pass_id : String
  pub acquired_at : ℕ
  pub expires_at : ℕ

-- `RoleContextLockToken`; the table that it points to is the one that `release` is given.
pub record RoleContextLockToken : Type 0 where
  pub key : RoleContextKey
  pub pass_id : String

-- `RoleContextLockTable`
abbrev pub LockTable : Type 0
LockTable = Map RoleContextKey RoleContextLock

-- `NewRoleContextLockTable`
unfoldable pub new_lock_table : LockTable
new_lock_table = []

-- `busy` is `ErrRoleContextBusy`.
pub data LockError : Type 0 where
  role_empty context_empty pass_id_empty negative_ttl : LockError
  busy : RoleContextKey → String → ℕ → LockError

-- `isExpired`
unfoldable pub is_expired : ℕ → ℕ → Bool
is_expired now expires_at = if nat_eq expires_at 0 then false else leb expires_at now

abbrev pub expiry : ℕ → ℤ → ℕ
expiry now ttl = if int_ltb (pos 0) ttl then now + pos_part ttl else 0

-- The entry and the token of a successful `TryAcquire`.
unfoldable pub take_slot :
    ℕ → LockTable → RoleContextKey → String → ℤ → RoleContextLockToken × LockTable
take_slot now t k pass_id ttl = (
  record { key = k; pass_id = pass_id },
  insert k (record { pass_id = pass_id; acquired_at = now; expires_at = expiry now ttl }) t,
)

-- The checks of the arguments of `TryAcquire`.
unfoldable pub check_acquire : String → String → String → ℤ → Result LockError (Unit {0})
check_acquire role context pass_id ttl = do
  refuse (role == "") role_empty
  refuse (context == "") context_empty
  refuse (pass_id == "") pass_id_empty
  refuse (int_ltb ttl (pos 0)) negative_ttl

-- The part of `TryAcquire` under the lock: an expired entry is swept.
unfoldable pub claim_slot :
    ℕ
    → LockTable
    → RoleContextKey
    → String
    → ℤ
    → Result LockError (RoleContextLockToken × LockTable)
unfolding is_expired take_slot
claim_slot now t k pass_id ttl = elim (lookup k t) [
  | none ↦ ok (take_slot now t k pass_id ttl)
  | some held ↦
      if is_expired now held.expires_at
      then ok (take_slot now (delete k t) k pass_id ttl)
      else err (busy k held.pass_id held.acquired_at)
]

-- `TryAcquire`
unfoldable pub try_acquire :
    ℕ
    → LockTable
    → String
    → String
    → String
    → ℤ
    → Result LockError (RoleContextLockToken × LockTable)
unfolding check_acquire claim_slot
try_acquire now t role context pass_id ttl =
    check_acquire role context pass_id ttl
    >> claim_slot now t (record { role = role; context = context }) pass_id ttl

-- `releaseToken`
unfoldable pub release : LockTable → RoleContextLockToken → LockTable
release t token = elim (lookup token.key t) [
  | none ↦ t
  | some held ↦ if held.pass_id == token.pass_id then delete token.key t else t
]

-- `InspectHolder`
unfoldable pub inspect_holder : LockTable → String → String → Option String
inspect_holder t role context = elim (lookup (record { role = role; context = context }) t) [
  | none ↦ none
  | some held ↦ some held.pass_id
]

-- `ExpireOlderThan`: the number of entries swept and the table.
unfoldable pub expire_older_than : ℕ → LockTable → ℕ × LockTable
expire_older_than cutoff [] = (0, [])
expire_older_than cutoff ((k, held) ∷ t) =
    let (n, rest) = expire_older_than cutoff t in
    if is_expired cutoff held.expires_at then (suc n, rest) else (n, (k, held) ∷ rest)

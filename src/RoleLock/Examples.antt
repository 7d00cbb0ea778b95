-- ===== src/RoleLock/Examples.antt =====
-- The lock table at concrete calls.
use ghyll.Base.{
  String, ℕ, ℤ, pos, ◌≡◌, ◌≢◌, ◌↔◌, refl, true, false, some, none, [], ◌∷◌, List, ok, err, Option,
  ◌==◌, if◌then◌else◌, arith, eq_iff,
}
use ghyll.Base.Map.{lookup}
use ghyll.RoleLock.{RoleContextLockToken, LockTable, slot_key, busy, check_acquire, try_acquire}
use ghyll.RoleLock.Slots.{key, held_by}
use ghyll.RoleLock.Laws.{LockCall, acquiring, releasing, sweeping, lock_run, try_acquire-excludes}

abbrev token : String → RoleContextLockToken
token pass_id = record { key = key "analyst" "billing"; pass_id = pass_id }

abbrev table : LockTable
table = (key "analyst" "billing", held_by 10 "p1" (pos 0)) ∷ []

acquired : try_acquire 10 [] "analyst" "billing" "p1" (pos 0) ≡ ok (token "p1", table)
unfolding try_acquire lookup ghyll.Base.Map.insert
acquired = refl

valid : check_acquire "analyst" "billing" "p2" (pos 0) ≡ ok tt
unfolding check_acquire
valid = refl

abbrev calls : List LockCall
calls =
    sweeping 99
    ∷ acquiring 20 "analyst" "billing" "p2" (pos 5)
    ∷ releasing (token "p2")
    ∷ acquiring 21 "architect" "billing" "p3" (pos 0)
    ∷ []

try_acquire-excludes_example :
    try_acquire 30 (lock_run table calls) "analyst" "billing" "p2" (pos 0)
    ≡ err (busy (key "analyst" "billing") "p1" 10)
try_acquire-excludes_example =
    try_acquire-excludes 10 30 [] table "analyst" "billing" "p1" "p2" (pos 0) (token "p1") calls
      acquired (tt, (tt, ((λ e. ground (arith, e.1, eq_iff "p1" "p2")), (tt, tt)))) valid

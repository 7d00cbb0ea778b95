-- ===== src/Base/Map.antt =====
-- Go's `map[K]V` as an association list. Its order of iteration is not specified in Go: where the
-- program iterates, the list's order stands for the order that the run-time chose.
use mathlib.Core.Path.{◌≡◌, refl}
use mathlib.Core.Bool.{Bool, true, false, ◌||◌, ◌&&◌, not}
use mathlib.Core.Option.{Option, none, some}
use mathlib.Core.List.{List, [], ◌∷◌}
use native.Mathlib.Omega.{arith}
use ghyll.Base.Tests.{Key, ◌==◌, if◌then◌else◌}

abbrev pub Map : Type 0 → Type 0 → Type 0
Map K V = List (K × V)

module _ {K V : Type 0} ⦃e : Key K⦄ where
  -- `v, ok := m[k]`
  unfoldable pub lookup : K → Map K V → Option V
  lookup k [] = none
  lookup k ((i, w) ∷ m) = let later = lookup k m in if i == k then some w else later

  -- `m[k] = v`
  unfoldable pub insert : K → V → Map K V → Map K V
  insert k v [] = (k, v) ∷ []
  insert k v ((i, w) ∷ m) =
      let later = insert k v m in if i == k then (k, v) ∷ m else (i, w) ∷ later

  -- `delete(m, k)`
  unfoldable pub delete : K → Map K V → Map K V
  delete k [] = []
  delete k ((j, v) ∷ m) = let rest = delete k m in if j == k then rest else (j, v) ∷ rest

  unfoldable pub member : K → Map K V → Bool
  unfolding lookup
  member k m = elim (lookup k m) [ none ↦ false | some v ↦ true ]

  pub lookup-insert :
      (k j : K) (v : V) (m : Map K V)
      → lookup j (insert k v m) ≡ (if k == j then some v else lookup j m)
  unfolding lookup insert
  lookup-insert k j v [] = ground arith
  lookup-insert k j v ((i, w) ∷ rest) =
      ground (arith, lookup-insert k j v rest, e.same_iff i j, e.same_iff k j, e.same_iff i k)

  pub lookup-delete :
      (k j : K) (m : Map K V) → lookup j (delete k m) ≡ (if k == j then none else lookup j m)
  unfolding lookup delete
  lookup-delete k j [] = ground arith
  lookup-delete k j ((i, w) ∷ m) =
      ground (arith, e.same_iff k j, e.same_iff i k, e.same_iff i j, lookup-delete k j m)

  pub member-insert :
      (k j : K) (v : V) (m : Map K V) → member j (insert k v m) ≡ (k == j || member j m)
  unfolding member
  member-insert k j v m = ground (arith, lookup-insert k j v m)

  pub member-delete : (k j : K) (m : Map K V) → member j (delete k m) ≡ (not (k == j) && member j m)
  unfolding member
  member-delete k j m = ground (arith, lookup-delete k j m)

pub member-nil : {K : Type 0} ⦃e : Key K⦄ (V : Type 0) (k : K) → member {V = V} k [] ≡ false
unfolding member lookup
member-nil V k = refl

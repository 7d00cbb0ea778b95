-- ===== src/Base/Lists.antt =====
-- Lists measured and indexed by native numbers, under the library's names.
use Prim.Native.Nat.{◌<◌, ℕ, zero, suc, ◌+◌, ◌<◌}
use mathlib.Core.Path.{◌≡◌, refl, ap, ◌∙◌}
use mathlib.Core.Bool.{Bool, true, false, ◌||◌, ◌&&◌}
use mathlib.Core.List.{List, [], ◌∷◌, ◌++◌, map, Perm, Permᴰ}
use mathlib.Core.Bool.{Bool-set}
use mathlib.Core.Logic.{∥∥₁_elim}
use native.Mathlib.Nat.{ℕ_set}
use mathlib.Core.Option.{Option, none, some}
use native.Mathlib.Omega.{arith}
use mathlib.Core.Logic.{inl, inr}
use mathlib.Core.Option
use ghyll.Base.Tests.{Bool-cases, nat_eq, ltb, Key, ◌==◌, if◌then◌else◌}

module _ {ℓ} {A : Type ℓ} where
  abbrev pub length : List A → ℕ
  length [] = 0
  length (x ∷ xs) = suc (length xs)

  abbrev pub get_elem? : List A → ℕ → Option A
  get_elem? [] i = none
  get_elem? (x ∷ xs) zero = some x
  get_elem? (x ∷ xs) (suc i) = get_elem? xs i

  -- A write out of bounds changes nothing.
  abbrev pub set : List A → ℕ → A → List A
  set [] i v = []
  set (x ∷ xs) zero v = v ∷ xs
  set (x ∷ xs) (suc i) v = x ∷ set xs i v

  abbrev pub drop : ℕ → List A → List A
  drop zero xs = xs
  drop (suc n) [] = []
  drop (suc n) (x ∷ xs) = drop n xs

  -- `append(l[:i], l[i+1:]...)`
  abbrev pub remove_at : List A → ℕ → List A
  remove_at [] i = []
  remove_at (x ∷ xs) zero = xs
  remove_at (x ∷ xs) (suc i) = x ∷ remove_at xs i

  abbrev pub any : (A → Bool) → List A → Bool
  any p [] = false
  any p (x ∷ xs) = p x || any p xs

  abbrev pub all : (A → Bool) → List A → Bool
  all p [] = true
  all p (x ∷ xs) = p x && all p xs

  -- The number of elements that pass a test.
  abbrev pub count_if : (A → Bool) → List A → ℕ
  count_if p [] = 0
  count_if p (x ∷ xs) = let rest = count_if p xs in if p x then suc rest else rest

  -- The elements that pass a Boolean test, in order.
  abbrev pub select : (A → Bool) → List A → List A
  select p [] = []
  select p (x ∷ xs) = let rest = select p xs in if p x then x ∷ rest else rest

  -- A predicate that holds of every element.
  abbrev pub All {κ} : (A → Type κ) → List A → Type κ
  All P [] = Unit
  All P (x ∷ xs) = P x × All P xs

  pub length-append : (xs ys : List A) → length (xs ++ ys) ≡ length xs + length ys
  length-append [] ys = omega arith
  length-append (x ∷ xs) ys = omega (arith, length-append xs ys)

module _ {ℓ} {A : Type ℓ} ⦃e : Key A⦄ where
  abbrev pub contains : List A → A → Bool
  contains [] a = false
  contains (x ∷ xs) a = x == a || contains xs a

module _ {ℓ} {A : Type ℓ} where
  pub count_if-append :
      (p : A → Bool) (xs ys : List A) → count_if p (xs ++ ys) ≡ count_if p xs + count_if p ys
  count_if-append p [] ys = omega arith
  count_if-append p (x ∷ xs) ys = ground (arith, count_if-append p xs ys)

-- Two tests that agree on an element and on its image count the same.
pub count_if-map {ℓ κ} :
    {A : Type ℓ} {B : Type κ} (p : A → Bool) (q : B → Bool) (f : A → B)
    → ((a : A) → p a ≡ q (f a))
    → (xs : List A) → count_if p xs ≡ count_if q (map f xs)
count_if-map p q f h [] = refl
count_if-map p q f h (x ∷ xs) = ground (arith, h x, count_if-map p q f h xs)

module _ {ℓ} {A : Type ℓ} (p : A → Bool) where
  count_if-Permᴰ : {xs ys : List A} → Permᴰ xs ys → count_if p xs ≡ count_if p ys
  count_if-Permᴰ Permᴰ.nil = refl
  count_if-Permᴰ (Permᴰ.cons e h) = ground (arith, ap p e, count_if-Permᴰ h)
  count_if-Permᴰ (Permᴰ.swap e f) = ground (arith, ap p e, ap p f)
  count_if-Permᴰ (Permᴰ.trans h k) = count_if-Permᴰ h ∙ count_if-Permᴰ k

  pub count_if-perm : {xs ys : List A} → Perm xs ys → count_if p xs ≡ count_if p ys
  count_if-perm h = ∥∥₁_elim h (ℕ_set _ _) count_if-Permᴰ

  all-Permᴰ : {xs ys : List A} → Permᴰ xs ys → all p xs ≡ all p ys
  all-Permᴰ Permᴰ.nil = refl
  all-Permᴰ (Permᴰ.cons e h) = ground (arith, ap p e, all-Permᴰ h)
  all-Permᴰ (Permᴰ.swap e f) = ground (arith, ap p e, ap p f)
  all-Permᴰ (Permᴰ.trans h k) = all-Permᴰ h ∙ all-Permᴰ k

  pub all-perm : {xs ys : List A} → Perm xs ys → all p xs ≡ all p ys
  all-perm h = ∥∥₁_elim h (Bool-set _ _) all-Permᴰ

module _ {ℓ} {A : Type ℓ} where
  pub get_elem?-snoc :
      (xs : List A) (x : A) (i : ℕ)
      → get_elem? (xs ++ x ∷ []) i ≡ (if nat_eq i (length xs) then some x else get_elem? xs i)
  get_elem?-snoc [] x zero = refl
  get_elem?-snoc [] x (suc i) = ground arith
  get_elem?-snoc (y ∷ xs) x zero = ground arith
  get_elem?-snoc (y ∷ xs) x (suc i) = ground (arith, get_elem?-snoc xs x i)

  pub get_elem?-lt : (xs : List A) (i : ℕ) {x : A} → get_elem? xs i ≡ some x → i < length xs
  get_elem?-lt [] i h = cc
  get_elem?-lt (y ∷ xs) zero h = omega arith
  get_elem?-lt (y ∷ xs) (suc i) h = omega (arith, get_elem?-lt xs i h)

  pub get_elem?-set :
      (xs : List A) (i j : ℕ) {x : A} (v : A)
      → get_elem? xs i ≡ some x
      → get_elem? (set xs i v) j ≡ (if nat_eq i j then some v else get_elem? xs j)
  get_elem?-set [] i j v h = cc
  get_elem?-set (y ∷ xs) zero zero v h = refl
  get_elem?-set (y ∷ xs) zero (suc j) v h = ground arith
  get_elem?-set (y ∷ xs) (suc i) zero v h = ground arith
  get_elem?-set (y ∷ xs) (suc i) (suc j) v h = ground (arith, get_elem?-set xs i j v h)

  pub get_elem?-remove_at :
      (xs : List A) (i j : ℕ)
      → get_elem? (remove_at xs i) j ≡ get_elem? xs (if ltb j i then j else suc j)
  get_elem?-remove_at [] i j = ground arith
  get_elem?-remove_at (y ∷ xs) zero j = ground arith
  get_elem?-remove_at (y ∷ xs) (suc i) zero = ground arith
  get_elem?-remove_at (y ∷ xs) (suc i) (suc j) = ground (arith, get_elem?-remove_at xs i j)

  pub get_elem?-drop :
      (n : ℕ) (xs : List A) (k : ℕ) → get_elem? (drop n xs) k ≡ get_elem? xs (n + k)
  get_elem?-drop zero xs k = ground arith
  get_elem?-drop (suc n) [] k = refl
  get_elem?-drop (suc n) (x ∷ xs) k = ground (arith, get_elem?-drop n xs k)

module _ {ℓ} {A : Type ℓ} (p : A → Bool) where
  pub any-get_elem? :
      (xs : List A) (i : ℕ) (x : A) → get_elem? xs i ≡ some x → p x ≡ true → any p xs ≡ true
  any-get_elem? [] i x h e = cc
  any-get_elem? (y ∷ xs) zero x h e = ground (arith, h, e, ap (Option.map p) h)
  any-get_elem? (y ∷ xs) (suc i) x h e = ground (arith, any-get_elem? xs i x h e)

  pub any_elem :
      (xs : List A) → any p xs ≡ true → (i : ℕ) × (x : A) × (get_elem? xs i ≡ some x) × (p x ≡ true)
  any_elem [] h = cc
  any_elem (x ∷ xs) h = elim (Bool-cases (p x)) [
    | inl e ↦ (zero, x, refl, e)
    | inr e ↦ let (i, y, at, ey) = any_elem xs (ground (arith, h, e)) in (suc i, y, at, ey)
  ]

-- ===== src/Base/TextOrder.antt =====
-- The order of texts is strict and total, so sorting texts depends only on what they are.
use Prim.Native.Nat.{Ordering}
use Prim.Native.Char.{Char, code}
use Prim.Native.String.{String, [], ◌∷◌, compare}
use Prim.Native.String.compare
use mathlib.Core.Bool.{Bool, Bool-set, true, false, ◌&&◌, ◌||◌}
use mathlib.Core.Path.{◌≡◌, refl, sym, subst, ◌∙◌}
use native.Mathlib.Omega.{arith}
use text.Mathlib.TextEquality.{codes_equal, eq_iff}
use ghyll.Base.Tests.{ltb, nat_eq}
use ghyll.Base.Texts.{text_ltb, same_texts}
use ghyll.Base.Sorting.{insert_sorted, sort_by, sort_by-perm}
use mathlib.Core.List
use mathlib.Core.List.{Perm, Permᴰ}
use mathlib.Core.List.Perm
use mathlib.Core.Logic.{∥∥₁_elim, ◌↔◌}

is_lt : Ordering → Bool
is_lt Ordering.lt = true
is_lt _ = false

text_ltb-is_lt : (s t : String) → text_ltb s t ≡ is_lt (compare s t)
unfolding is_lt
text_ltb-is_lt s t = ground arith

text_ltb-cons :
    (c d : Char) (s t : String)
    → text_ltb (c ∷ s) (d ∷ t)
      ≡ (ltb (code c) (code d) || (nat_eq (code c) (code d) && text_ltb s t))
text_ltb-cons c d s t = ground (arith, compare.cons-cons c d s t)

pub text_ltb-asym : (s t : String) → text_ltb s t ≡ true → text_ltb t s ≡ false
text_ltb-asym [] [] h = ground (arith, h)
text_ltb-asym [] (d ∷ t) h = ground (arith, compare.cons-nil d t)
text_ltb-asym (c ∷ s) [] h = ground (arith, h, compare.cons-nil c s)
text_ltb-asym (c ∷ s) (d ∷ t) h =
    ground (arith, h, text_ltb-cons c d s t, text_ltb-cons d c t s, text_ltb-asym s t)

text_ltb-nil : (s : String) → text_ltb s [] ≡ false
text_ltb-nil [] = refl
text_ltb-nil (c ∷ s) = ground (arith, compare.cons-nil c s)

text_ltb-nil-cons : (d : Char) (t : String) → text_ltb [] (d ∷ t) ≡ true
text_ltb-nil-cons d t = ground (arith, compare.nil-cons d t)

pub text_ltb_trans :
    (s t u : String) → text_ltb s t ≡ true → text_ltb t u ≡ true → text_ltb s u ≡ true
text_ltb_trans s [] u h k = ground (arith, h, text_ltb-nil s)
text_ltb_trans [] (d ∷ t) [] h k = ground (arith, k, text_ltb-nil (d ∷ t))
text_ltb_trans [] (d ∷ t) (e ∷ u) h k = text_ltb-nil-cons e u
text_ltb_trans (c ∷ s) (d ∷ t) [] h k = ground (arith, k, text_ltb-nil (d ∷ t))
text_ltb_trans (c ∷ s) (d ∷ t) (e ∷ u) h k = ground (
  arith,
  h,
  k,
  text_ltb-cons c d s t,
  text_ltb-cons d e t u,
  text_ltb-cons c e s u,
  text_ltb_trans s t u,
)

same_codes-eq : (c d : Char) → nat_eq (code c) (code d) ≡ true → c ≡ d
same_codes-eq c d h = codes_equal c d (ground (arith, h))

pub text_ltb-total : (s t : String) → text_ltb s t ≡ false → text_ltb t s ≡ false → s ≡ t
text_ltb-total [] [] h k = refl
text_ltb-total [] (d ∷ t) h k = absurd (ground (arith, h, text_ltb-nil-cons d t))
text_ltb-total (c ∷ s) [] h k = absurd (ground (arith, k, text_ltb-nil-cons c s))
text_ltb-total (c ∷ s) (d ∷ t) h k =
    let e : c ≡ d =
      same_codes-eq c d (ground (arith, h, k, text_ltb-cons c d s t, text_ltb-cons d c t s)) in
    let f : s ≡ t =
      text_ltb-total s t (ground (arith, h, e, text_ltb-cons c d s t))
        (ground (arith, k, e, text_ltb-cons d c t s)) in
    λ i. e i ∷ f i

-- The two insertions commute.
insert_sorted_comm :
    (s t : String) (xs : List.List String)
    → insert_sorted (λ x. x) s (insert_sorted (λ x. x) t xs)
      ≡ insert_sorted (λ x. x) t (insert_sorted (λ x. x) s xs)
unfolding insert_sorted
insert_sorted_comm s t List.[] =
    ground (arith, text_ltb-asym s t, text_ltb-asym t s, text_ltb-total s t)
insert_sorted_comm s t (List.◌∷◌ x xs) = ground (
  arith,
  text_ltb-asym s t,
  text_ltb-asym t s,
  text_ltb-total s t,
  text_ltb_trans x s t,
  text_ltb_trans x t s,
  text_ltb_trans s x t,
  text_ltb_trans t x s,
  text_ltb-asym x s,
  text_ltb-asym x t,
  insert_sorted_comm s t xs,
)

pub same_texts-eq : (xs ys : List.List String) → same_texts xs ys ≡ true → xs ≡ ys
same_texts-eq List.[] List.[] h = refl
same_texts-eq List.[] (List.◌∷◌ y ys) h = cc
same_texts-eq (List.◌∷◌ x xs) List.[] h = cc
same_texts-eq (List.◌∷◌ x xs) (List.◌∷◌ y ys) h = ground (arith, h, eq_iff x y, same_texts-eq xs ys)

pub same_texts_refl : (xs : List.List String) → same_texts xs xs ≡ true
same_texts_refl List.[] = refl
same_texts_refl (List.◌∷◌ x xs) = ground (arith, eq_iff x x, same_texts_refl xs)

sort_by-Permᴰ : {xs ys : List.List String} → Permᴰ xs ys → sort_by (λ s. s) xs ≡ sort_by (λ s. s) ys
unfolding sort_by
sort_by-Permᴰ Permᴰ.nil = refl
sort_by-Permᴰ (Permᴰ.cons {a = a} {b = b} {l₁ = l} {l₂ = m} e h) =
    λ i. insert_sorted (λ s. s) (e i) (sort_by-Permᴰ h i)
sort_by-Permᴰ (Permᴰ.swap {a = a} {b = b} {l = l} e f) =
    insert_sorted_comm a b (sort_by (λ s. s) l) ∙ λ i.
    insert_sorted (λ s. s) (f i) (insert_sorted (λ s. s) (e i) (sort_by (λ s. s) l))
sort_by-Permᴰ (Permᴰ.trans h k) = sort_by-Permᴰ h ∙ sort_by-Permᴰ k

-- Sorting decides whether two lists of texts are the same up to their order.
pub sort_by-same_texts :
    (xs ys : List.List String)
    → (same_texts (sort_by (λ s. s) xs) (sort_by (λ s. s) ys) ≡ true) ↔ Perm xs ys
sort_by-same_texts xs ys = (
  λ h. Perm.trans (Perm.symm (sort_by-perm (λ s. s) xs)) (
      subst (λ zs. Perm zs ys) (sym (same_texts-eq (sort_by (λ s. s) xs) (sort_by (λ s. s) ys) h))
        (sort_by-perm (λ s. s) ys)),
  λ h. ∥∥₁_elim h (Bool-set _ _) (λ d.
      subst (λ zs. same_texts (sort_by (λ s. s) xs) zs ≡ true) (sort_by-Permᴰ d)
        (same_texts_refl (sort_by (λ s. s) xs))),
)

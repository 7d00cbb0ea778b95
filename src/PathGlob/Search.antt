-- ===== src/PathGlob/Search.antt =====
-- The loops over the segments find a split exactly if there is one.
use ghyll.Base.{
  String, ◌≡◌, ◌⊎◌, inl, inr, refl, sym, ap, ◌∙◌, Bool, true, false, ◌&&◌, ◌||◌, List, [], ◌∷◌,
  ◌++◌, arith, string_key,
}
use ghyll.PathGlob.{any_tail, any_split}

pub or-cases : (b d : Bool) → (b || d) ≡ true → (b ≡ true) ⊎ (d ≡ true)
or-cases true d h = inl refl
or-cases false d h = inr h

pub or-right : (b d : Bool) → d ≡ true → (b || d) ≡ true
or-right b d h = ground (arith, h)

pub or-left : (b d : Bool) → b ≡ true → (b || d) ≡ true
or-left b d h = ground (arith, h)

and-both : (b d : Bool) → (b && d) ≡ true → (b ≡ true) × (d ≡ true)
and-both b d h = (ground (arith, h), ground (arith, h))

and-true : (b d : Bool) → b ≡ true → d ≡ true → (b && d) ≡ true
and-true b d h k = ground (arith, h, k)

append_assoc : (xs ys zs : List String) → (xs ++ ys) ++ zs ≡ xs ++ (ys ++ zs)
append_assoc [] ys zs = refl
append_assoc (x ∷ xs) ys zs = ap (λ l. x ∷ l) (append_assoc xs ys zs)

append-nil : (xs : List String) → xs ++ [] ≡ xs
append-nil [] = refl
append-nil (x ∷ xs) = ap (λ l. x ∷ l) (append-nil xs)

pub any_tail-found :
    (test : List String → Bool) (ss : List String)
    → any_tail test ss ≡ true
    → (gap ys : List String) × (ss ≡ gap ++ ys) × (test ys ≡ true)
unfolding any_tail
any_tail-found test [] h = ([], [], refl, h)
any_tail-found test (s ∷ ss) h = elim (or-cases (test (s ∷ ss)) (any_tail test ss) h) [
  | inl now ↦ ([], s ∷ ss, refl, now)
  | inr later ↦
      let (gap, ys, e, t) = any_tail-found test ss later in (s ∷ gap, ys, ap (λ l. s ∷ l) e, t)
]

any_tail-all :
    (test : List String → Bool) (ys : List String) → test ys ≡ true → any_tail test ys ≡ true
unfolding any_tail
any_tail-all test [] h = h
any_tail-all test (s ∷ ss) h = or-left (test (s ∷ ss)) (any_tail test ss) h

pub any_tail-append :
    (test : List String → Bool) (gap ys : List String)
    → test ys ≡ true
    → any_tail test (gap ++ ys) ≡ true
unfolding any_tail
any_tail-append test [] ys h = any_tail-all test ys h
any_tail-append test (s ∷ gap) ys h =
    or-right (test (s ∷ (gap ++ ys))) (any_tail test (gap ++ ys)) (any_tail-append test gap ys h)

module _ (head tail : List String → Bool) where
  pub any_split-found :
      (before ss : List String)
      → any_split head tail before ss ≡ true
      → (xs rest : List String) × (ss ≡ xs ++ rest)
        × (head (before ++ xs) ≡ true)
        × (any_tail tail rest ≡ true)
  unfolding any_split
  any_split-found before [] h =
      let (p, q) = and-both (head before) (any_tail tail []) h in
      ([], [], refl, ap head (append-nil before) ∙ p, q)
  any_split-found before (s ∷ ss) h =
      elim (or-cases (head before && any_tail tail (s ∷ ss))
        (any_split head tail (before ++ s ∷ []) ss) h) [
          | inl now ↦
              let (p, q) = and-both (head before) (any_tail tail (s ∷ ss)) now in
              ([], s ∷ ss, refl, ap head (append-nil before) ∙ p, q)
          | inr later ↦
              let (xs, rest, e, p, q) = any_split-found (before ++ s ∷ []) ss later in
              (
                s ∷ xs,
                rest,
                ap (λ l. s ∷ l) e,
                ap head (sym (append_assoc before (s ∷ []) xs)) ∙ p,
                q,
              )
        ]

  any_split-all :
      (before rest : List String)
      → head before ≡ true
      → any_tail tail rest ≡ true
      → any_split head tail before rest ≡ true
  unfolding any_split
  any_split-all before [] p q = and-true (head before) (any_tail tail []) p q
  any_split-all before (s ∷ ss) p q =
      or-left (head before && any_tail tail (s ∷ ss)) (any_split head tail (before ++ s ∷ []) ss)
        (and-true (head before) (any_tail tail (s ∷ ss)) p q)

  pub any_split-append :
      (before xs rest : List String)
      → head (before ++ xs) ≡ true
      → any_tail tail rest ≡ true
      → any_split head tail before (xs ++ rest) ≡ true
  unfolding any_split
  any_split-append before [] rest p q =
      any_split-all before rest (ap head (sym (append-nil before)) ∙ p) q
  any_split-append before (x ∷ xs) rest p q =
      or-right (head before && any_tail tail (x ∷ (xs ++ rest)))
        (any_split head tail (before ++ x ∷ []) (xs ++ rest))
        (any_split-append (before ++ x ∷ []) xs rest (ap head (append_assoc before (x ∷ []) xs) ∙ p)
          q)

-- ===== src/PathGlob/Laws.antt =====
-- The search of the matcher decides a relation on patterns and names, and never runs out of fuel.
use Prim.Native.Char.{Char, code}
use Prim.Native.String as Text
use ghyll.Base.{
  ℕ, zero, suc, ◌≤◌, ◌<◌, String, ◌≡◌, ◌↔◌, ◌⊎◌, inl, inr, refl, sym, ap, subst, ◌∙◌, Bool, true,
  ◌&&◌, Option, none, some, List, [], ◌++◌, arith, nat_eq, ◌==◌, string_key, eq_iff, codes, length,
  Bool-cases,
}
use ghyll.PathGlob.{
  PathMatch, put_before, cut_stars, trim_end_slash, trim_start_slash, join_slashes, segments_of,
  is_yes, any_split, match_segments, match_cut, match_other, glob_match,
}
use ghyll.PathGlob.Search.{
  or-cases, or-right, or-left, any_tail-found, any_tail-append, any_split-found, any_split-append,
}

module _ (path_match : PathMatch) where
  -- A pattern without `**` matches by `path.Match`, an empty one only the empty name; a pattern with
  -- `**` matches a name whose segments are a run that what stands before the first `**` matches, any
  -- run, and a run that what stands after it matches.
  pub data Matches : String → String → Type 0 where
    plain : {p n : String} → cut_stars p ≡ none → match_segments path_match p n ≡ true → Matches p n
    stars :
        {p n : String} (before after : String) (xs gap ys : List String)
        → cut_stars p ≡ some (before, after)
        → segments_of n ≡ xs ++ (gap ++ ys)
        → match_segments path_match (trim_end_slash before) (join_slashes xs) ≡ true
        → Matches (trim_start_slash after) (join_slashes ys)
        → Matches p n

put_before-some :
    (c : Char) (o : Option (String × String)) (b a : String)
    → put_before c o ≡ some (b, a)
    → (b' : String) × (o ≡ some (b', a))
put_before-some c none b a h = absurd (ground (arith, h))
put_before-some c (some (b', a')) b a h =
    let same : a' ≡ a = ground (arith, h) in (b', λ i. some (b', same i))

-- What follows `**` is shorter than the pattern.
cut_stars-shorter :
    (p b a : String) → cut_stars p ≡ some (b, a) → length (codes a) < length (codes p)
unfolding cut_stars
cut_stars-shorter Text.[] b a h = absurd (ground (arith, h))
cut_stars-shorter (Text.◌∷◌ c Text.[]) b a h = absurd (ground (arith, h))
cut_stars-shorter (Text.◌∷◌ c (Text.◌∷◌ d s)) b a h =
    elim (Bool-cases (nat_eq (code c) b'*' && nat_eq (code d) b'*')) [
      | inl e ↦
          let same : s ≡ a = ground (arith, h, e) in
          subst (λ t. length (codes t) < length (codes (Text.◌∷◌ c (Text.◌∷◌ d s)))) same
            (omega arith)
      | inr e ↦
          let (b', rest) =
            put_before-some c (cut_stars (Text.◌∷◌ d s)) b a (ground (arith, h, e)) in
          omega (arith, cut_stars-shorter (Text.◌∷◌ d s) b' a rest)
    ]

trim_start_slash-le : (s : String) → length (codes (trim_start_slash s)) ≤ length (codes s)
unfolding trim_start_slash
trim_start_slash-le Text.[] = omega arith
trim_start_slash-le (Text.◌∷◌ c s) = elim (Bool-cases (nat_eq (code c) b'/')) [
  | inl e ↦ rw e (omega arith)
  | inr e ↦ rw e (omega arith)
]

module _ (path_match : PathMatch) where
  match_cut-Matches :
      (fuel : ℕ) (o : Option (String × String)) (p n : String)
      → cut_stars p ≡ o
      → match_cut path_match fuel o p n ≡ true
      → Matches path_match p n
  unfolding match_cut
  match_cut-Matches fuel none p n e h = plain e h
  match_cut-Matches zero (some (b, a)) p n e h = absurd (ground (arith, h))
  match_cut-Matches (suc fuel) (some (b, a)) p n e h =
      let suffix = trim_start_slash a in
      let head =
        λ (ss : List String). match_segments path_match (trim_end_slash b) (join_slashes ss) in
      let tail = λ (ss : List String).
        match_cut path_match fuel (cut_stars suffix) suffix (join_slashes ss) in
      let (xs, rest, split, p1, p2) = any_split-found head tail [] (segments_of n) h in
      let (gap, ys, split', p3) = any_tail-found tail rest p2 in
      stars b a xs gap ys e (split ∙ ap (λ l. xs ++ l) split') p1
        (match_cut-Matches fuel (cut_stars suffix) suffix (join_slashes ys) refl p3)

  Matches-match_cut :
      {p n : String}
      → Matches path_match p n
      → (fuel : ℕ) → length (codes p) ≤ fuel
      → match_cut path_match fuel (cut_stars p) p n ≡ true
  unfolding match_cut
  Matches-match_cut {p} {n} (plain e h) fuel le = ap (λ o. match_cut path_match fuel o p n) e ∙ h
  Matches-match_cut {p} {n} (stars b a xs gap ys e split h m) zero le =
      absurd (omega (arith, cut_stars-shorter p b a e))
  Matches-match_cut {p} {n} (stars b a xs gap ys e split h m) (suc fuel) le =
      let suffix = trim_start_slash a in
      let head =
        λ (ss : List String). match_segments path_match (trim_end_slash b) (join_slashes ss) in
      let tail = λ (ss : List String).
        match_cut path_match fuel (cut_stars suffix) suffix (join_slashes ss) in
      let rest =
        Matches-match_cut m fuel
          (omega (arith, cut_stars-shorter p b a e, trim_start_slash-le a)) in
      ap (λ o. match_cut path_match (suc fuel) o p n) e
      ∙ ap (any_split head tail []) split
      ∙ any_split-append head tail [] xs (gap ++ ys) h (any_tail-append tail gap ys rest)

  is_yes-some : (o : Option Bool) → is_yes o ≡ true → o ≡ some true
  is_yes-some none h = cc
  is_yes-some (some b) h = ap some h

  match_other-found :
      (p n : String) (o : Option (String × String))
      → cut_stars p ≡ o
      → match_other path_match o p n ≡ true
      → ((cut_stars p ≡ none) × (path_match p n ≡ some true))
        ⊎ ((b a : String) × (cut_stars p ≡ some (b, a)) × Matches path_match p n)
  unfolding match_other
  match_other-found p n none e h = inl (e, is_yes-some (path_match p n) h)
  match_other-found p n (some (b, a)) e h =
      inr (b, a, e, match_cut-Matches (length (codes p)) (some (b, a)) p n e h)

  match_other-all :
      (p n : String)
      → (((cut_stars p ≡ none) × (path_match p n ≡ some true))
          ⊎ ((b a : String) × (cut_stars p ≡ some (b, a)) × Matches path_match p n))
      → match_other path_match (cut_stars p) p n ≡ true
  unfolding match_other
  match_other-all p n (inl (e, h)) = ap (λ o. match_other path_match o p n) e ∙ ap is_yes h
  match_other-all p n (inr (b, a, e, m)) =
      ap (λ o. match_other path_match o p n) e
      ∙ ap (λ o. match_cut path_match (length (codes p)) o p n) (sym e)
      ∙ Matches-match_cut m (length (codes p)) (omega arith)

  -- The matcher says yes exactly if the pattern is the name itself, be it malformed or not, or has no
  -- `**` and `path.Match` matches without an error, or has a `**` and the segments of the name are
  -- three runs as the relation asks, and so on for what follows the first `**`; its fuel, the length
  -- of the pattern, is always enough.
  pub glob_match-Matches :
      (p n : String)
      → (glob_match path_match p n ≡ true) ↔ (
          (p ≡ n)
          ⊎ (((cut_stars p ≡ none) × (path_match p n ≡ some true))
              ⊎ ((b a : String) × (cut_stars p ≡ some (b, a)) × Matches path_match p n)))
  unfolding glob_match
  glob_match-Matches p n = (
    λ h. elim (or-cases (p == n) (match_other path_match (cut_stars p) p n) h) [
      | inl same ↦ inl ((eq_iff p n).0 same)
      | inr other ↦ inr (match_other-found p n (cut_stars p) refl other)
    ],
    λ m. elim m [
      | inl same ↦ or-left (p == n) (match_other path_match (cut_stars p) p n) ((eq_iff p n).1 same)
      | inr other ↦
          or-right (p == n) (match_other path_match (cut_stars p) p n) (match_other-all p n other)
    ],
  )

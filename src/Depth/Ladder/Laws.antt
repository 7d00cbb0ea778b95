-- ===== src/Depth/Ladder/Laws.antt =====
-- A label and its rank determine one another.
use Prim.Native.String as Text
use Prim.Native.String.compare
use Prim.Native.Char.{code}
use ghyll.Base.{
  ℕ, zero, suc, ◌+◌, ◌<◌, ℤ, pos, negsuc, String, ◌≡◌, ◌↔◌, refl, sym, ap, subst, ◌∙◌, inl, inr,
  true, false, ◌&&◌, Option, none, some, List, [], ◌∷◌, ◌++◌, ◌⊎◌, arith, nat_eq, nat_eq_iff,
  same_codes_iff, ◌==◌, get_elem?, get_elem?-snoc, get_elem?-lt, length, length-append, trim_space,
  trim_left, trim_right, is_space, Result, ok, err, ◌>>=◌, if◌then◌else◌, Bool-cases, string_key,
}
use ghyll.Base.Map.{lookup, insert, member, lookup-insert}
use ghyll.Depth.{is_known_depth_rank}
use ghyll.Depth.Ladder.{
  DepthKey, depth_key, lowered, is_label_char, is_label_rest, is_depth_label, LadderError,
  DepthLadder, add_label, add_labels, new_depth_ladder, label, found_rank, parse_depth_rank,
}

-- The ladder's map leads from the key of each label to its place, and from nowhere else.
record IsLadder (l : DepthLadder) : Type 0 where
  keyed :
      (k : DepthKey) (r : ℤ)
      → lookup k l.by_label ≡ some r
      → (i : ℕ) × (t : String) × (r ≡ pos i) × (get_elem? l.labels i ≡ some t) × (lowered t ≡ k)
  listed :
      (i : ℕ) (t : String)
      → get_elem? l.labels i ≡ some t
      → lookup (lowered t) l.by_label ≡ some (pos i)
  plain : (i : ℕ) (t : String) → get_elem? l.labels i ≡ some t → is_depth_label t ≡ true

grown : DepthLadder → String → DepthLadder
grown l t = record {
  labels = l.labels ++ t ∷ [];
  by_label = insert (lowered t) (pos (length l.labels)) l.by_label;
}

add_label-inv :
    (l l' : DepthLadder) (raw : String)
    → add_label l raw ≡ ok l'
    → (t : String) × (is_depth_label t ≡ true)
      × (lookup (lowered t) l.by_label ≡ none)
      × (grown l t ≡ l')
unfolding add_label grown member
add_label-inv l l' raw h = (trim_space raw, ground (arith, h), ground (arith, h), ground (arith, h))

snoc-cases :
    (xs : List String) (t : String) (i : ℕ) (s : String)
    → get_elem? (xs ++ t ∷ []) i ≡ some s
    → ((i ≡ length xs) × (t ≡ s)) ⊎ (get_elem? xs i ≡ some s)
snoc-cases xs t i s h = elim (Bool-cases (nat_eq i (length xs))) [
  | inl e ↦ inl ((nat_eq_iff i (length xs)).0 e, ground (arith, h, e, get_elem?-snoc xs t i))
  | inr e ↦ inr (ground (arith, h, e, get_elem?-snoc xs t i))
]

lookup-new :
    (l : DepthLadder) (t : String) (k : DepthKey)
    → lowered t ≡ k
    → lookup k (grown l t).by_label ≡ some (pos (length l.labels))
unfolding grown
lookup-new l t k e =
    lookup-insert (lowered t) k (pos (length l.labels)) l.by_label
    ∙ ap (λ b. if b then some (pos (length l.labels)) else lookup k l.by_label)
        ((same_codes_iff (lowered t) k).1 e)

lookup-old :
    (l : DepthLadder) (t : String) (k : DepthKey) (r : ℤ)
    → lookup (lowered t) l.by_label ≡ none
    → lookup k l.by_label ≡ some r
    → lookup k (grown l t).by_label ≡ some r
unfolding grown
lookup-old l t k r free at = elim (Bool-cases (lowered t == k)) [
  | inl same ↦
      let e : lookup (lowered t) l.by_label ≡ some r =
        ap (λ x. lookup x l.by_label) ((same_codes_iff (lowered t) k).0 same) ∙ at in
      absurd (ground (arith, e, free))
  | inr other ↦
      ground (arith, at, other, lookup-insert (lowered t) k (pos (length l.labels)) l.by_label)
]

grown-length : (l : DepthLadder) (t : String) → length (grown l t).labels ≡ length l.labels + 1
unfolding grown
grown-length l t = length-append l.labels (t ∷ [])

ok-injective : (l m : DepthLadder) → ◌≡◌ {A = Result LadderError DepthLadder} (ok l) (ok m) → l ≡ m
ok-injective l m h = cc

>>=-ok :
    (m : Result LadderError DepthLadder) (f : DepthLadder → Result LadderError DepthLadder)
    {u : DepthLadder}
    → (m >>= f) ≡ ok u
    → (v : DepthLadder) × (m ≡ ok v) × (f v ≡ ok u)
>>=-ok (ok v) f h = (v, refl, h)
>>=-ok (err e) f h = cc

grown-IsLadder :
    (l : DepthLadder) (t : String)
    → is_depth_label t ≡ true
    → lookup (lowered t) l.by_label ≡ none
    → IsLadder l
    → IsLadder (grown l t)
unfolding grown
grown-IsLadder l t plain free v = record {
  keyed = λ k r at. elim (Bool-cases (lowered t == k)) [
    | inl same ↦ (
      length l.labels,
      t,
      ground (arith, at, same, lookup-insert (lowered t) k (pos (length l.labels)) l.by_label),
      ground (arith, get_elem?-snoc l.labels t (length l.labels)),
      (same_codes_iff (lowered t) k).0 same,
    )
    | inr other ↦
        let (i, s, e, there, key) = v.keyed k r (
          ground
            (arith, at, other, lookup-insert (lowered t) k (pos (length l.labels)) l.by_label)) in
        (
          i,
          s,
          e,
          ground (arith, there, get_elem?-snoc l.labels t i, get_elem?-lt l.labels i there),
          key,
        )
  ];
  listed = λ i s there. elim (snoc-cases l.labels t i s there) [
    | inl (at, same) ↦
        lookup-new l t (lowered s) (ap lowered same) ∙ ap (λ n. some (pos n)) (sym at)
    | inr old ↦ lookup-old l t (lowered s) (pos i) free (v.listed i s old)
  ];
  plain = λ i s there. elim (snoc-cases l.labels t i s there) [
    | inl (at, same) ↦ subst (λ x. is_depth_label x ≡ true) same plain
    | inr old ↦ v.plain i s old
  ];
}

add_labels-IsLadder :
    (l l' : DepthLadder) (raws : List String)
    → IsLadder l
    → add_labels l raws ≡ ok l'
    → IsLadder l' × (length l'.labels ≡ length l.labels + length raws)
unfolding add_labels
add_labels-IsLadder l l' [] v h =
    let same : l ≡ l' = ok-injective l l' h in
    (subst IsLadder same v, subst (λ x. length x.labels ≡ length l.labels + 0) same (omega arith))
add_labels-IsLadder l l' (raw ∷ raws) v h =
    let (m, one, rest) = >>=-ok (add_label l raw) (λ x. add_labels x raws) h in
    let (t, plain, free, e) = add_label-inv l m raw one in
    let (w, n) =
      add_labels-IsLadder m l' raws (subst IsLadder e (grown-IsLadder l t plain free v)) rest in
    let longer : length m.labels ≡ length l.labels + 1 =
      ap (λ x. length x.labels) (sym e) ∙ grown-length l t in
    (w, omega (arith, n, longer))

-- A label has no white space, so that trimming leaves it as it is.
char_plain : (n : ℕ) → is_label_char n ≡ true → is_space n ≡ false
unfolding is_space
char_plain n h = ground (arith, h)

trim_right-rest : (s : String) → is_label_rest s ≡ true → trim_right s ≡ s
unfolding trim_right
trim_right-rest Text.[] h = refl
trim_right-rest (Text.◌∷◌ c s) h =
    let head : is_space (code c) ≡ false = char_plain (code c) (ground (arith, h)) in
    ap (λ b. if b && trim_right s == "" then "" else Text.◌∷◌ c (trim_right s)) head
    ∙ ap (λ t. Text.◌∷◌ c t) (trim_right-rest s (ground (arith, h)))

label_rest : (s : String) → is_depth_label s ≡ true → is_label_rest s ≡ true
unfolding is_depth_label
label_rest Text.[] h = refl
label_rest (Text.◌∷◌ c s) h = ground (arith, h)

trim_left-label : (s : String) → is_depth_label s ≡ true → trim_left s ≡ s
unfolding trim_left is_depth_label
trim_left-label Text.[] h = refl
trim_left-label (Text.◌∷◌ c s) h =
    let head : is_space (code c) ≡ false = char_plain (code c) (ground (arith, h)) in
    ap (λ b. if b then trim_left s else Text.◌∷◌ c s) head

trim_space-label : (s : String) → is_depth_label s ≡ true → trim_space s ≡ s
unfolding trim_space
trim_space-label s h = ap trim_right (trim_left-label s h) ∙ trim_right-rest s (label_rest s h)

get_elem?-some :
    (xs : List String) (i : ℕ) → i < length xs → (t : String) × (get_elem? xs i ≡ some t)
get_elem?-some [] i h = absurd (omega arith)
get_elem?-some (x ∷ xs) zero h = (x, refl)
get_elem?-some (x ∷ xs) (suc i) h = get_elem?-some xs i (omega arith)

empty-IsLadder : IsLadder (record { labels = []; by_label = [] })
unfolding lookup
empty-IsLadder = record {
  keyed = λ k r at. absurd (ground (arith, at));
  listed = λ i t at. absurd (ground (arith, at));
  plain = λ i t at. absurd (ground (arith, at));
}

found_rank-ok : (o : Option ℤ) (s : String) (r : ℤ) → (found_rank o s ≡ ok r) ↔ (o ≡ some r)
found_rank-ok none s r = (λ h. cc, λ h. cc)
found_rank-ok (some x) s r = (λ h. cc, λ h. cc)

known_rank : (r : ℤ) → is_known_depth_rank r ≡ true → (n : ℕ) × (r ≡ pos n) × (n < 4)
unfolding is_known_depth_rank
known_rank (pos n) h = (n, refl, ground (arith, h))
known_rank (negsuc n) h = absurd (ground (arith, h))

label-pos :
    (l : DepthLadder) (n : ℕ) (t : String)
    → n < 4
    → get_elem? l.labels n ≡ some t
    → label l (pos n) ≡ some t
unfolding label is_known_depth_rank
label-pos l n t h at = ground (arith, h, at)

module _ (l : DepthLadder) (v : IsLadder l) (n : ℕ) (t : String)
    (there : get_elem? l.labels n ≡ some t) where
  -- A text is read as the rank of a label exactly if it is the label up to case and space.
  parse-label :
      (s : String) → (parse_depth_rank l s ≡ ok (pos n)) ↔ (lowered (trim_space s) ≡ lowered t)
  unfolding parse_depth_rank
  parse-label s =
      let key = lowered (trim_space s) in
      let found = found_rank-ok (lookup key l.by_label) s (pos n) in
      (
        λ h.
            let (i, t', e, at, same) = v.keyed key (pos n) (found.0 h) in
            let place : n ≡ i = ground (arith, e) in
            let one : some t' ≡ some t = sym at ∙ ap (get_elem? l.labels) (sym place) ∙ there in
            sym same ∙ ap lowered (ground (arith, one)),
        λ h. found.1 (ap (λ k. lookup k l.by_label) h ∙ v.listed n t there),
      )

-- For a ladder that was made of four labels and each of the four ranks: the rank has a label, the
-- label is read as the rank, and so are exactly the texts that are the label up to white space
-- around them and to upper and lower case.
pub parse_depth_rank-label :
    (a b c d : String) (l : DepthLadder) (r : ℤ)
    → new_depth_ladder a b c d ≡ ok l
    → is_known_depth_rank r ≡ true
    → (t : String) × (label l r ≡ some t)
      × (parse_depth_rank l t ≡ ok r)
      × ((s : String) → (parse_depth_rank l s ≡ ok r) ↔ (lowered (trim_space s) ≡ lowered t))
unfolding new_depth_ladder
parse_depth_rank-label a b c d l r h k =
    let (v, four) =
      add_labels-IsLadder (record { labels = []; by_label = [] }) l (a ∷ b ∷ c ∷ d ∷ [])
        empty-IsLadder h in
    let (n, e, low) = known_rank r k in
    let (t, there) = get_elem?-some l.labels n (omega (arith, four, low)) in
    let tight = trim_space-label t (v.plain n t there) in
    subst
      (λ x.
        (u : String) × (label l x ≡ some u)
        × (parse_depth_rank l u ≡ ok x)
        × ((s : String) → (parse_depth_rank l s ≡ ok x) ↔ (lowered (trim_space s) ≡ lowered u)))
      (sym e)
      (
        t,
        label-pos l n t low there,
        (parse-label l v n t there t).1 (ap lowered tight),
        parse-label l v n t there,
      )

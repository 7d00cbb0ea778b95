-- ===== src/Attestations/Truncation/Laws.antt =====
-- The search ends, and what it leaves of the file are its complete lines.
use ghyll.Base.{
  ℕ, zero, suc, ◌+◌, ◌-◌, ◌<◌, ◌≤◌, String, ◌≡◌, refl, sym, ap, ◌∙◌, inl, inr, true, false, Option,
  none, some, List, [], ◌∷◌, ◌++◌, arith, nat_eq, nat_eq_iff, length, drop, if◌then◌else◌,
  Bool-cases, Option-cases, Bool, All, subst, ◌⊎◌,
}
use ghyll.Attestations.Truncation.{
  take, last_break, FileFaults, Search, found, nowhere, slice, judge_chunk, search_back, cut_file,
  apply_search, truncate_trailing_partial,
}

shift : ℕ → Option ℕ → Option ℕ → Option ℕ
shift n (some i) o = some (n + i)
shift n none o = o

last_break-append :
    (xs ys : List ℕ) → last_break (xs ++ ys) ≡ shift (length xs) (last_break ys) (last_break xs)
unfolding last_break shift
last_break-append [] ys = ground arith
last_break-append (x ∷ xs) ys = ground (arith, last_break-append xs ys)

take-all : (n : ℕ) (xs : List ℕ) → length xs ≤ n → take n xs ≡ xs
take-all zero [] h = refl
take-all zero (x ∷ xs) h = absurd (omega arith)
take-all (suc n) [] h = refl
take-all (suc n) (x ∷ xs) h = ap (λ l. x ∷ l) (take-all n xs (omega arith))

length-take : (n : ℕ) (xs : List ℕ) → n ≤ length xs → length (take n xs) ≡ n
length-take zero xs h = refl
length-take (suc n) [] h = absurd (omega arith)
length-take (suc n) (x ∷ xs) h = ap suc (length-take n xs (omega arith))

take-nil : (n : ℕ) → take n [] ≡ []
take-nil zero = refl
take-nil (suc n) = refl

take-add : (m n : ℕ) (xs : List ℕ) → take (m + n) xs ≡ take m xs ++ take n (drop m xs)
take-add zero n xs = ap (λ k. take k xs) (omega arith)
take-add (suc m) n [] = take-nil (suc m + n) ∙ sym (take-nil n)
take-add (suc m) n (x ∷ xs) =
    let longer : suc m + n ≡ suc (m + n) = omega arith in
    ap (λ k. take k (x ∷ xs)) longer ∙ ap (λ l. x ∷ l) (take-add m n xs)

answer : Option ℕ → Search
answer none = nowhere
answer (some i) = found (i + 1)

module _ (chunk : ℕ) (faults : FileFaults) (file : List ℕ) (sized : 0 < chunk)
    (readable : (n : ℕ) → faults.read_at n ≡ none) where
  take-slice :
      (from end : ℕ)
      → from ≤ end
      → end ≤ length file
      → last_break (take end file)
        ≡ shift from (last_break (slice from end file)) (last_break (take from file))
  take-slice from end h k =
      let whole : from + (end - from) ≡ end = omega arith in
      ap (λ n. last_break (take n file)) (sym whole)
      ∙ ap last_break (take-add from (end - from) file)
      ∙ last_break-append (take from file) (slice from end file)
      ∙ ap (λ n. shift n (last_break (slice from end file)) (last_break (take from file)))
          (length-take from file (omega arith))

  judged :
      (from : ℕ) (o rest : Option ℕ) (later : Search)
      → (from ≡ 0 → rest ≡ none)
      → (0 < from → later ≡ answer rest)
      → judge_chunk chunk faults file from o later ≡ answer (shift from o rest)
  unfolding judge_chunk answer shift
  judged from (some i) rest later first more = refl
  judged from none rest later first more = elim (Bool-cases (nat_eq from 0)) [
    | inl e ↦ rw e (sym (ap answer (first ((nat_eq_iff from 0).0 e))))
    | inr e ↦ rw e (more (ground (arith, e)))
  ]

  first-none : (n : ℕ) → n ≡ 0 → last_break (take n file) ≡ none
  unfolding last_break
  first-none n h = ap (λ k. last_break (take k file)) h

  search_back-answer :
      (fuel end : ℕ)
      → end ≤ fuel
      → 0 < end
      → end ≤ length file
      → search_back chunk faults file fuel end ≡ answer (last_break (take end file))
  unfolding search_back
  search_back-answer zero end h k l = absurd (omega arith)
  search_back-answer (suc fuel) end h k l =
      let from = end - chunk in
      let rest = search_back chunk faults file fuel from in
      ap
        (λ (o : Option String). elim o [
          | some e ↦ Search.unreadable e
          | none ↦ judge_chunk chunk faults file from (last_break (slice from end file)) rest
        ])
        (readable from)
      ∙ judged from (last_break (slice from end file)) (last_break (take from file)) rest
          (first-none from) (λ p. search_back-answer fuel from (omega arith) p (omega arith))
      ∙ ap answer (sym (take-slice from end (omega arith) l))

-- A byte that is no line break.
abbrev pub IsPlain : ℕ → Type 0
IsPlain b = nat_eq b b'\n' ≡ false

last_break-none : (bs : List ℕ) → last_break bs ≡ none → All IsPlain bs
unfolding last_break
last_break-none [] h = tt
last_break-none (b ∷ bs) h = (ground (arith, h), last_break-none bs (ground (arith, h)))

-- Up to the last line break, and after it.
record Split (bs : List ℕ) (i : ℕ) : Type 0 where
  before : List ℕ
  upto : take (suc i) bs ≡ before ++ b'\n' ∷ []
  after : All IsPlain (drop (suc i) bs)
  whole : take (suc i) bs ++ drop (suc i) bs ≡ bs

last_break-Split : (bs : List ℕ) (i : ℕ) → last_break bs ≡ some i → Split bs i
unfolding last_break
last_break-Split [] i h = absurd (ground (arith, h))
last_break-Split (b ∷ bs) i h = elim (Option-cases (last_break bs)) [
  | inl e ↦
      let here : i ≡ 0 = ground (arith, h, e) in
      let break : b ≡ b'\n' = (nat_eq_iff b b'\n').0 (ground (arith, h, e)) in
      subst (Split (b ∷ bs)) (sym here) (record {
        before = [];
        upto = ap (λ x. x ∷ []) break;
        after = last_break-none bs e;
        whole = refl;
      })
  | inr (j, e) ↦
      let there : i ≡ suc j = ground (arith, h, e) in
      let rest = last_break-Split bs j e in
      subst (Split (b ∷ bs)) (sym there) (record {
        before = b ∷ rest.before;
        upto = ap (λ l. b ∷ l) rest.upto;
        after = rest.after;
        whole = ap (λ l. b ∷ l) rest.whole;
      })
]

-- What is kept of a file: it is empty or ends with a line break, and what follows has none.
pub record Kept (file kept : List ℕ) : Type 0 where
  pub rest : List ℕ
  pub parts : kept ++ rest ≡ file
  pub partial : All IsPlain rest
  pub complete : (kept ≡ []) ⊎ ((before : List ℕ) × (kept ≡ before ++ b'\n' ∷ []))

-- The calls on the file succeed.
pub record NoFaults (faults : FileFaults) : Type 0 where
  pub stat : faults.stat ≡ none
  pub read_at : (n : ℕ) → faults.read_at n ≡ none
  pub truncate : faults.truncate ≡ none
  pub seek : faults.seek ≡ none
  pub sync : faults.sync ≡ none

add-one : (n : ℕ) → n + 1 ≡ suc n
add-one n = omega arith

empty : (file : List ℕ) → nat_eq (length file) 0 ≡ true → file ≡ []
empty [] e = refl
empty (b ∷ bs) e = absurd (ground (arith, e))

nothing-Kept : (file : List ℕ) → nat_eq (length file) 0 ≡ true → Kept file []
nothing-Kept [] e = record { rest = []; parts = refl; partial = tt; complete = inl refl }
nothing-Kept (b ∷ bs) e = absurd (ground (arith, e))

module _ (faults : FileFaults) (fine : NoFaults faults) (file : List ℕ) where
  cut_file-take : (cut : ℕ) → cut_file faults file cut ≡ (none, take cut file)
  unfolding cut_file
  cut_file-take cut = rw (fine.truncate, fine.seek, fine.sync) refl

  if-cut :
      (b : Bool) (i : ℕ)
      → nat_eq (i + 1) (length file) ≡ b
      → (if b then (none, file) else cut_file faults file (i + 1)) ≡ (none, take (suc i) file)
  if-cut true i e =
      let all : length file ≤ suc i = omega (arith, (nat_eq_iff (i + 1) (length file)).0 e) in
      λ k. (none, sym (take-all (suc i) file all) k)
  if-cut false i e = cut_file-take (i + 1) ∙ λ k. (none, take (add-one i k) file)

  apply_search-Kept :
      (o : Option ℕ)
      → last_break file ≡ o
      → (kept : List ℕ) × (apply_search faults file (answer o) ≡ (none, kept)) × Kept file kept
  unfolding apply_search answer
  apply_search-Kept none h = (
    [],
    cut_file-take 0,
    record { rest = file; parts = refl; partial = last_break-none file h; complete = inl refl },
  )
  apply_search-Kept (some i) h =
      let split = last_break-Split file i h in
      (
        take (suc i) file,
        if-cut (nat_eq (i + 1) (length file)) i refl,
        record {
          rest = drop (suc i) file;
          parts = split.whole;
          partial = split.after;
          complete = inr (split.before, split.upto);
        },
      )

  searched :
      (chunk : ℕ)
      → 0 < chunk
      → 0 < length file
      → search_back chunk faults file (length file) (length file) ≡ answer (last_break file)
  searched chunk sized full =
      search_back-answer chunk faults file sized fine.read_at (length file) (length file)
        (omega arith) full (omega arith)
      ∙ ap (λ l. answer (last_break l)) (take-all (length file) file (omega arith))

  by_size :
      (chunk : ℕ) (b : Bool)
      → 0 < chunk
      → nat_eq (length file) 0 ≡ b
      → (kept : List ℕ) × ((if b
            then (none, file)
            else apply_search faults file
                (search_back chunk faults file (length file) (length file)))
          ≡ (none, kept))
        × Kept file kept
  by_size chunk true sized e = ([], λ k. (none, empty file e k), nothing-Kept file e)
  by_size chunk false sized e =
      let (kept, done, split) = apply_search-Kept (last_break file) refl in
      (kept, ap (apply_search faults file) (searched chunk sized (ground (arith, e))) ∙ done, split)

  -- On an open writer whose output is a file, with a positive size of chunks, and where the calls on
  -- the file succeed: the search ends with no error, whatever the size of the chunks, and the file
  -- that it leaves is empty or ends with a line break, and is the old file without a rest that has
  -- no line break.
  pub truncate_trailing_partial-Kept :
      (chunk : ℕ)
      → 0 < chunk
      → (kept : List ℕ) × (truncate_trailing_partial chunk false true faults file ≡ (none, kept))
        × Kept file kept
  unfolding truncate_trailing_partial
  truncate_trailing_partial-Kept chunk sized =
      let (kept, done, split) = by_size chunk (nat_eq (length file) 0) sized refl in
      (kept, rw fine.stat done, split)

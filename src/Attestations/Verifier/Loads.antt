-- ===== src/Attestations/Verifier/Loads.antt =====
-- What is verified against what is loaded.
use ghyll.Base.{
  subst, ℕ, ◌+◌, ◌≤◌, map, eq_iff, String, ◌≡◌, inl, inr, refl, sym, ap, ◌∙◌, Bool, not, none, List,
  [], ◌∷◌, arith, ◌++◌, ◌==◌, string_key, if◌then◌else◌, trim_space, Bool-cases, split_lines,
}
use ghyll.Attestations.{Rules}
use ghyll.Attestations.Store.{AttestationStore}
use ghyll.Attestations.Loading.{
  load_rest, nothing_loaded, Json, Loaded, Opened, opened, load_from_jsonl, load_one_tree_file,
  is_skipped, load_line, load_lines, load_trimmed,
}
use ghyll.Attestations.Verifier.{
  nothing_verified, Reason, PayloadParser, Scanner, check_line, count_line, VerifyResult,
  verify_line, verify_lines, verify,
}
use ghyll.Attestations.Verifier.Accepted.{taken}

counted :
    (n : ℕ) (res : VerifyResult) (reasons : List Reason)
    → res.failed ≤ (count_line n res reasons).failed
unfolding count_line
counted n res [] = omega arith
counted n res (r ∷ rs) = omega arith

clean :
    (n : ℕ) (res : VerifyResult) (reasons : List Reason)
    → (count_line n res reasons).failed ≡ res.failed
    → (reasons ≡ []) × ((count_line n res reasons).passed ≡ res.passed + 1)
unfolding count_line
clean n res [] h = (refl, refl)
clean n res (r ∷ rs) h = absurd (omega (arith, h))

-- A last line that has no line break.
abbrev pub unterminated : String → List String
unterminated rest = if rest == "" then [] else rest ∷ []

-- Whether it holds a record.
unfoldable pub records_in : String → ℕ
unfolding is_skipped
records_in rest = if is_skipped (trim_space rest) then 0 else 1

module _ (rules : Rules) (json : Json) (parse : PayloadParser) where
  verify_line-grows :
      (n : ℕ) (res : VerifyResult) (line : String)
      → res.failed ≤ (verify_line rules json parse n res line).failed
  unfolding verify_line
  verify_line-grows n res line = elim (Bool-cases (is_skipped line)) [
    | inl e ↦ rw e (omega arith)
    | inr e ↦ rw e (counted n res (check_line rules json parse line))
  ]

  verify_lines-grows :
      (n : ℕ) (res : VerifyResult) (lines : List String)
      → res.failed ≤ (verify_lines rules json parse n res lines).failed
  unfolding verify_lines
  verify_lines-grows n res [] = omega arith
  verify_lines-grows n res (raw ∷ lines) =
      let res' = verify_line rules json parse (n + 1) res (trim_space raw) in
      omega (
        arith,
        verify_line-grows (n + 1) res (trim_space raw),
        verify_lines-grows (n + 1) res' lines,
      )

  -- A line that is verified without an issue is loaded.
  line_loads :
      (n : ℕ) (res : VerifyResult) (l : Loaded) (line : String)
      → (verify_line rules json parse n res line).failed ≡ res.failed
      → ((load_trimmed rules json l line).failed ≡ l.failed)
        × ((load_trimmed rules json l line).loaded + res.passed
            ≡ l.loaded + (verify_line rules json parse n res line).passed)
  unfolding verify_line load_trimmed check_line
  line_loads n res l line h = elim (Bool-cases (is_skipped line)) [
    | inl e ↦ rw e (refl, refl)
    | inr e ↦
        let (quiet, one) = clean n res (check_line rules json parse line) (
          sym (
            ap
              (λ b. (if b then res else count_line n res (check_line rules json parse line)).failed)
              e)
          ∙ h) in
        let (f, g) = taken rules json parse l (json.unmarshal line) quiet in
        rw e (f, omega (arith, g, one))
  ]

  verify_lines-load_lines :
      (n : ℕ) (res : VerifyResult) (l : Loaded) (lines : List String)
      → l.failed ≡ none
      → (verify_lines rules json parse n res lines).failed ≡ res.failed
      → ((load_lines rules json l lines).failed ≡ none)
        × ((load_lines rules json l lines).loaded + res.passed
            ≡ l.loaded + (verify_lines rules json parse n res lines).passed)
  unfolding verify_lines load_lines load_line
  verify_lines-load_lines n res l [] fine h = (fine, refl)
  verify_lines-load_lines n res l (raw ∷ lines) fine h =
      let line = trim_space raw in
      let res' = verify_line rules json parse (n + 1) res line in
      let l' = load_trimmed rules json l line in
      let same : res'.failed ≡ res.failed =
        omega
          (arith, h, verify_line-grows (n + 1) res line, verify_lines-grows (n + 1) res' lines) in
      let (f, g) = line_loads (n + 1) res l line same in
      let fine' : l'.failed ≡ none = f ∙ fine in
      let (f', g') = verify_lines-load_lines (n + 1) res' l' lines fine' (h ∙ sym same) in
      rw fine' (f', omega (arith, g, g'))

  -- The white space around a line does not matter.
  verify_trimmed : ℕ → VerifyResult → List String → VerifyResult
  verify_trimmed n res [] = res
  verify_trimmed n res (line ∷ lines) =
      verify_trimmed (n + 1) (verify_line rules json parse (n + 1) res line) lines

  verify_lines-trim_space :
      (n : ℕ) (res : VerifyResult) (lines : List String)
      → verify_lines rules json parse n res lines ≡ verify_trimmed n res (map trim_space lines)
  unfolding verify_lines verify_trimmed
  verify_lines-trim_space n res [] = refl
  verify_lines-trim_space n res (raw ∷ lines) =
      verify_lines-trim_space (n + 1) (verify_line rules json parse (n + 1) res (trim_space raw))
        lines

  verify_lines-append :
      (n : ℕ) (res : VerifyResult) (xs ys : List String)
      → (m : ℕ) × (verify_lines rules json parse n res (xs ++ ys)
          ≡ verify_lines rules json parse m (verify_lines rules json parse n res xs) ys)
  unfolding verify_lines
  verify_lines-append n res [] ys = (n, refl)
  verify_lines-append n res (raw ∷ xs) ys =
      verify_lines-append (n + 1) (verify_line rules json parse (n + 1) res (trim_space raw)) xs ys

  one_counts :
      (n : ℕ) (res : VerifyResult) (line : String)
      → (verify_line rules json parse n res line).failed ≡ res.failed
      → (verify_line rules json parse n res line).passed
        ≡ res.passed + (if is_skipped line then 0 else 1)
  unfolding verify_line
  one_counts n res line h = elim (Bool-cases (is_skipped line)) [
    | inl e ↦ rw e (omega arith)
    | inr e ↦
        let h' =
          ap (λ b. (if b then res else count_line n res (check_line rules json parse line)).failed)
            (sym e)
          ∙ h in
        rw e ((clean n res (check_line rules json parse line) h').1)
  ]

  -- What a last line without a line break adds.
  last_counts :
      (n : ℕ) (res : VerifyResult) (rest : String)
      → (verify_lines rules json parse n res (unterminated rest)).failed ≡ res.failed
      → (verify_lines rules json parse n res (unterminated rest)).passed
        ≡ res.passed + records_in rest
  unfolding verify_lines verify_line is_skipped records_in
  last_counts n res rest h = elim (Bool-cases (rest == "")) [
    | inl e ↦
        subst
          (λ t.
            (verify_lines rules json parse n res (unterminated t)).passed
            ≡ res.passed + records_in t)
          (sym ((eq_iff rest "").0 e)) (omega arith)
    | inr e ↦
        let one : unterminated rest ≡ rest ∷ [] = ap (λ b. if b then [] else rest ∷ []) e in
        let h' = ap (λ ls. (verify_lines rules json parse n res ls).failed) (sym one) ∙ h in
        ap (λ ls. (verify_lines rules json parse n res ls).passed) one
        ∙ one_counts (n + 1) res (trim_space rest) h'
  ]

  load-whole :
      (s : AttestationStore) (file : Opened) (engine_has_rows : Bool) (lines : List String)
      (rest : String)
      → split_lines file.text ≡ (lines, rest)
      → file.ending ≡ none
      → (load_lines rules json (nothing_loaded s none) lines).failed ≡ none
      → let l = load_from_jsonl rules json s (opened file) engine_has_rows in
        (l.failed ≡ none)
        × (l.loaded ≡ (load_lines rules json (nothing_loaded s none) lines).loaded)
        × (l.truncated ≡ not (rest == ""))
  unfolding load_from_jsonl load_one_tree_file load_rest
  load-whole s file engine_has_rows lines rest split ends f = rw (split, f, ends) (f, refl, refl)

  -- Where the scanner yields the lines of a file that can be read to its end, an unterminated last
  -- line included, and up to white space around them: if no line has an issue, the file is loaded
  -- with no error; the load counts as many records as passed, less the one, if any, in an
  -- unterminated last line; and it is truncated exactly if there is such a line.
  pub verify-load_from_jsonl :
      (scan : Scanner) (s : AttestationStore) (file : Opened) (engine_has_rows : Bool)
      (lines : List String) (rest : String)
      → split_lines file.text ≡ (lines, rest)
      → file.ending ≡ none
      → map trim_space (scan file).0 ≡ map trim_space (lines ++ unterminated rest)
      → (verify rules json parse scan file).0.failed ≡ 0
      → let l = load_from_jsonl rules json s (opened file) engine_has_rows in
        (l.failed ≡ none)
        × (l.loaded + records_in rest ≡ (verify rules json parse scan file).0.passed)
        × (l.truncated ≡ not (rest == ""))
  unfolding verify
  verify-load_from_jsonl scan s file engine_has_rows lines rest split ends yields h =
      let start = nothing_verified in
      let (m, appended) = verify_lines-append 0 start lines (unterminated rest) in
      let scanned : verify_lines rules json parse 0 start (scan file).0
          ≡ verify_lines rules json parse m (verify_lines rules json parse 0 start lines)
              (unterminated rest) =
        verify_lines-trim_space 0 start (scan file).0
        ∙ ap (verify_trimmed 0 start) yields
        ∙ sym (verify_lines-trim_space 0 start (lines ++ unterminated rest))
        ∙ appended in
      let before = verify_lines rules json parse 0 start lines in
      let all : (verify_lines rules json parse m before (unterminated rest)).failed ≡ 0 =
        ap (λ r. r.failed) (sym scanned) ∙ h in
      let none_before : before.failed ≡ 0 =
        omega (arith, all, verify_lines-grows m before (unterminated rest)) in
      let last = last_counts m before rest (all ∙ sym none_before) in
      let (f, g) = verify_lines-load_lines 0 start (nothing_loaded s none) lines refl none_before in
      let (fine, loaded, truncated) = load-whole s file engine_has_rows lines rest split ends f in
      (fine, omega (arith, loaded, g, last, ap (λ r. r.passed) scanned), truncated)

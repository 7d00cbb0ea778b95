-- ===== src/Remediation/AutoInsert.antt =====
-- runner/remediation.go: the clauses that every attacked arrow is verified by.
use ghyll.Base.{
  pos, String, Bool, ◌≡◌, ◌⊎◌, inl, inr, some, All, refl, ap, sym, ◌∙◌, ◌==◌, true, false, ◌||◌,
  List, [], ◌∷◌, ◌++◌, arith, any, concat, trim_space, if◌then◌else◌, length, ◌≤◌, string_key,
}
use ghyll.Base.Map.{lookup}
use ghyll.Clause.{Clause, Value}

-- The two evaluators.
abbrev pub no_open_finding : String
no_open_finding = "no-open-finding"

abbrev pub min_depth : String
min_depth = "every-requirement-meets-min-depth"

-- A clause that is inserted; all other fields are empty.
unfoldable pub auto_clause : String → String → Clause
auto_clause arrow_id concept = record {
  concept = concept;
  args = ("arrow-id", Value.text arrow_id) ∷ [];
  project_dir = "";
  clause_id = concat ("auto/" ∷ arrow_id ∷ "/" ∷ concept ∷ []);
  pass_id = "";
  arrow_id = arrow_id;
  grid_version = 0;
  depth_type = "";
  min_depth_tier = pos 0;
  depth_type_attestation_ref = "";
}

-- `strings.EqualFold` is a parameter.
module _ (equal_fold : String → String → Bool) where
  unfoldable pub has_concept : String → List Clause → Bool
  has_concept concept cs = any (λ c. equal_fold c.concept concept) cs

  unfoldable pub missing_one : String → String → List Clause → List Clause
  unfolding has_concept auto_clause
  missing_one arrow_id concept existing =
      if has_concept concept existing then [] else auto_clause arrow_id concept ∷ []

  unfoldable pub missing_clauses : String → List Clause → List Clause
  unfolding missing_one
  missing_clauses arrow_id existing =
      missing_one arrow_id no_open_finding existing ++ missing_one arrow_id min_depth existing

  -- `VerificationAutoInsert`
  unfoldable pub verification_auto_insert : String → List Clause → List Clause
  unfolding missing_clauses trim_space
  verification_auto_insert arrow_id existing =
      if trim_space arrow_id == ""
      then existing
      else existing ++ missing_clauses (trim_space arrow_id) existing

  opened :
      (arrow_id : String) (cs : List Clause)
      → trim_space arrow_id == "" ≡ false
      → verification_auto_insert arrow_id cs ≡ cs ++ missing_clauses (trim_space arrow_id) cs
  unfolding verification_auto_insert
  opened arrow_id cs h = rw h refl

  any-append : (p : Clause → Bool) (xs ys : List Clause) → any p (xs ++ ys) ≡ (any p xs || any p ys)
  any-append p [] ys = refl
  any-append p (x ∷ xs) ys = ground (arith, any-append p xs ys)

  append-nil : (xs : List Clause) → xs ++ [] ≡ xs
  append-nil [] = refl
  append-nil (x ∷ xs) = ap (λ l. x ∷ l) (append-nil xs)

  has_concept-append :
      (concept : String) (xs ys : List Clause)
      → has_concept concept (xs ++ ys) ≡ (has_concept concept xs || has_concept concept ys)
  unfolding has_concept
  has_concept-append concept xs ys = any-append (λ c. equal_fold c.concept concept) xs ys

  -- A list that has both clauses is not extended.
  missing_clauses-none :
      (arrow_id : String) (cs : List Clause)
      → has_concept no_open_finding cs ≡ true
      → has_concept min_depth cs ≡ true
      → missing_clauses arrow_id cs ≡ []
  unfolding missing_clauses missing_one
  missing_clauses-none arrow_id cs h k = rw (h, k) refl

  -- What an inserted clause is, and how many there are.
  abbrev pub IsInserted : String → Clause → Type 0
  IsInserted arrow_id c =
      (c.arrow_id ≡ arrow_id)
      × (lookup "arrow-id" c.args ≡ some (Value.text arrow_id))
      × ((c.concept ≡ no_open_finding) ⊎ (c.concept ≡ min_depth))

  missing_clauses-few :
      (arrow_id : String) (cs : List Clause)
      → (length (missing_clauses arrow_id cs) ≤ 2)
        × All (IsInserted arrow_id) (missing_clauses arrow_id cs)
  unfolding missing_clauses missing_one auto_clause lookup
  missing_clauses-few arrow_id cs = few (has_concept no_open_finding cs) (has_concept min_depth cs)
    where
      few :
          (b d : Bool)
          → (length (
                (if b then [] else auto_clause arrow_id no_open_finding ∷ [])
                ++ (if d then [] else auto_clause arrow_id min_depth ∷ []))
              ≤ 2)
            × All (IsInserted arrow_id) (
                (if b then [] else auto_clause arrow_id no_open_finding ∷ [])
                ++ (if d then [] else auto_clause arrow_id min_depth ∷ []))
      few true true = (omega arith, tt)
      few true false = (omega arith, ((refl, refl, inr refl), tt))
      few false true = (omega arith, ((refl, refl, inl refl), tt))
      few false false = (omega arith, ((refl, refl, inl refl), ((refl, refl, inr refl), tt)))

  module _ (fold_refl : (s : String) → equal_fold s s ≡ true) where
    has_concept-missing_one :
        (arrow_id concept : String) (cs : List Clause)
        → has_concept concept cs ≡ false
        → has_concept concept (missing_one arrow_id concept cs) ≡ true
    unfolding missing_one has_concept auto_clause
    has_concept-missing_one arrow_id concept cs h = rw h (ground (arith, fold_refl concept))

    has_concept-missing_clauses :
        (arrow_id : String) (cs : List Clause)
        → (has_concept no_open_finding (cs ++ missing_clauses arrow_id cs) ≡ true)
          × (has_concept min_depth (cs ++ missing_clauses arrow_id cs) ≡ true)
    unfolding missing_clauses
    has_concept-missing_clauses arrow_id cs =
        let one = missing_one arrow_id no_open_finding cs in
        let two = missing_one arrow_id min_depth cs in
        (
          ground (
            arith,
            has_concept-append no_open_finding cs (one ++ two),
            has_concept-append no_open_finding one two,
            has_concept-missing_one arrow_id no_open_finding cs,
          ),
          ground (
            arith,
            has_concept-append min_depth cs (one ++ two),
            has_concept-append min_depth one two,
            has_concept-missing_one arrow_id min_depth cs,
          ),
        )

    -- Where folding case makes every text equal to itself, and for an arrow whose id is not blank:
    -- the clauses are kept in their order, at most two follow them, each of which is for the arrow
    -- and one of the two evaluators, both evaluators are then there, and inserting again changes
    -- nothing.
    pub verification_auto_insert-covers :
        (arrow_id : String) (cs : List Clause)
        → trim_space arrow_id == "" ≡ false
        → (added : List Clause) × (verification_auto_insert arrow_id cs ≡ cs ++ added)
          × (length added ≤ 2)
          × All (IsInserted (trim_space arrow_id)) added
          × (has_concept no_open_finding (verification_auto_insert arrow_id cs) ≡ true)
          × (has_concept min_depth (verification_auto_insert arrow_id cs) ≡ true)
          × (verification_auto_insert arrow_id (verification_auto_insert arrow_id cs)
              ≡ verification_auto_insert arrow_id cs)
    unfolding verification_auto_insert
    verification_auto_insert-covers arrow_id cs h =
        let id = trim_space arrow_id in
        let both = has_concept-missing_clauses id cs in
        let few = missing_clauses-few id cs in
        (
          missing_clauses id cs,
          opened arrow_id cs h,
          few.0,
          few.1,
          ap (has_concept no_open_finding) (opened arrow_id cs h) ∙ both.0,
          ap (has_concept min_depth) (opened arrow_id cs h) ∙ both.1,
          ap (verification_auto_insert arrow_id) (opened arrow_id cs h)
              ∙ opened arrow_id (cs ++ missing_clauses id cs) h
              ∙ ap (λ l. (cs ++ missing_clauses id cs) ++ l)
                  (missing_clauses-none id (cs ++ missing_clauses id cs) both.0 both.1)
              ∙ append-nil (cs ++ missing_clauses id cs)
              ∙ sym (opened arrow_id cs h),
        )

-- ===== src/Arrow/Levels.antt =====
-- The derived status as the worst of what each clause and each finding contributes alone.
use ghyll.Base.{
  ℕ, ℤ, ◌≡◌, refl, Bool, false, ◌&&◌, ◌||◌, not, List, [], ◌∷◌, ◌++◌, map, arith, nat_eq, leb, ltb,
  int_leb, count_if, count_if-append, count_if-map, all, if◌then◌else◌,
}
use ghyll.Clause.{ClauseStatus}
use ghyll.Arrow.{
  ArrowStatus, Finding, ClauseDeriveInput, is_fail, is_unevaluated, is_in_flight,
  is_unevaluated_finding, is_open_blocking, is_attested_pending, is_pass, is_pending, is_running,
  normalize, derive_normalized,
}

-- What one clause or finding says about the arrow, from harmless to worst.
pub data Level : Type 0 where
  passes awaits progresses undecided blocks : Level

abbrev pub rank : Level → ℕ
rank passes = 0
rank awaits = 1
rank progresses = 2
rank undecided = 3
rank blocks = 4

abbrev pub worse : Level → Level → Level
worse a b = if leb (rank a) (rank b) then b else a

abbrev pub worst : List Level → Level
worst [] = passes
worst (l ∷ ls) = worse l (worst ls)

abbrev pub status_of : Level → ArrowStatus
status_of passes = ArrowStatus.complete
status_of awaits = ArrowStatus.provisional
status_of progresses = ArrowStatus.in_progress
status_of undecided = ArrowStatus.unevaluated
status_of blocks = ArrowStatus.blocked

-- A running clause awaits when an operator's verdict is outstanding.
abbrev pub status_level : ClauseStatus → Bool → Level
status_level ClauseStatus.pass asked = passes
status_level ClauseStatus.fail asked = blocks
status_level ClauseStatus.pending asked = progresses
status_level ClauseStatus.running asked = if asked then awaits else progresses
status_level ClauseStatus.unevaluated asked = undecided
status_level (ClauseStatus.unknown n) asked = undecided

abbrev pub clause_level : ClauseDeriveInput → Level
clause_level c = status_level c.status (c.awaiting_attestation || c.insufficient_basis)

abbrev pub finding_level : ℤ → Finding → Level
finding_level threshold f =
    if is_in_flight f.status && int_leb threshold f.severity_rank
    then blocks
    else if is_unevaluated_finding f.status
    then undecided
    else passes

abbrev at : Level → Level → Bool
at l k = nat_eq (rank l) (rank k)

-- `worst` from the number of entries at each level.
worst-counts :
    (ls : List Level)
    → worst ls ≡ (
        if ltb 0 (count_if (at blocks) ls)
        then blocks
        else if ltb 0 (count_if (at undecided) ls)
        then undecided
        else if ltb 0 (count_if (at progresses) ls)
        then progresses
        else if ltb 0 (count_if (at awaits) ls)
        then awaits
        else passes)
worst-counts [] = refl
worst-counts (passes ∷ ls) = ground (arith, worst-counts ls)
worst-counts (awaits ∷ ls) = ground (arith, worst-counts ls)
worst-counts (progresses ∷ ls) = ground (arith, worst-counts ls)
worst-counts (undecided ∷ ls) = ground (arith, worst-counts ls)
worst-counts (blocks ∷ ls) = ground (arith, worst-counts ls)

-- The tests of the source, on one normalized clause, read off the clause's level.
module _ (c : ClauseDeriveInput) where
  fail-level : is_fail (normalize c).status ≡ at blocks (clause_level c)
  unfolding normalize
  fail-level = ground arith

  undecided-level : is_unevaluated (normalize c).status ≡ at undecided (clause_level c)
  unfolding normalize
  undecided-level = ground arith

  awaits-level : is_attested_pending (normalize c) ≡ at awaits (clause_level c)
  unfolding normalize is_attested_pending
  awaits-level = ground arith

  progresses-level :
      (not (is_attested_pending (normalize c))
        && (is_pending (normalize c).status || is_running (normalize c).status))
      ≡ at progresses (clause_level c)
  unfolding normalize is_attested_pending
  progresses-level = ground arith

  settled-level :
      (is_attested_pending (normalize c) || is_pass (normalize c).status)
      ≡ leb (rank (clause_level c)) 1
  unfolding normalize is_attested_pending
  settled-level = ground arith

module _ (t : ℤ) (f : Finding) where
  finding-blocks : is_open_blocking t f ≡ at blocks (finding_level t f)
  finding-blocks = ground arith

  finding-undecided : is_unevaluated_finding f.status ≡ at undecided (finding_level t f)
  finding-undecided = ground arith

  finding-awaits : at awaits (finding_level t f) ≡ false
  finding-awaits = ground arith

  finding-progresses : at progresses (finding_level t f) ≡ false
  finding-progresses = ground arith

-- A test of the source, counted over the normalized clauses.
count-normalized :
    (p : ClauseDeriveInput → Bool) (l : Level)
    → ((c : ClauseDeriveInput) → p (normalize c) ≡ at l (clause_level c))
    → (cs : List ClauseDeriveInput)
    → count_if p (map normalize cs) ≡ count_if (at l) (map clause_level cs)
count-normalized p l h [] = refl
count-normalized p l h (c ∷ cs) = ground (arith, h c, count-normalized p l h cs)

all-settled :
    (cs : List ClauseDeriveInput)
    → all (λ c. is_attested_pending c || is_pass c.status) (map normalize cs) ≡ (
        nat_eq (count_if (at blocks) (map clause_level cs)) 0
        && nat_eq (count_if (at undecided) (map clause_level cs)) 0
        && nat_eq (count_if (at progresses) (map clause_level cs)) 0)
all-settled [] = refl
all-settled (c ∷ cs) = ground (arith, settled-level c, all-settled cs)

count-none :
    (l : Level) (t : ℤ)
    → ((f : Finding) → at l (finding_level t f) ≡ false)
    → (fs : List Finding) → count_if (at l) (map (finding_level t) fs) ≡ 0
count-none l t h [] = refl
count-none l t h (f ∷ fs) = ground (arith, h f, count-none l t h fs)

-- The arrow's level, from its clauses and findings as they come.
abbrev pub arrow_level : List ClauseDeriveInput → List Finding → ℤ → Level
arrow_level cs fs t = worst (map clause_level cs ++ map (finding_level t) fs)

pub derive_normalized-eq :
    (cs : List ClauseDeriveInput) (fs : List Finding) (t : ℤ)
    → (derive_normalized (map normalize cs) fs t).0 ≡ status_of (arrow_level cs fs t)
unfolding derive_normalized
derive_normalized-eq cs fs t =
    let ls = map clause_level cs in
    let ks = map (finding_level t) fs in
    rw
      (
        worst-counts (ls ++ ks),
        count_if-append (at blocks) ls ks,
        count_if-append (at undecided) ls ks,
        count_if-append (at progresses) ls ks,
        count_if-append (at awaits) ls ks,
        count-none awaits t (finding-awaits t) fs,
        count-none progresses t (finding-progresses t) fs,
        count-normalized (λ c. is_fail c.status) blocks fail-level cs,
        count-normalized (λ c. is_unevaluated c.status) undecided undecided-level cs,
        count-normalized is_attested_pending awaits awaits-level cs,
        count-normalized
            (λ c. not (is_attested_pending c) && (is_pending c.status || is_running c.status))
            progresses progresses-level cs,
        all-settled cs,
        count_if-map (is_open_blocking t) (at blocks) (finding_level t) (finding-blocks t) fs,
        count_if-map (λ f. is_unevaluated_finding f.status) (at undecided) (finding_level t)
            (finding-undecided t) fs,
      )
      (ground arith)

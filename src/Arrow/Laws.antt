-- ===== src/Arrow/Laws.antt =====
-- What the derived status says of the clauses and the findings.
use ghyll.Base.{
  ℤ, subst, sym, ◌+◌, count_if-map, count_if-perm, all-perm, not, ◌<◌, ◌≤ℤ◌, ◌≡◌, ◌≢◌, refl, ◌⊎◌,
  ◌↔◌, ◌&&◌, ◌||◌, List, [], ◌∷◌, map, arith, count_if, All,
}
use mathlib.Core.List.{Perm}
use mathlib.Core.List.Perm
use ghyll.Clause.{ClauseStatus}
use ghyll.Arrow.{
  ArrowStatus, FindingStatus, Finding, ClauseDeriveInput, is_fail, is_unevaluated,
  is_attested_pending, is_pending, is_running, is_pass, is_unevaluated_finding, is_open_blocking,
  derive_arrow_status, derive_normalized, normalize,
}
use ghyll.Arrow.Levels.{
  Level, passes, worse, worst, status_of, clause_level, finding_level, arrow_level,
  derive_normalized-eq,
}

-- With at least one clause, the derived status is the worst of what each clause and each finding
-- says alone, in the order complete, provisional, in-progress, unevaluated, blocked.
pub derive_arrow_status-worst :
    (c : ClauseDeriveInput) (cs : List ClauseDeriveInput) (fs : List Finding) (t : ℤ)
    → (derive_arrow_status (c ∷ cs) fs t).0 ≡ status_of (arrow_level (c ∷ cs) fs t)
unfolding derive_arrow_status
derive_arrow_status-worst c cs fs t = derive_normalized-eq (c ∷ cs) fs t

-- A finding that lets the arrow close.
pub record IsClear (t : ℤ) (f : Finding) : Type 0 where
  pub settled : f.status ≢ FindingStatus.unevaluated
  pub harmless :
      (f.status ≡ FindingStatus.still_open) ⊎ (f.status ≡ FindingStatus.running)
      → ¬ (t ≤ℤ f.severity_rank)

finding_level-IsClear : (t : ℤ) (f : Finding) → (finding_level t f ≡ passes) ↔ IsClear t f
finding_level-IsClear t f = (
  λ e. record { settled = λ u. ground arith; harmless = λ o h. ground arith },
  λ c. ground (arith, c.settled, c.harmless),
)

clause_level-pass :
    (c : ClauseDeriveInput) → (clause_level c ≡ passes) ↔ (c.status ≡ ClauseStatus.pass)
clause_level-pass c = ground arith

worse-passes : (a b : Level) → (worse a b ≡ passes) ↔ ((a ≡ passes) × (b ≡ passes))
worse-passes a b = ground arith

findings-IsClear :
    (t : ℤ) (fs : List Finding) → (worst (map (finding_level t) fs) ≡ passes) ↔ All (IsClear t) fs
findings-IsClear t [] = (λ e. tt, λ e. refl)
findings-IsClear t (f ∷ fs) =
    let w = worse-passes (finding_level t f) (worst (map (finding_level t) fs)) in
    let h = finding_level-IsClear t f in
    let ih = findings-IsClear t fs in
    (λ e. (h.0 (w.0 e).0, ih.0 (w.0 e).1), λ p. w.1 (h.1 p.0, ih.1 p.1))

arrow_level-passes :
    (cs : List ClauseDeriveInput) (fs : List Finding) (t : ℤ)
    → (arrow_level cs fs t ≡ passes)
      ↔ (All (λ c. c.status ≡ ClauseStatus.pass) cs × All (IsClear t) fs)
arrow_level-passes [] fs t =
    (λ e. (tt, (findings-IsClear t fs).0 e), λ p. (findings-IsClear t fs).1 p.1)
arrow_level-passes (c ∷ cs) fs t =
    let w = worse-passes (clause_level c) (arrow_level cs fs t) in
    let h = clause_level-pass c in
    let ih = arrow_level-passes cs fs t in
    (
      λ e. let p = ih.0 (w.0 e).1 in ((h.0 (w.0 e).0, p.0), p.1),
      λ p. w.1 (h.1 p.0.0, ih.1 (p.0.1, p.1)),
    )

status_of-complete : (l : Level) → (status_of l ≡ ArrowStatus.complete) ↔ (l ≡ passes)
status_of-complete l = ground arith

-- An arrow is complete exactly when it has a clause, every clause has passed, no finding is
-- unevaluated, and no finding that is open or running reaches the severity threshold.
pub derive_arrow_status-complete :
    (cs : List ClauseDeriveInput) (fs : List Finding) (t : ℤ)
    → ((derive_arrow_status cs fs t).0 ≡ ArrowStatus.complete)
      ↔ ((cs ≢ []) × All (λ c. c.status ≡ ClauseStatus.pass) cs × All (IsClear t) fs)
unfolding derive_arrow_status
derive_arrow_status-complete [] fs t = (λ e. cc, λ p. absurd (p.0 refl))
derive_arrow_status-complete (c ∷ cs) fs t =
    let e = derive_arrow_status-worst c cs fs t in
    let h = status_of-complete (arrow_level (c ∷ cs) fs t) in
    let g = arrow_level-passes (c ∷ cs) fs t in
    (λ p. let q = g.0 (h.0 (cc e)) in (λ n. cc, q.0, q.1), λ p. cc (e, h.1 (g.1 (p.1, p.2))))

is_fail-normalize : (c : ClauseDeriveInput) → is_fail c.status ≡ is_fail (normalize c).status
unfolding normalize
is_fail-normalize c = ground arith

-- An arrow that has a clause, and a failed clause or a finding that is open or running at or
-- above the threshold, is reported as blocked, with the number of clauses and the
-- number of findings of these kinds.
pub derive_arrow_status-blocked :
    (c : ClauseDeriveInput) (cs : List ClauseDeriveInput) (fs : List Finding) (t : ℤ)
    → 0 < count_if (λ d. is_fail d.status) (c ∷ cs) + count_if (is_open_blocking t) fs
    → derive_arrow_status (c ∷ cs) fs t ≡ (
      ArrowStatus.blocked,
      count_if (λ d. is_fail d.status) (c ∷ cs),
      count_if (is_open_blocking t) fs,
    )
unfolding derive_arrow_status derive_normalized
derive_arrow_status-blocked c cs fs t h =
    let e =
      count_if-map (λ d. is_fail d.status) (λ d. is_fail d.status) normalize is_fail-normalize
        (c ∷ cs) in
    rw (← e) (ground arith)

-- The order in which clauses and findings are listed changes neither the status nor the counts.
pub derive_arrow_status-perm :
    (c d : ClauseDeriveInput) (cs ds : List ClauseDeriveInput) (fs gs : List Finding) (t : ℤ)
    → Perm (c ∷ cs) (d ∷ ds)
    → Perm fs gs
    → derive_arrow_status (c ∷ cs) fs t ≡ derive_arrow_status (d ∷ ds) gs t
unfolding derive_arrow_status derive_normalized
derive_arrow_status-perm c d cs ds fs gs t h k =
    let h' = Perm.map normalize h in
    rw (
      count_if-perm (λ x. is_fail x.status) h',
      count_if-perm (λ x. is_unevaluated x.status) h',
      count_if-perm is_attested_pending h',
      count_if-perm
          (λ x. not (is_attested_pending x) && (is_pending x.status || is_running x.status)) h',
      all-perm (λ x. is_attested_pending x || is_pass x.status) h',
      count_if-perm (is_open_blocking t) k,
      count_if-perm (λ f. is_unevaluated_finding f.status) k,
    )

abbrev pub IsDerivable : ArrowStatus → Type 0
IsDerivable s =
    (s ≢ ArrowStatus.unset)
    × (s ≢ ArrowStatus.invalidated)
    × (s ≢ ArrowStatus.aborted_remediation)
    × ((n : ℤ) → s ≢ ArrowStatus.unknown n)

status_of-IsDerivable : (l : Level) → IsDerivable (status_of l)
status_of-IsDerivable l =
    (λ e. ground arith, λ e. ground arith, λ e. ground arith, λ n e. ground arith)

-- The derived status is never one of those that are set from outside, nor a corrupt one.
pub derive_arrow_status-IsDerivable :
    (cs : List ClauseDeriveInput) (fs : List Finding) (t : ℤ)
    → IsDerivable (derive_arrow_status cs fs t).0
unfolding derive_arrow_status
derive_arrow_status-IsDerivable [] fs t = (λ e. cc, λ e. cc, λ e. cc, λ n e. cc)
derive_arrow_status-IsDerivable (c ∷ cs) fs t =
    subst IsDerivable (sym (derive_normalized-eq (c ∷ cs) fs t))
      (status_of-IsDerivable (arrow_level (c ∷ cs) fs t))

-- ===== src/Remediation/Convergence.antt =====
-- A loop that converged leaves an arrow that `no-open-finding` passes.
use ghyll.Base.{
  ◌≢◌, err, ℕ, ◌+◌, ℤ, String, ◌≡◌, refl, ap, subst, sym, ◌∙◌, Bool, true, false, ◌&&◌, ◌||◌,
  Option, some, List, [], ◌∷◌, arith, Result, ok, pos_part, nat_eq, All, count_if, select, length,
}
use ghyll.Findings.{FindingRecord, FindingsStore, for_arrow, is_known_finding_status}
use ghyll.Findings.Lifecycle.{IsSound}
use ghyll.NoFinding.{is_blocking_finding, clamp_severity, decide_findings}
use ghyll.Remediation.{
  LoopState, run_round, RemediationOutcome, converged, converged_with_unevaluated, escalated_rounds,
  escalated_no_progress, escalated_hook_error, context_cancelled, RemediationConfig, Adversary,
  AdversaryAttack, Ended, open_findings_by_threshold, is_open_at, is_unevaluated, run_from,
  run_remediation_loop, apply_defaults,
}
use ghyll.Remediation.Counting.{
  is_convergence, Fought, counts, Judged, Honest-Judged, run_round-Honest,
}
use ghyll.Remediation.Rounds.{EndsIn, first, first_state, run_rounds-EndsIn}
use ghyll.Remediation.Ending.{rounds_allowed, rounds_allowed-max}

-- The findings of the arrow pass the evaluator exactly if none is counted.
counted :
    (threshold : ℤ) (f : FindingRecord)
    → IsSound f
    → is_blocking_finding threshold f ≡ (is_open_at threshold f || is_unevaluated f)
unfolding is_blocking_finding is_open_at is_unevaluated is_known_finding_status clamp_severity
counted threshold f v = ground (arith, v.known, v.severity_low, v.severity_high)

-- No finding is counted twice.
apart : (threshold : ℤ) (f : FindingRecord) → (is_open_at threshold f && is_unevaluated f) ≡ false
unfolding is_open_at is_unevaluated
apart threshold f = ground arith

count-blocking :
    (threshold : ℤ) (fs : List FindingRecord)
    → All IsSound fs
    → length (select (is_blocking_finding threshold) fs)
      ≡ count_if (is_open_at threshold) fs + count_if is_unevaluated fs
count-blocking threshold [] v = refl
count-blocking threshold (f ∷ fs) (v, vs) =
    ground (arith, counted threshold f v, apart threshold f, count-blocking threshold fs vs)

-- What the evaluator says of an arrow on which the loop counted so many findings.
decided :
    (threshold : ℤ) (fs : List FindingRecord)
    → All IsSound fs
    → (decide_findings threshold fs).pass
      ≡ (nat_eq (count_if (is_open_at threshold) fs) 0 && nat_eq (count_if is_unevaluated fs) 0)
unfolding decide_findings
decided threshold fs v = ground (arith, count-blocking threshold fs v)

ok-injective : {E A : Type 0} (x y : A) → ◌≡◌ {A = Result E A} (ok x) (ok y) → x ≡ y
ok-injective x y h = cc

-- Whether an outcome says that nothing is left.
abbrev pub is_clean : RemediationOutcome → Bool
is_clean converged = true
is_clean _ = false

module _ {W : Type 0} (c : RemediationConfig W) (build : ℕ → W → Option (Adversary W) × W)
    (build_attack : ℕ → W → AdversaryAttack × W) where
  -- The store of an adversary, at the end.
  unfoldable pub StoreAt : W → Adversary W → Type 0
  StoreAt w a =
      (s : FindingsStore) × (a.findings_store w ≡ some s)
      × ((arrow_id : String) → All IsSound (for_arrow s arrow_id))

  -- The adversary and the attack of the round that starts in the given state.
  abbrev pub FoughtIn : ℕ → LoopState W → Type 0
  FoughtIn = Fought c.severity_threshold build build_attack c.context_err

  module _ (round : ℕ) (start : LoopState W) where
    abbrev tally : FoughtIn round start → W → ℕ × ℕ
    tally f w = counts c.severity_threshold build build_attack c.context_err round start f w

    Judged-decided :
        (e : Ended W) (o : RemediationOutcome)
        → Judged c.severity_threshold build build_attack c.context_err round start e
        → is_convergence o ≡ true
        → e.report.outcome ≡ some o
        → (f : FoughtIn round start) × (nat_eq (tally f e.world).0 0 && nat_eq (tally f e.world).1 0
            ≡ is_clean o)
    Judged-decided e converged j k h = let (f, a, b) = j.clean h in (f, ground (arith, a, b))
    Judged-decided e converged_with_unevaluated j k h =
        let (f, a, b) = j.unevaluated h in (f, ground (arith, a, b))
    Judged-decided e escalated_rounds j k h = cc
    Judged-decided e escalated_no_progress j k h = cc
    Judged-decided e escalated_hook_error j k h = cc
    Judged-decided e context_cancelled j k h = cc

    counts-decided :
        (f : FoughtIn round start) (w : W) (s : FindingsStore)
        → f.adversary.findings_store w ≡ some s
        → All IsSound (for_arrow s f.attack.arrow_id)
        → (decide_findings c.severity_threshold (for_arrow s f.attack.arrow_id)).pass
          ≡ (nat_eq (tally f w).0 0 && nat_eq (tally f w).1 0)
    unfolding counts open_findings_by_threshold
    counts-decided f w s at v =
        decided c.severity_threshold (for_arrow s f.attack.arrow_id) v
        ∙ ap
            (λ o.
              let n = open_findings_by_threshold o f.attack.arrow_id c.severity_threshold in
              nat_eq n.0 0 && nat_eq n.1 0)
            (sym at)

    round-Judged :
        (e : Ended W)
        → run_round W (apply_defaults W c) build build_attack round start ≡ err e
        → Judged c.severity_threshold build build_attack c.context_err round start e
    unfolding apply_defaults
    round-Judged e h =
        Honest-Judged c.severity_threshold build build_attack c.context_err round start
          (run_round W (apply_defaults W c) build build_attack round start) e
          (run_round-Honest c.severity_threshold build build_attack c.context_err round start
            (apply_defaults W c) refl refl refl)
          h

  converging :
      (x : Option RemediationOutcome) (o : RemediationOutcome)
      → is_convergence o ≡ true
      → x ≡ some o
      → x ≢ some escalated_rounds
  converging x o k h e = absurd (ground (arith, k, h, e))

  loop-EndsIn :
      (w : W) (e : Ended W) (o : RemediationOutcome)
      → c.adversary_builder ≡ some build
      → c.attack_builder ≡ some build_attack
      → run_remediation_loop W c w ≡ ok e
      → is_convergence o ≡ true
      → e.report.outcome ≡ some o
      → EndsIn (apply_defaults W c) build build_attack w (rounds_allowed c) e
  unfolding run_remediation_loop run_from
  loop-EndsIn w e o b ba h k x =
      let c' = apply_defaults W c in
      let ran : run_remediation_loop W c w ≡ ok (run_from W c build build_attack w) =
        rw (b, ba) refl in
      let same : run_from W c build build_attack w ≡ e = ok-injective _ _ (sym ran ∙ h) in
      let other = converging e.report.outcome o k x in
      let ends =
        run_rounds-EndsIn c' build build_attack w (pos_part c'.rounds_max) (pos_part c'.rounds_max)
          0 (first_state c' build build_attack w) (omega arith) first
          (λ r. other (ap (λ z. z.report.outcome) (sym same) ∙ r)) in
      subst (λ m. EndsIn c' build build_attack w m e) (rounds_allowed-max c)
        (subst (EndsIn c' build build_attack w (pos_part c'.rounds_max)) same ends)

  -- Where each adversary that is built has, when the loop has ended, a store of findings with known
  -- statuses and severities from 0 to 4: if the loop says that it converged, or that only
  -- unevaluated findings are left, then the run comes to a round within its bound and ends in it;
  -- and with the attack and the adversary that the builders gave in this round, called in the worlds
  -- that the run had come to, the evaluator of `no-open-finding`, at the loop's threshold, passes the
  -- attacked arrow in the first case and fails it in the second.
  pub run_remediation_loop-decided :
      (w : W) (e : Ended W) (o : RemediationOutcome)
      → c.adversary_builder ≡ some build
      → c.attack_builder ≡ some build_attack
      → run_remediation_loop W c w ≡ ok e
      → ((round : ℕ) (v : W) (a : Adversary W) → (build round v).0 ≡ some a → StoreAt e.world a)
      → is_convergence o ≡ true
      → e.report.outcome ≡ some o
      → (l : EndsIn (apply_defaults W c) build build_attack w (rounds_allowed c) e) × (f : FoughtIn
          l.round l.state)
        × (s : FindingsStore) × (f.adversary.findings_store e.world ≡ some s)
        × ((decide_findings c.severity_threshold (for_arrow s f.attack.arrow_id)).pass ≡ is_clean o)
  unfolding StoreAt
  run_remediation_loop-decided w e o b ba h stores k x =
      let l = loop-EndsIn w e o b ba h k x in
      let (f, judged) =
        Judged-decided l.round l.state e o (round-Judged l.round l.state e l.ends) k x in
      let (s, at, sound) = stores l.round f.aimed_world f.adversary (ap (λ y. y.0) f.built) in
      (
        l,
        f,
        s,
        at,
        counts-decided l.round l.state f e.world s at (sound f.attack.arrow_id) ∙ judged,
      )

-- ===== src/Remediation/Ending.antt =====
-- The loop ends: within its rounds, with an outcome, and with an error only under one of them.
use ghyll.Base.{
  ℕ, zero, suc, ◌+◌, ◌≤◌, pos, String, ◌≡◌, refl, ap, subst, ◌∙◌, inl, inr, true, false, Option,
  none, some, [], ◌∷◌, arith, ok, err, ◌>>=◌, length, Bool, Option-cases, not, nat_eq, ltb, ◌&&◌,
  int_ltb, pos_part, int_leb, if◌then◌else◌, length-append,
}
use ghyll.Remediation.{
  RemediationOutcome, converged, converged_with_unevaluated, escalated_rounds,
  escalated_no_progress, escalated_hook_error, context_cancelled, AttackAnswer, attacked,
  attack_failed, RemediationConfig, Adversary, AdversaryAttack, LoopState, Ended, Part, FixAnswer,
  end_with, after_round, note_missing, new_report, cancel_on, take_answer, name_arrow,
  take_adversary, judge, count_fix, weigh_fix, mend, fight, open_findings_by_threshold,
  open_findings_snapshot, is_failed, run_round, run_rounds, run_from, run_remediation_loop,
  apply_defaults, default_rounds_max,
}

some-outcome :
    (o p : RemediationOutcome) → ◌≡◌ {A = Option RemediationOutcome} (some o) (some p) → o ≡ p
some-outcome o p h = cc

module _ {W : Type 0} where
  -- What holds of each end of the loop that started at most `n` rounds.
  pub record Settled (n : ℕ) (e : Ended W) : Type 0 where
    pub decided : (o : RemediationOutcome) × (e.report.outcome ≡ some o)
    pub bounded : e.report.rounds_executed ≤ n
    pub reported : e.report.rounds_executed ≤ length e.report.reports
    pub reported_once : length e.report.reports ≤ e.report.rounds_executed + 1
    pub exhausted : e.report.outcome ≡ some escalated_rounds → e.report.rounds_executed ≡ n
    pub cancelled : (x : String) → e.failed ≡ some x → e.report.outcome ≡ some context_cancelled
    pub explained : e.report.outcome ≡ some context_cancelled → (x : String) × (e.failed ≡ some x)

  -- What holds of the state between two parts of the body, after `n` attacks.
  record Running (n : ℕ) (s : LoopState W) : Type 0 where
    executed : s.report.rounds_executed ≡ n
    kept : length s.report.reports ≡ n

  -- A part goes on with `n` attacks, or ends with at most as many.
  abbrev Goes : ℕ → ℕ → Part W (LoopState W) → Type 0
  Goes m n (ok s) = Running n s
  Goes m n (err e) = Settled m e

  if-Goes :
      (m n : ℕ) (b : Bool) (p q : Part W (LoopState W))
      → Goes m n p
      → Goes m n q
      → Goes m n (if b then p else q)
  if-Goes m n true p q x y = x
  if-Goes m n false p q x y = y

  module _ (m n : ℕ) (within : n ≤ m) where
    end_with-Settled :
        (s : LoopState W) (o : RemediationOutcome) (f : Option String)
        → Running n s
        → (o ≡ escalated_rounds → n ≡ m)
        → ((x : String) → f ≡ some x → o ≡ context_cancelled)
        → (o ≡ context_cancelled → (x : String) × (f ≡ some x))
        → Settled m (end_with W s o f)
    unfolding end_with
    end_with-Settled s o f r full cancel explain = record {
      decided = (o, refl);
      bounded = omega (arith, r.executed);
      reported = omega (arith, r.executed, r.kept);
      reported_once = omega (arith, r.executed, r.kept);
      exhausted = λ h. r.executed ∙ full (some-outcome o escalated_rounds h);
      cancelled = λ x h. ap some (cancel x h);
      explained = λ h. explain (some-outcome o context_cancelled h);
    }

    -- An end that is neither of rounds nor by cancelling.
    plain-Settled :
        (s : LoopState W) (o : RemediationOutcome)
        → Running n s
        → (o ≡ escalated_rounds → ⊥)
        → (o ≡ context_cancelled → ⊥)
        → Settled m (end_with W s o none)
    plain-Settled s o r other going =
        end_with-Settled s o none r (λ e. absurd (other e)) (λ x h. absurd (ground (arith, h)))
          (λ e. absurd (going e))

    cancel_on-Goes :
        (s : LoopState W) (x : Option String × W) → Running n s → Goes m n (cancel_on W s x)
    unfolding cancel_on
    cancel_on-Goes s (none, w) r = record { executed = r.executed; kept = r.kept }
    cancel_on-Goes s (some e, w) r =
        end_with-Settled (record s { world = w }) context_cancelled (some e)
          (record { executed = r.executed; kept = r.kept }) (λ h. cc) (λ x h. refl) (λ h. (e, refl))

    take_answer-Goes :
        suc n ≤ m
        → (round : ℕ) (s : LoopState W) (x : AttackAnswer × W) → Running n s
        → Goes m (suc n) (take_answer W round s x)
    unfolding take_answer end_with
    take_answer-Goes more round s (attacked a, w) r = record {
      executed = omega (arith, r.executed);
      kept = length-append s.report.reports (a ∷ []) ∙ omega (arith, r.kept);
    }
    take_answer-Goes more round s (attack_failed e (some a), w) r =
        let longer = length-append s.report.reports (a ∷ []) in
        record {
          decided = (context_cancelled, refl);
          bounded = omega (arith, r.executed);
          reported = omega (arith, r.executed, r.kept, longer);
          reported_once = omega (arith, r.executed, r.kept, longer);
          exhausted = λ h. cc;
          cancelled = λ x h. refl;
          explained = λ h. (e, refl);
        }
    take_answer-Goes more round s (attack_failed e none, w) r =
        end_with-Settled (record s { world = w }) context_cancelled (some e)
          (record { executed = r.executed; kept = r.kept }) (λ h. cc) (λ x h. refl) (λ h. (e, refl))

    judge-Goes :
        (c : RemediationConfig W) (a : Adversary W) (attack : AdversaryAttack) (s : LoopState W)
        → Running n s
        → Goes m n (judge W c a attack s)
    unfolding judge
    judge-Goes c a attack s r =
        let counts =
          open_findings_by_threshold (a.findings_store s.world) attack.arrow_id
            c.severity_threshold in
        if-Goes m n (not (nat_eq counts.0 0)) (ok s)
          (if ltb 0 counts.1 && c.count_unevaluated_as_open
            then err (end_with W s converged_with_unevaluated none)
            else err (end_with W s converged none))
          r
          (if-Goes m n (ltb 0 counts.1 && c.count_unevaluated_as_open)
            (err (end_with W s converged_with_unevaluated none)) (err (end_with W s converged none))
            (plain-Settled s converged_with_unevaluated r (λ h. cc) (λ h. cc))
            (plain-Settled s converged r (λ h. cc) (λ h. cc)))

    count_fix-Running :
        (round : ℕ) (s : LoopState W) (x : FixAnswer × W)
        → Running n s
        → Running n (count_fix W round s x)
    unfolding count_fix
    count_fix-Running round s (answer, w) r = elim (Option-cases answer.failed) [
      | inl e ↦ rw e (record { executed = r.executed; kept = r.kept })
      | inr (x, e) ↦ rw e (record { executed = r.executed; kept = r.kept })
    ]

    weigh_fix-Goes :
        (c : RemediationConfig W) (answer : FixAnswer) (s : LoopState W)
        → Running n s
        → Goes m n (weigh_fix W c answer s)
    unfolding weigh_fix
    weigh_fix-Goes c answer s r =
        let spent =
          is_failed W answer
          && int_ltb (pos 0) c.max_fix_errors
          && int_leb c.max_fix_errors (pos s.consecutive_fix_errors) in
        let later : Part W (LoopState W) =
          if not answer.made_progress
          then err (end_with W s escalated_no_progress none)
          else ok s in
        if-Goes m n spent (err (end_with W s escalated_hook_error none)) later
          (plain-Settled s escalated_hook_error r (λ h. cc) (λ h. cc))
          (if-Goes m n (not answer.made_progress) (err (end_with W s escalated_no_progress none))
            (ok s) (plain-Settled s escalated_no_progress r (λ h. cc) (λ h. cc)) r)

    mend-Goes :
        (c : RemediationConfig W) (a : Adversary W) (attack : AdversaryAttack) (round : ℕ)
        (s : LoopState W)
        → Running n s
        → Goes m n (mend W c a attack round s)
    unfolding mend
    mend-Goes c a attack round s r = elim (Option-cases c.fix_attempt) [
      | inl e ↦ rw e (plain-Settled s escalated_no_progress r (λ h. cc) (λ h. cc))
      | inr (fix, e) ↦
          let turn =
            fix
              (open_findings_snapshot (a.findings_store s.world) attack.arrow_id
                c.severity_threshold)
              s.world in
          rw e
            (weigh_fix-Goes c turn.0 (count_fix W round s turn) (count_fix-Running round s turn r))
    ]

  -- A part, then the rest.
  >>=-Goes :
      (m n k : ℕ) (p : Part W (LoopState W)) (f : LoopState W → Part W (LoopState W))
      → Goes m n p
      → ((s : LoopState W) → Running n s → Goes m k (f s))
      → Goes m k (p >>= f)
  >>=-Goes m n k (ok s) f g h = h s g
  >>=-Goes m n k (err e) f g h = g

  module _ (m : ℕ) (c : RemediationConfig W) (build : ℕ → W → Option (Adversary W) × W)
      (build_attack : ℕ → W → AdversaryAttack × W) where
    fight-Goes :
        (n round : ℕ) (attack : AdversaryAttack) (a : Adversary W) (s : LoopState W)
        → suc n ≤ m
        → Running n s
        → Goes m (suc n) (fight W c build build_attack round attack a s)
    unfolding fight
    fight-Goes n round attack a s more r =
        >>=-Goes m (suc n) (suc n) (take_answer W round s (a.attack attack s.world)) _
          (take_answer-Goes m n (omega arith) more round s (a.attack attack s.world) r)
          (λ s1 r1.
            >>=-Goes m (suc n) (suc n) (cancel_on W s1 (c.context_err s1.world)) _
              (cancel_on-Goes m (suc n) more s1 (c.context_err s1.world) r1)
              (λ s2 r2.
                >>=-Goes m (suc n) (suc n) (judge W c a attack s2) _
                  (judge-Goes m (suc n) more c a attack s2 r2)
                  (λ s3 r3.
                    >>=-Goes m (suc n) (suc n) (mend W c a attack round s3) _
                      (mend-Goes m (suc n) more c a attack round s3 r3)
                      (λ s4 r4. cancel_on-Goes m (suc n) more s4 (c.context_err s4.world) r4))))

    name_arrow-Running :
        (n : ℕ) (s : LoopState W) (x : AdversaryAttack × W)
        → Running n s
        → Running n (name_arrow W s x)
    unfolding name_arrow
    name_arrow-Running n s (attack, w) r = record { executed = r.executed; kept = r.kept }

    take_adversary-Goes :
        (n round : ℕ) (attack : AdversaryAttack) (s : LoopState W) (x : Option (Adversary W) × W)
        → suc n ≤ m
        → Running n s
        → Goes m
            (suc n)
            (take_adversary W round s x >>= λ p. fight W c build build_attack round attack p.0 p.1)
    unfolding take_adversary
    take_adversary-Goes n round attack s (some a, w) more r =
        fight-Goes n round attack a (record s { world = w }) more
          (record { executed = r.executed; kept = r.kept })
    take_adversary-Goes n round attack s (none, w) more r =
        plain-Settled m n (omega arith) (note_missing W round s w) escalated_hook_error
          (record { executed = r.executed; kept = r.kept }) (λ h. cc) (λ h. cc)

    run_round-Goes :
        (n round : ℕ) (s : LoopState W)
        → suc n ≤ m
        → Running n s
        → Goes m (suc n) (run_round W c build build_attack round s)
    unfolding run_round
    run_round-Goes n round s more r =
        >>=-Goes m n (suc n) (cancel_on W s (c.context_err s.world)) _
          (cancel_on-Goes m n (omega arith) s (c.context_err s.world) r)
          (λ s1 r1.
            let aimed = build_attack round s1.world in
            let s2 = name_arrow W s1 aimed in
            take_adversary-Goes n round aimed.0 s2 (build round s2.world) more
              (name_arrow-Running n s1 aimed r1))

    after_round-Settled :
        (n : ℕ) (p : Part W (LoopState W)) (next : LoopState W → Ended W)
        → Goes m (suc n) p
        → ((s : LoopState W) → Running (suc n) s → Settled m (next s))
        → Settled m (after_round W p next)
    after_round-Settled n (ok s) next g h = h s g
    after_round-Settled n (err e) next g h = g

    run_rounds-Settled :
        (left n : ℕ) (s : LoopState W)
        → n + left ≡ m
        → Running n s
        → Settled m (run_rounds W c build build_attack left n s)
    unfolding run_rounds
    run_rounds-Settled zero n s e r =
        end_with-Settled m n (omega arith) s escalated_rounds none r (λ h. omega arith)
          (λ x h. absurd (ground (arith, h))) (λ h. cc)
    run_rounds-Settled (suc left) n s e r =
        after_round-Settled n (run_round W c build build_attack n s)
          (λ s'. run_rounds W c build build_attack left (suc n) s')
          (run_round-Goes n n s (omega arith) r)
          (λ s' r'. run_rounds-Settled left (suc n) s' (omega arith) r')

  -- The rounds that a configuration allows.
  pub rounds_allowed : RemediationConfig W → ℕ
  rounds_allowed c =
      if int_leb c.rounds_max (pos 0) then default_rounds_max else pos_part c.rounds_max

  pub rounds_allowed-max :
      (c : RemediationConfig W) → pos_part (apply_defaults W c).rounds_max ≡ rounds_allowed c
  unfolding apply_defaults rounds_allowed
  rounds_allowed-max c = ground arith

  -- With its two builders, and whatever they, the attacks, the fixes and the context do, the loop
  -- ends: with an outcome; after at most as many attacks that succeeded as `RoundsMax` allows, or
  -- five where that is not positive, and exactly as many if it ran out of rounds; with a report for
  -- each of them, and at most one more; and with an error exactly if the outcome is
  -- `context-cancelled`.
  pub run_remediation_loop-Settled :
      (c : RemediationConfig W) (build : ℕ → W → Option (Adversary W) × W)
      (build_attack : ℕ → W → AdversaryAttack × W) (w : W)
      → c.adversary_builder ≡ some build
      → c.attack_builder ≡ some build_attack
      → (e : Ended W) × (run_remediation_loop W c w ≡ ok e) × Settled (rounds_allowed c) e
  unfolding run_remediation_loop run_from
  run_remediation_loop-Settled c build build_attack w b ba = (
    run_from W c build build_attack w,
    rw (b, ba) refl,
    subst (λ m. Settled m (run_from W c build build_attack w)) (rounds_allowed-max c)
        (run_rounds-Settled (pos_part (apply_defaults W c).rounds_max) (apply_defaults W c) build
          build_attack (pos_part (apply_defaults W c).rounds_max) 0
          (record { report = new_report; consecutive_fix_errors = 0; world = w }) (omega arith)
          (record { executed = refl; kept = refl })),
  )

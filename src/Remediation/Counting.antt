-- ===== src/Remediation/Counting.antt =====
-- What a round that ends the loop has counted.
use ghyll.Base.{
  subst, ◌∙◌, ℕ, ◌<◌, ℤ, pos, String, ◌≡◌, refl, ap, sym, inl, inr, Bool, true, false, ◌&&◌, not,
  Option, none, some, arith, ok, err, ◌>>=◌, Option-cases, int_leb, int_ltb, nat_eq, ltb,
  if◌then◌else◌,
}
use ghyll.Remediation.{
  RemediationOutcome, converged, converged_with_unevaluated, escalated_no_progress,
  escalated_hook_error, context_cancelled, AttackAnswer, attacked, attack_failed, RemediationConfig,
  Adversary, AdversaryAttack, LoopState, Ended, Part, FixAnswer, end_with, note_missing, cancel_on,
  take_answer, name_arrow, take_adversary, judge, count_fix, weigh_fix, mend, fight,
  open_findings_by_threshold, open_findings_snapshot, is_failed, run_round,
}

-- The outcomes that a round's count leads to.
abbrev pub is_convergence : RemediationOutcome → Bool
is_convergence converged = true
is_convergence converged_with_unevaluated = true
is_convergence _ = false

-- A round that starts in the state `start`: the context is not cancelled, and both builders are
-- called in turn, each in the world that the call before leaves.
module _ {W : Type 0} (threshold : ℤ) (build : ℕ → W → Option (Adversary W) × W)
    (build_attack : ℕ → W → AdversaryAttack × W) (context_err : W → Option String × W) (round : ℕ)
    (start : LoopState W) where
  -- The adversary and the attack of the round.
  pub record Fought : Type 0 where
    pub adversary : Adversary W
    pub attack : AdversaryAttack
    pub checked_world : W
    pub checked : context_err start.world ≡ (none, checked_world)
    pub aimed_world : W
    pub aimed : build_attack round checked_world ≡ (attack, aimed_world)
    pub built_world : W
    pub built : build round aimed_world ≡ (some adversary, built_world)

  -- The open and the unevaluated findings that the adversary's store has on the attacked arrow.
  unfoldable pub counts : Fought → W → ℕ × ℕ
  counts f w = open_findings_by_threshold (f.adversary.findings_store w) f.attack.arrow_id threshold

  -- An end that claims to have converged has counted nothing.
  pub record Judged (e : Ended W) : Type 0 where
    pub clean :
        e.report.outcome ≡ some converged
        → (f : Fought) × ((counts f e.world).0 ≡ 0) × ((counts f e.world).1 ≡ 0)
    pub unevaluated :
        e.report.outcome ≡ some converged_with_unevaluated
        → (f : Fought) × ((counts f e.world).0 ≡ 0) × (0 < (counts f e.world).1)

  abbrev pub Honest : Part W (LoopState W) → Type 0
  Honest (ok s) = Unit
  Honest (err e) = Judged e

  escalated-Judged :
      (s : LoopState W) (o : RemediationOutcome) (x : Option String)
      → is_convergence o ≡ false
      → Judged (end_with W s o x)
  unfolding end_with
  escalated-Judged s o x h = record {
    clean = λ e. absurd (ground (arith, h, e));
    unevaluated = λ e. absurd (ground (arith, h, e));
  }

  cancel_on-Honest : (s : LoopState W) (x : Option String × W) → Honest (cancel_on W s x)
  unfolding cancel_on
  cancel_on-Honest s (none, w) = tt
  cancel_on-Honest s (some e, w) =
      escalated-Judged (record s { world = w }) context_cancelled (some e) refl

  take_answer-Honest : (s : LoopState W) (x : AttackAnswer × W) → Honest (take_answer W round s x)
  unfolding take_answer end_with
  take_answer-Honest s (attacked a, w) = tt
  take_answer-Honest s (attack_failed e (some a), w) = record {
    clean = λ h. cc;
    unevaluated = λ h. cc;
  }
  take_answer-Honest s (attack_failed e none, w) =
      escalated-Judged (record s { world = w }) context_cancelled (some e) refl

  if-Honest :
      (b : Bool) (p q : Part W (LoopState W))
      → (b ≡ true → Honest p)
      → (b ≡ false → Honest q)
      → Honest (if b then p else q)
  if-Honest true p q x y = x refl
  if-Honest false p q x y = y refl

  judge-Honest :
      (c : RemediationConfig W) (f : Fought) (s : LoopState W)
      → c.severity_threshold ≡ threshold
      → c.count_unevaluated_as_open ≡ true
      → Honest (judge W c f.adversary f.attack s)
  unfolding judge counts end_with
  judge-Honest c f s e u =
      let cs =
        open_findings_by_threshold (f.adversary.findings_store s.world) f.attack.arrow_id
          c.severity_threshold in
      let same : counts f s.world ≡ cs =
        ap (open_findings_by_threshold (f.adversary.findings_store s.world) f.attack.arrow_id)
          (sym e) in
      if-Honest (not (nat_eq cs.0 0)) (ok s)
        (if ltb 0 cs.1 && c.count_unevaluated_as_open
          then err (end_with W s converged_with_unevaluated none)
          else err (end_with W s converged none))
        (λ h. tt)
        (λ h.
          let none_open : (counts f s.world).0 ≡ 0 = ground (arith, same, h) in
          if-Honest (ltb 0 cs.1 && c.count_unevaluated_as_open)
            (err (end_with W s converged_with_unevaluated none)) (err (end_with W s converged none))
            (λ some_left. record {
              clean = λ x. cc;
              unevaluated = λ x. (f, none_open, ground (arith, same, some_left, u));
            })
            (λ none_left. record {
              clean = λ x. (f, none_open, ground (arith, same, none_left, u));
              unevaluated = λ x. cc;
            }))

  weigh_fix-Honest :
      (c : RemediationConfig W) (answer : FixAnswer) (s : LoopState W)
      → Honest (weigh_fix W c answer s)
  unfolding weigh_fix
  weigh_fix-Honest c answer s =
      if-Honest
        (is_failed W answer
          && int_ltb (pos 0) c.max_fix_errors
          && int_leb c.max_fix_errors (pos s.consecutive_fix_errors))
        (err (end_with W s escalated_hook_error none))
        (if not answer.made_progress then err (end_with W s escalated_no_progress none) else ok s)
        (λ h. escalated-Judged s escalated_hook_error none refl)
        (λ h.
          if-Honest (not answer.made_progress) (err (end_with W s escalated_no_progress none))
            (ok s) (λ k. escalated-Judged s escalated_no_progress none refl) (λ k. tt))

  mend-Honest :
      (c : RemediationConfig W) (a : Adversary W) (attack : AdversaryAttack) (s : LoopState W)
      → Honest (mend W c a attack round s)
  unfolding mend
  mend-Honest c a attack s = elim (Option-cases c.fix_attempt) [
    | inl e ↦ rw e (escalated-Judged s escalated_no_progress none refl)
    | inr (fix, e) ↦
        let turn =
          fix
            (open_findings_snapshot (a.findings_store s.world) attack.arrow_id c.severity_threshold)
            s.world in
        rw e (weigh_fix-Honest c turn.0 (count_fix W round s turn))
  ]

  >>=-Honest :
      (p : Part W (LoopState W)) (f : LoopState W → Part W (LoopState W))
      → Honest p
      → ((s : LoopState W) → Honest (f s))
      → Honest (p >>= f)
  >>=-Honest (ok s) f g h = h s
  >>=-Honest (err e) f g h = g

  module _ (c : RemediationConfig W) (e : c.severity_threshold ≡ threshold)
      (u : c.count_unevaluated_as_open ≡ true) (x : c.context_err ≡ context_err) where
    fight-Honest :
        (f : Fought) (s : LoopState W)
        → Honest (fight W c build build_attack round f.attack f.adversary s)
    unfolding fight
    fight-Honest f s =
        >>=-Honest (take_answer W round s (f.adversary.attack f.attack s.world)) _
          (take_answer-Honest s (f.adversary.attack f.attack s.world))
          (λ s1.
            >>=-Honest (cancel_on W s1 (c.context_err s1.world)) _
              (cancel_on-Honest s1 (c.context_err s1.world))
              (λ s2.
                >>=-Honest (judge W c f.adversary f.attack s2) _ (judge-Honest c f s2 e u) (λ s3.
                  >>=-Honest (mend W c f.adversary f.attack round s3) _
                    (mend-Honest c f.adversary f.attack s3)
                    (λ s4. cancel_on-Honest s4 (c.context_err s4.world)))))

    take_adversary-Honest :
        (before : W)
        → context_err start.world ≡ (none, before)
        → (s : LoopState W) (y : Option (Adversary W) × W) → s.world ≡ (build_attack round before).1
        → build round s.world ≡ y
        → Honest (
            take_adversary W round s y >>= λ p.
            fight W c build build_attack round (build_attack round before).0 p.0 p.1)
    unfolding take_adversary
    take_adversary-Honest before checked s (some a, w) at b =
        fight-Honest
          (record {
            adversary = a;
            attack = (build_attack round before).0;
            checked_world = before;
            checked = checked;
            aimed_world = (build_attack round before).1;
            aimed = refl;
            built_world = w;
            built = ap (build round) (sym at) ∙ b;
          })
          (record s { world = w })
    take_adversary-Honest before checked s (none, w) at b =
        escalated-Judged (note_missing W round s w) escalated_hook_error none refl

    checked-Honest :
        (y : Option String × W)
        → c.context_err start.world ≡ y
        → Honest (
            cancel_on W start y >>= λ s1.
            let aimed = build_attack round s1.world in
            let s2 = name_arrow W s1 aimed in
            take_adversary W round s2 (build round s2.world) >>= λ p.
            fight W c build build_attack round aimed.0 p.0 p.1)
    unfolding cancel_on name_arrow
    checked-Honest (some m, w) h =
        escalated-Judged (record start { world = w }) context_cancelled (some m) refl
    checked-Honest (none, w) h =
        take_adversary-Honest w (ap (λ k. k start.world) (sym x) ∙ h)
          (name_arrow W (record start { world = w }) (build_attack round w)) _ refl refl

    pub run_round-Honest : Honest (run_round W c build build_attack round start)
    unfolding run_round
    run_round-Honest = checked-Honest (c.context_err start.world) refl

  pub Honest-Judged : (p : Part W (LoopState W)) (e : Ended W) → Honest p → p ≡ err e → Judged e
  Honest-Judged p e h same = subst Honest same h

-- ===== src/Remediation/Rounds.antt =====
-- The states in which the rounds of a run of the loop start.
use ghyll.Base.{ℕ, zero, suc, ◌+◌, ◌<◌, ◌≡◌, ◌≢◌, refl, Option, some, arith, ok, err}
use ghyll.Remediation.{
  escalated_rounds, RemediationConfig, Adversary, AdversaryAttack, LoopState, Ended, Part, end_with,
  after_round, new_report, run_round, run_rounds,
}

module _ {W : Type 0} (c : RemediationConfig W) (build : ℕ → W → Option (Adversary W) × W)
    (build_attack : ℕ → W → AdversaryAttack × W) where
  -- The state of a new loop.
  abbrev pub first_state : W → LoopState W
  first_state w = record { report = new_report; consecutive_fix_errors = 0; world = w }

  -- The run in the world `w` comes to the round `n` in the state `s`.
  pub data Reached (w : W) : ℕ → LoopState W → Type 0 where
    first : Reached w 0 (first_state w)
    later :
        {n : ℕ} {s s' : LoopState W}
        → Reached w n s
        → run_round W c build build_attack n s ≡ ok s'
        → Reached w (suc n) s'

  -- A round that ends the run with `e`, among the first `m`.
  pub record EndsIn (w : W) (m : ℕ) (e : Ended W) : Type 0 where
    pub round : ℕ
    pub state : LoopState W
    pub reached : Reached w round state
    pub within : round < m
    pub ends : run_round W c build build_attack round state ≡ err e

  after_round-EndsIn :
      (w : W) (m n : ℕ) (s : LoopState W) (p : Part W (LoopState W)) (next : LoopState W → Ended W)
      → Reached w n s
      → n < m
      → run_round W c build build_attack n s ≡ p
      → ((s' : LoopState W)
          → Reached w (suc n) s'
          → (next s').report.outcome ≢ some escalated_rounds
          → EndsIn w m (next s'))
      → (after_round W p next).report.outcome ≢ some escalated_rounds
      → EndsIn w m (after_round W p next)
  after_round-EndsIn w m n s (ok s') next r within e rest other = rest s' (later r e) other
  after_round-EndsIn w m n s (err ended) next r within e rest other = record {
    round = n;
    state = s;
    reached = r;
    within = within;
    ends = e;
  }

  -- A run that does not run out of rounds ends in one of them.
  pub run_rounds-EndsIn :
      (w : W) (m left n : ℕ) (s : LoopState W)
      → n + left ≡ m
      → Reached w n s
      → (run_rounds W c build build_attack left n s).report.outcome ≢ some escalated_rounds
      → EndsIn w m (run_rounds W c build build_attack left n s)
  unfolding run_rounds end_with
  run_rounds-EndsIn w m zero n s e r other = absurd (other refl)
  run_rounds-EndsIn w m (suc left) n s e r other =
      after_round-EndsIn w m n s (run_round W c build build_attack n s)
        (λ s'. run_rounds W c build build_attack left (suc n) s') r (omega arith) refl
        (λ s' r'. run_rounds-EndsIn w m left (suc n) s' (omega arith) r') other

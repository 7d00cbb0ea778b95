-- ===== src/Remediation.antt =====
-- runner/remediation.go: the loop in which an adversary attacks an arrow and the producer mends it.
-- The callbacks, the attacks and the context are parameters: each is a function on the world, the
-- state of all that the loop does not own.
pub mod Ending
pub mod Rounds
pub mod Counting
pub mod Convergence
pub mod AutoInsert
mod Examples
use ghyll.Base.{
  ℕ, zero, suc, ◌+◌, ℤ, pos, String, Bool, true, false, ◌&&◌, ◌||◌, not, Option, none, some, List,
  [], ◌∷◌, ◌++◌, map, ◌==◌, string_key, int_leb, int_ltb, int_eq, nat_eq, ltb, length, select,
  count_if, if◌then◌else◌, Result, ok, err, ◌>>=◌, ◌>>◌, pos_part,
}
use ghyll.Arrow.{FindingStatus}
use ghyll.Findings.{FindingRecord, FindingsStore, for_arrow}

-- `RemediationOutcome`
pub data RemediationOutcome : Type 0 where
  converged converged_with_unevaluated escalated_rounds : RemediationOutcome
  escalated_no_progress escalated_hook_error context_cancelled : RemediationOutcome

-- `AttackReport`, as far as the loop reads it.
pub record AttackReport : Type 0 where
  pub harness_errors : List String

-- What `Adversary.Attack` answers.
pub data AttackAnswer : Type 0 where
  attacked : AttackReport → AttackAnswer
  attack_failed : String → Option AttackReport → AttackAnswer

-- `AdversaryAttack`, as far as the loop reads it.
pub record AdversaryAttack : Type 0 where
  pub arrow_id : String

-- What a fix attempt answers.
pub record FixAnswer : Type 0 where
  pub made_progress : Bool
  pub failed : Option String

-- An entry of `HarnessErrors`, with its round.
pub data HarnessError : Type 0 where
  in_attack : ℕ → String → HarnessError
  no_adversary : ℕ → HarnessError
  in_fix : ℕ → String → HarnessError

-- `RemediationReport`; no outcome is the empty text.
pub record RemediationReport : Type 0 where
  pub arrow_id : String
  pub outcome : Option RemediationOutcome
  pub rounds_executed : ℕ
  pub reports : List AttackReport
  pub harness_errors : List HarnessError

-- The two errors of a configuration that cannot run.
pub data ConfigError : Type 0 where
  adversary_builder_required attack_builder_required : ConfigError

-- `if f == nil { return nil, err }`
abbrev pub required : {A : Type 0} → Option A → ConfigError → Result ConfigError A
required none e = err e
required (some a) e = ok a

abbrev pub default_rounds_max : ℕ
default_rounds_max = 5

abbrev pub default_max_fix_errors : ℤ
default_max_fix_errors = pos 2

-- Findings that are open or running, at or above the threshold.
unfoldable pub is_open_at : ℤ → FindingRecord → Bool
is_open_at threshold f = elim f.status [
  | FindingStatus.still_open ↦ int_leb threshold f.severity
  | FindingStatus.running ↦ int_leb threshold f.severity
  | _ ↦ false
]

unfoldable pub is_unevaluated : FindingRecord → Bool
is_unevaluated f = elim f.status [ FindingStatus.unevaluated ↦ true | _ ↦ false ]

-- `openFindingsByThreshold`
unfoldable pub open_findings_by_threshold : Option FindingsStore → String → ℤ → ℕ × ℕ
unfolding is_open_at is_unevaluated
open_findings_by_threshold none arrow_id threshold = (0, 0)
open_findings_by_threshold (some s) arrow_id threshold =
    let fs = for_arrow s arrow_id in
    (count_if (is_open_at threshold) fs, count_if is_unevaluated fs)

-- `openFindingsSnapshot`
unfoldable pub open_findings_snapshot : Option FindingsStore → String → ℤ → List FindingRecord
unfolding is_open_at
open_findings_snapshot none arrow_id threshold = []
open_findings_snapshot (some s) arrow_id threshold =
    select (is_open_at threshold) (for_arrow s arrow_id)

-- `appendPrefixed`
unfoldable pub append_prefixed : List HarnessError → List String → ℕ → List HarnessError
append_prefixed dst errs round = dst ++ map (in_attack round) errs

abbrev pub new_report : RemediationReport
new_report = record {
  arrow_id = "";
  outcome = none;
  rounds_executed = 0;
  reports = [];
  harness_errors = [];
}

module _ (W : Type 0) where
  -- `Adversary`: its attack, and the store that it points to.
  pub record Adversary : Type 0 where
    pub attack : AdversaryAttack → W → AttackAnswer × W
    pub findings_store : W → Option FindingsStore

  -- `RemediationConfig`, with the context's `Err`; a callback that is nil is `none`.
  pub record RemediationConfig : Type 0 where
    pub rounds_max : ℤ
    pub max_fix_errors : ℤ
    pub severity_threshold : ℤ
    pub count_unevaluated_as_open : Bool
    pub fix_attempt : Option (List FindingRecord → W → FixAnswer × W)
    pub adversary_builder : Option (ℕ → W → Option Adversary × W)
    pub attack_builder : Option (ℕ → W → AdversaryAttack × W)
    pub context_err : W → Option String × W

  -- `applyDefaults`
  unfoldable pub apply_defaults : RemediationConfig → RemediationConfig
  apply_defaults c = record c {
    rounds_max = if int_leb c.rounds_max (pos 0) then pos default_rounds_max else c.rounds_max;
    max_fix_errors =
        if int_eq c.max_fix_errors (pos 0) then default_max_fix_errors else c.max_fix_errors;
    count_unevaluated_as_open = true;
  }

  -- The variables of the loop, and the world.
  pub record LoopState : Type 0 where
    pub report : RemediationReport
    pub consecutive_fix_errors : ℕ
    pub world : W

  -- What the loop returns, and the world that it leaves.
  pub record Ended : Type 0 where
    pub report : RemediationReport
    pub failed : Option String
    pub world : W

  -- A part of the body returns from the loop, or goes on.
  abbrev pub Part : Type 0 → Type 0
  Part A = Result Ended A

  abbrev pub after_round : Part LoopState → (LoopState → Ended) → Ended
  after_round (ok s) next = next s
  after_round (err ended) next = ended

  unfoldable pub end_with : LoopState → RemediationOutcome → Option String → Ended
  end_with s outcome failed = record {
    report = record (s.report) { outcome = some outcome };
    failed = failed;
    world = s.world;
  }

  unfoldable pub cancel_on : LoopState → Option String × W → Part LoopState
  unfolding end_with
  cancel_on s (none, w) = ok (record s { world = w })
  cancel_on s (some e, w) = err (end_with (record s { world = w }) context_cancelled (some e))

  -- The attack is over: its report is kept.
  unfoldable pub take_answer : ℕ → LoopState → AttackAnswer × W → Part LoopState
  unfolding end_with append_prefixed
  take_answer round s (attacked r, w) = ok (record s {
    report = record (s.report) {
      rounds_executed = s.report.rounds_executed + 1;
      reports = s.report.reports ++ r ∷ [];
      harness_errors = append_prefixed s.report.harness_errors r.harness_errors round;
    };
    world = w;
  })
  take_answer round s (attack_failed e (some r), w) =
      let s' : LoopState = record s {
        report = record (s.report) {
          reports = s.report.reports ++ r ∷ [];
          harness_errors = append_prefixed s.report.harness_errors r.harness_errors round;
        };
        world = w;
      } in
      err (end_with s' context_cancelled (some e))
  take_answer round s (attack_failed e none, w) =
      err (end_with (record s { world = w }) context_cancelled (some e))

  -- The arrow of the first attack with a name, and the adversary of the round.
  unfoldable pub name_arrow : LoopState → AdversaryAttack × W → LoopState
  name_arrow s (attack, w) = record s {
    report = record (s.report) {
      arrow_id = if s.report.arrow_id == "" then attack.arrow_id else s.report.arrow_id;
    };
    world = w;
  }

  abbrev pub note_missing : ℕ → LoopState → W → LoopState
  note_missing round s w = record s {
    report = record (s.report) {
      harness_errors = s.report.harness_errors ++ no_adversary round ∷ [];
    };
    world = w;
  }

  unfoldable pub take_adversary :
      ℕ → LoopState → Option Adversary × W → Part (Adversary × LoopState)
  unfolding end_with
  take_adversary round s (some a, w) = ok (a, record s { world = w })
  take_adversary round s (none, w) =
      err (end_with (note_missing round s w) escalated_hook_error none)

  -- The convergence test.
  unfoldable pub judge :
      RemediationConfig → Adversary → AdversaryAttack → LoopState → Part LoopState
  unfolding end_with open_findings_by_threshold
  judge c a attack s =
      let (open_count, uneval_count) =
        open_findings_by_threshold (a.findings_store s.world) attack.arrow_id
          c.severity_threshold in
      if not (nat_eq open_count 0)
      then ok s
      else if ltb 0 uneval_count && c.count_unevaluated_as_open
      then err (end_with s converged_with_unevaluated none)
      else err (end_with s converged none)

  -- A fix attempt that failed is counted.
  unfoldable pub count_fix : ℕ → LoopState → FixAnswer × W → LoopState
  count_fix round s (answer, w) = elim answer.failed [
    | none ↦ record s { consecutive_fix_errors = 0; world = w }
    | some e ↦ record s {
      report = record (s.report) {
        harness_errors = s.report.harness_errors ++ in_fix round e ∷ [];
      };
      consecutive_fix_errors = s.consecutive_fix_errors + 1;
      world = w;
    }
  ]

  unfoldable pub is_failed : FixAnswer → Bool
  is_failed answer = elim answer.failed [ none ↦ false | some e ↦ true ]

  unfoldable pub weigh_fix : RemediationConfig → FixAnswer → LoopState → Part LoopState
  unfolding end_with is_failed
  weigh_fix c answer s =
      if is_failed answer
        && int_ltb (pos 0) c.max_fix_errors
        && int_leb c.max_fix_errors (pos s.consecutive_fix_errors)
      then err (end_with s escalated_hook_error none)
      else if not answer.made_progress
      then err (end_with s escalated_no_progress none)
      else ok s

  -- The producer's turn.
  unfoldable pub mend :
      RemediationConfig → Adversary → AdversaryAttack → ℕ → LoopState → Part LoopState
  unfolding end_with open_findings_snapshot count_fix weigh_fix
  mend c a attack round s = elim c.fix_attempt [
    | none ↦ err (end_with s escalated_no_progress none)
    | some fix ↦
        let turn =
          fix
            (open_findings_snapshot (a.findings_store s.world) attack.arrow_id c.severity_threshold)
            s.world in
        weigh_fix c turn.0 (count_fix round s turn)
  ]

  module _ (c : RemediationConfig) (build : ℕ → W → Option Adversary × W)
      (build_attack : ℕ → W → AdversaryAttack × W) where
    -- The body of the loop after the adversary was built.
    unfoldable pub fight : ℕ → AdversaryAttack → Adversary → LoopState → Part LoopState
    unfolding cancel_on take_answer judge mend
    fight round attack a s = do
      s1 ← take_answer round s (a.attack attack s.world)
      s2 ← cancel_on s1 (c.context_err s1.world)
      s3 ← judge c a attack s2
      s4 ← mend c a attack round s3
      cancel_on s4 (c.context_err s4.world)

    -- The body of the loop.
    unfoldable pub run_round : ℕ → LoopState → Part LoopState
    unfolding cancel_on name_arrow take_adversary fight
    run_round round s = do
      s1 ← cancel_on s (c.context_err s.world)
      let aimed = build_attack round s1.world
      let s2 = name_arrow s1 aimed
      (a, s3) ← take_adversary round s2 (build round s2.world)
      fight round aimed.0 a s3

    -- The loop, with the rounds that are left.
    unfoldable pub run_rounds : ℕ → ℕ → LoopState → Ended
    unfolding run_round end_with
    run_rounds zero round s = end_with s escalated_rounds none
    run_rounds (suc left) round s =
        after_round (run_round round s) (λ s'. run_rounds left (suc round) s')

  unfoldable pub run_from :
      RemediationConfig → (ℕ → W → Option Adversary × W) → (ℕ → W → AdversaryAttack × W) → W → Ended
  unfolding apply_defaults run_rounds
  run_from c build build_attack w =
      let c' = apply_defaults c in
      run_rounds c' build build_attack (pos_part c'.rounds_max) 0
        (record { report = new_report; consecutive_fix_errors = 0; world = w })

  -- `RunRemediationLoop`
  unfoldable pub run_remediation_loop : RemediationConfig → W → Result ConfigError Ended
  unfolding run_from
  run_remediation_loop c w = do
    build ← required c.adversary_builder adversary_builder_required
    build_attack ← required c.attack_builder attack_builder_required
    ok (run_from c build build_attack w)

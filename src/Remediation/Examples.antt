-- ===== src/Remediation/Examples.antt =====
-- A loop over a store whose one finding is resolved.
use ghyll.Base.{
  ℕ, zero, suc, ◌≤◌, ℤ, pos, String, ◌≡◌, refl, sym, subst, true, false, Option, none, some, List,
  [], ◌∷◌, ◌++◌, arith, ok, ◌==◌, string_key, All, eq_iff, length, trim_space, if◌then◌else◌,
  Bool-cases, inl, inr,
}
use ghyll.Base.Map.{lookup}
use ghyll.Arrow.{FindingStatus}
use ghyll.Clause.{Clause}
use ghyll.Findings.{FindingRecord, FindingsStore, zero_record, for_arrow}
use ghyll.Findings.Lifecycle.{IsSound}
use ghyll.NoFinding.{decide_findings}
use ghyll.Remediation.{
  RemediationConfig, Adversary, AdversaryAttack, attacked, Ended, converged, run_remediation_loop,
  run_from, apply_defaults,
}
use ghyll.Remediation.Ending.{Settled, rounds_allowed, run_remediation_loop-Settled}
use ghyll.Remediation.Rounds.{EndsIn}
use ghyll.Remediation.Convergence.{StoreAt, FoughtIn, run_remediation_loop-decided}
use ghyll.Remediation.AutoInsert.{
  verification_auto_insert, has_concept, IsInserted, no_open_finding, min_depth,
  verification_auto_insert-covers,
}

abbrev finding : FindingRecord
finding = record zero_record {
  id = "f1";
  arrow_id = "a1";
  severity = pos 3;
  status = FindingStatus.resolved;
}

abbrev world : FindingsStore
world = record {
  by_arrow = ("a1", finding ∷ []) ∷ [];
  by_id = ("f1", record { arrow_id = "a1"; idx = 0 }) ∷ [];
  version = 1;
}

abbrev adversary : Adversary FindingsStore
adversary = record {
  attack = λ a w. (attacked (record { harness_errors = [] }), w);
  findings_store = λ w. some w;
}

abbrev build : ℕ → FindingsStore → Option (Adversary FindingsStore) × FindingsStore
build round w = (some adversary, w)

abbrev build_attack : ℕ → FindingsStore → AdversaryAttack × FindingsStore
build_attack round w = (record { arrow_id = "a1" }, w)

abbrev config : RemediationConfig FindingsStore
config = record {
  rounds_max = pos 3;
  max_fix_errors = pos 0;
  severity_threshold = pos 2;
  count_unevaluated_as_open = false;
  fix_attempt = none;
  adversary_builder = some build;
  attack_builder = some build_attack;
  context_err = λ w. (none, w);
}

abbrev ended : Ended FindingsStore
ended = run_from FindingsStore config build build_attack world

ran : run_remediation_loop FindingsStore config world ≡ ok ended
unfolding run_remediation_loop
ran = refl

ended_converged : ended.report.outcome ≡ some converged
unfolding run_from for_arrow ghyll.Base.sort_by ghyll.Base.Map.lookup
ended_converged = refl

ended_world : ended.world ≡ world
unfolding run_from for_arrow ghyll.Base.sort_by ghyll.Base.Map.lookup
ended_world = refl

finding-IsSound : IsSound finding
unfolding ghyll.Findings.is_known_finding_status
finding-IsSound = record { known = refl; severity_low = omega arith; severity_high = omega arith }

fold_refl : (s : String) → s == s ≡ true
fold_refl s = ground (arith, eq_iff s s)

some-injective :
    (a b : Adversary FindingsStore)
    → ◌≡◌ {A = Option (Adversary FindingsStore)} (some a) (some b)
    → a ≡ b
some-injective a b h = cc

for_arrow-All-IsSound : (arrow_id : String) → All IsSound (for_arrow world arrow_id)
unfolding for_arrow lookup ghyll.Base.sort_by
for_arrow-All-IsSound arrow_id = elim (Bool-cases ("a1" == arrow_id)) [
  | inl e ↦ rw e (finding-IsSound, tt)
  | inr e ↦ rw e tt
]

ended-All-IsSound : (arrow_id : String) → All IsSound (for_arrow ended.world arrow_id)
ended-All-IsSound arrow_id =
    subst (λ w. All IsSound (for_arrow w arrow_id)) (sym ended_world)
      (for_arrow-All-IsSound arrow_id)

stores :
    (round : ℕ) (v : FindingsStore) (a : Adversary FindingsStore)
    → (build round v).0 ≡ some a
    → StoreAt config build build_attack ended.world a
unfolding StoreAt
stores round v a h = (
  ended.world,
  subst (λ (b : Adversary FindingsStore). b.findings_store ended.world ≡ some ended.world)
      (some-injective adversary a h) refl,
  ended-All-IsSound,
)

run_remediation_loop-decided_example :
    (l : EndsIn
      (apply_defaults FindingsStore config)
      build
      build_attack
      world
      (rounds_allowed config)
      ended)
    × (f : FoughtIn config build build_attack l.round l.state) × (s : FindingsStore)
    × (f.adversary.findings_store ended.world ≡ some s)
    × ((decide_findings (pos 2) (for_arrow s f.attack.arrow_id)).pass ≡ true)
run_remediation_loop-decided_example =
    run_remediation_loop-decided config build build_attack world ended converged refl refl ran
      stores refl ended_converged

id_there : trim_space " a1" == "" ≡ false
unfolding trim_space
id_there = refl

verification_auto_insert-covers_example :
    (added : List Clause) × (verification_auto_insert (λ s t. s == t) " a1" [] ≡ [] ++ added)
    × (length added ≤ 2)
    × All (IsInserted (λ s t. s == t) (trim_space " a1")) added
    × (has_concept
          (λ s t. s == t)
          no_open_finding
          (verification_auto_insert (λ s t. s == t) " a1" [])
        ≡ true)
    × (has_concept (λ s t. s == t) min_depth (verification_auto_insert (λ s t. s == t) " a1" [])
        ≡ true)
    × (verification_auto_insert
          (λ s t. s == t)
          " a1"
          (verification_auto_insert (λ s t. s == t) " a1" [])
        ≡ verification_auto_insert (λ s t. s == t) " a1" [])
verification_auto_insert-covers_example =
    verification_auto_insert-covers (λ s t. s == t) fold_refl " a1" [] id_there

run_remediation_loop-Settled_example :
    (e : Ended FindingsStore) × (run_remediation_loop FindingsStore config world ≡ ok e)
    × Settled (rounds_allowed config) e
run_remediation_loop-Settled_example =
    run_remediation_loop-Settled config build build_attack world refl refl

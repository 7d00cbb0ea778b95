-- ===== src/NoFinding/Laws.antt =====
-- When `no-open-finding` passes, and that it agrees with the derived status.
use ghyll.Base.{
  ℤ, String, ◌≡◌, refl, ◌∙◌, ◌↔◌, Bool, true, false, some, List, [], ◌∷◌, map, arith, All, length,
  select, count_if, count_if-perm, sort_by-perm, ok, Bool-cases, inl, inr, string_key,
}
use ghyll.Base.Map.{Map, lookup}
use ghyll.Clause.{ClauseStatus, Value, Verdict, require_string_arg}
use ghyll.Arrow.{ArrowStatus, ClauseDeriveInput, derive_arrow_status}
use ghyll.Arrow.Laws.{IsClear, derive_arrow_status-complete}
use ghyll.Findings.{
  FindingRecord, FindingsStore, as_derive_input, findings_on, for_arrow, is_known_finding_status,
  new_findings_store,
}
use ghyll.Findings.Indexing.{IsIndexed}
use ghyll.Findings.History.{Call, run, run-new-IsIndexed}
use ghyll.Findings.Lifecycle.{IsSound, IsSoundStore, findings_on-IsSound, run-new-IsSound}
use ghyll.NoFinding.{is_blocking_finding, decide_findings, threshold_arg, evaluate_no_open_finding}

length-select :
    (p : FindingRecord → Bool) (fs : List FindingRecord) → length (select p fs) ≡ count_if p fs
length-select p [] = refl
length-select p (f ∷ fs) = ground (arith, length-select p fs)

blocking-IsClear :
    (t : ℤ) (f : FindingRecord)
    → IsSound f
    → (is_blocking_finding t f ≡ false) ↔ IsClear t (as_derive_input f)
unfolding is_blocking_finding as_derive_input is_known_finding_status
blocking-IsClear t f v = (
  λ e. record {
    settled = λ u. ground (arith, e, u);
    harmless = λ o h. ground (arith, e, o, h, v.severity_low, v.severity_high);
  },
  λ c. ground (arith, c.settled, c.harmless, v.known, v.severity_low, v.severity_high),
)

none-blocking :
    (t : ℤ) (fs : List FindingRecord)
    → All IsSound fs
    → (count_if (is_blocking_finding t) fs ≡ 0) ↔ All (IsClear t) (map as_derive_input fs)
none-blocking t [] v = (λ e. tt, λ e. refl)
none-blocking t (f ∷ fs) (v, vs) =
    let b = blocking-IsClear t f v in
    let ih = none-blocking t fs vs in
    elim (Bool-cases (is_blocking_finding t f)) [
      | inl e ↦ (λ h. absurd (ground (arith, e, h)), λ (c, cs). absurd (ground (arith, e, b.1 c)))
      | inr e ↦ (λ h. (b.0 e, ih.0 (ground (arith, e, h))), λ (c, cs). ground (arith, e, ih.1 cs))
    ]

for_arrow-blocking :
    (t : ℤ) (s : FindingsStore) (arrow_id : String)
    → count_if (is_blocking_finding t) (for_arrow s arrow_id)
      ≡ count_if (is_blocking_finding t) (findings_on s arrow_id)
unfolding for_arrow
for_arrow-blocking t s arrow_id =
    count_if-perm (is_blocking_finding t) (sort_by-perm (λ r. r.id) (findings_on s arrow_id))

abbrev pub passing : ClauseDeriveInput
passing = record {
  status = ClauseStatus.pass;
  awaiting_attestation = false;
  insufficient_basis = false;
}

module _ (s : FindingsStore) (i : IsIndexed s) (v : IsSoundStore s) (args : Map String Value) where
  -- On a store whose findings are sound, a call for an arrow either passes, when every finding
  -- of the arrow is clear at the threshold, or fails; it is never unevaluated.
  evaluate_no_open_finding-at :
      (arrow_id : String) (t : ℤ)
      → require_string_arg args "arrow-id" ≡ ok arrow_id
      → threshold_arg (lookup "severity-threshold" args) ≡ ok t
      → (b : Verdict) × (evaluate_no_open_finding (some s) args ≡ ok b)
        × (b.unevaluated ≡ false)
        × ((b.pass ≡ true) ↔ All (IsClear t) (map as_derive_input (findings_on s arrow_id)))
  unfolding evaluate_no_open_finding decide_findings
  evaluate_no_open_finding-at arrow_id t ha ht =
      let n = none-blocking t (findings_on s arrow_id) (findings_on-IsSound s arrow_id i v) in
      let e =
        length-select (is_blocking_finding t) (for_arrow s arrow_id)
        ∙ for_arrow-blocking t s arrow_id in
      (
        decide_findings t (for_arrow s arrow_id),
        ground (arith, ha, ht),
        refl,
        (λ p. n.0 (ground (arith, p, e)), λ c. ground (arith, n.1 c, e)),
      )

-- After any calls on a new store, the clause `no-open-finding` of an arrow, given a threshold that
-- parses, is decided, and it passes exactly when the findings of the arrow let an arrow whose one
-- clause has passed be complete at that threshold.
pub evaluate_no_open_finding-derive :
    (cs : List (String × Call)) (args : Map String Value) (arrow_id : String) (t : ℤ)
    → require_string_arg args "arrow-id" ≡ ok arrow_id
    → threshold_arg (lookup "severity-threshold" args) ≡ ok t
    → (b : Verdict) × (evaluate_no_open_finding (some (run new_findings_store cs)) args ≡ ok b)
      × (b.unevaluated ≡ false)
      × ((b.pass ≡ true) ↔ (
          (derive_arrow_status
            (passing ∷ [])
            (map as_derive_input (findings_on (run new_findings_store cs) arrow_id))
            t).0
          ≡ ArrowStatus.complete))
evaluate_no_open_finding-derive cs args arrow_id t ha ht =
    let s = run new_findings_store cs in
    let (b, e, u, p) =
      evaluate_no_open_finding-at s (run-new-IsIndexed cs) (run-new-IsSound cs) args arrow_id t ha
        ht in
    let d =
      derive_arrow_status-complete (passing ∷ []) (map as_derive_input (findings_on s arrow_id))
        t in
    (b, e, u, (λ q. d.1 (λ n. cc, (refl, tt), p.0 q), λ q. p.1 (d.0 q).2))

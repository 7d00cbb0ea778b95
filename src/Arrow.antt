-- ===== src/Arrow.antt =====
-- runner/arrow.go: the status of an arrow, derived from its clauses and findings.
mod Levels
pub mod Laws
mod Examples
use ghyll.Base.{
  ℕ, ℤ, String, Option, none, some, Bool, true, false, ◌&&◌, ◌||◌, not, List, [], ◌∷◌, map, ltb,
  int_leb, count_if, all, if◌then◌else◌,
}
use ghyll.Clause.{ClauseStatus}

-- `ArrowStatus`; `unknown` stands for every integer that is none of the eight constants.
pub data ArrowStatus : Type 0 where
  unset in_progress complete blocked unevaluated provisional invalidated : ArrowStatus
  aborted_remediation : ArrowStatus
  unknown : ℤ → ArrowStatus

-- `ArrowStatus.IsPersisted`
unfoldable pub is_persisted : ArrowStatus → Bool
is_persisted ArrowStatus.complete = true
is_persisted ArrowStatus.blocked = true
is_persisted ArrowStatus.unevaluated = true
is_persisted ArrowStatus.provisional = true
is_persisted ArrowStatus.invalidated = true
is_persisted ArrowStatus.aborted_remediation = true
is_persisted _ = false

-- `ArrowStatus.String`; `none` stands for the text that marks an invalid status.
unfoldable pub arrow_status_text : ArrowStatus → Option String
arrow_status_text ArrowStatus.unset = some "unset"
arrow_status_text ArrowStatus.in_progress = some "in-progress"
arrow_status_text ArrowStatus.complete = some "complete"
arrow_status_text ArrowStatus.blocked = some "blocked"
arrow_status_text ArrowStatus.unevaluated = some "unevaluated"
arrow_status_text ArrowStatus.provisional = some "provisional"
arrow_status_text ArrowStatus.invalidated = some "invalidated"
arrow_status_text ArrowStatus.aborted_remediation = some "aborted-remediation"
arrow_status_text (ArrowStatus.unknown n) = none

-- `ArrowStatus.SatisfiesNextRole`
unfoldable pub satisfies_next_role : ArrowStatus → Bool
satisfies_next_role ArrowStatus.complete = true
satisfies_next_role _ = false

-- `FindingStatus`; `unknown` stands for every integer that is none of the five constants.
pub data FindingStatus : Type 0 where
  still_open running resolved accepted_risk unevaluated : FindingStatus
  unknown : ℤ → FindingStatus

-- `Finding`
pub record Finding : Type 0 where
  pub status : FindingStatus
  pub severity_rank : ℤ

-- `ClauseDeriveInput`
pub record ClauseDeriveInput : Type 0 where
  pub status : ClauseStatus
  pub awaiting_attestation : Bool
  pub insufficient_basis : Bool

-- `ClauseDeriveInput.IsAttestedPending`
unfoldable pub is_attested_pending : ClauseDeriveInput → Bool
is_attested_pending c = c.awaiting_attestation || c.insufficient_basis

unfoldable pub is_known_clause_status : ClauseStatus → Bool
is_known_clause_status (ClauseStatus.unknown n) = false
is_known_clause_status _ = true

abbrev pub is_pass : ClauseStatus → Bool
is_pass ClauseStatus.pass = true
is_pass _ = false

abbrev pub is_fail : ClauseStatus → Bool
is_fail ClauseStatus.fail = true
is_fail _ = false

abbrev pub is_unevaluated : ClauseStatus → Bool
is_unevaluated ClauseStatus.unevaluated = true
is_unevaluated _ = false

abbrev pub is_running : ClauseStatus → Bool
is_running ClauseStatus.running = true
is_running _ = false

abbrev pub is_pending : ClauseStatus → Bool
is_pending ClauseStatus.pending = true
is_pending _ = false

-- `f.Status == FindingStatusOpen || f.Status == FindingStatusRunning`
abbrev pub is_in_flight : FindingStatus → Bool
is_in_flight FindingStatus.still_open = true
is_in_flight FindingStatus.running = true
is_in_flight _ = false

abbrev pub is_unevaluated_finding : FindingStatus → Bool
is_unevaluated_finding FindingStatus.unevaluated = true
is_unevaluated_finding _ = false

-- The first loop of `DeriveArrowStatus`.
unfoldable pub normalize : ClauseDeriveInput → ClauseDeriveInput
unfolding is_known_clause_status
normalize c =
    if not (is_known_clause_status c.status)
    then record {
      status = ClauseStatus.unevaluated;
      awaiting_attestation = false;
      insufficient_basis = false;
    }
    else if not (is_running c.status)
    then record c { awaiting_attestation = false; insufficient_basis = false }
    else c

-- The condition on a finding in step 1.
abbrev pub is_open_blocking : ℤ → Finding → Bool
is_open_blocking threshold f = is_in_flight f.status && int_leb threshold f.severity_rank

-- Steps 1 to 5, over the normalized clauses.
unfoldable pub derive_normalized : List ClauseDeriveInput → List Finding → ℤ → ArrowStatus × ℕ × ℕ
unfolding is_attested_pending
derive_normalized normalized findings threshold =
    let fail_count = count_if (λ c. is_fail c.status) normalized in
    let open_blocking_findings = count_if (is_open_blocking threshold) findings in
    let uneval_clauses = count_if (λ c. is_unevaluated c.status) normalized in
    let uneval_findings = count_if (λ f. is_unevaluated_finding f.status) findings in
    let awaiting_count = count_if is_attested_pending normalized in
    let non_attested_all_pass = all (λ c. is_attested_pending c || is_pass c.status) normalized in
    let in_progress_count =
      count_if (λ c. not (is_attested_pending c) && (is_pending c.status || is_running c.status))
        normalized in
    if ltb 0 fail_count || ltb 0 open_blocking_findings
    then (ArrowStatus.blocked, fail_count, open_blocking_findings)
    else if ltb 0 uneval_clauses || ltb 0 uneval_findings
    then (ArrowStatus.unevaluated, uneval_clauses, uneval_findings)
    else if ltb 0 awaiting_count && non_attested_all_pass
    then (ArrowStatus.provisional, awaiting_count, 0)
    else if ltb 0 in_progress_count
    then (ArrowStatus.in_progress, in_progress_count, 0)
    else (ArrowStatus.complete, 0, 0)

-- `DeriveArrowStatus`: the status, the blocking clauses and the blocking findings.
unfoldable pub derive_arrow_status : List ClauseDeriveInput → List Finding → ℤ → ArrowStatus × ℕ × ℕ
unfolding derive_normalized normalize
derive_arrow_status [] findings threshold = (ArrowStatus.in_progress, 0, 0)
derive_arrow_status (c ∷ cs) findings threshold =
    derive_normalized (map normalize (c ∷ cs)) findings threshold

-- ===== src/Arrow/Examples.antt =====
-- The derivation at concrete clauses and findings.
use ghyll.Base.{◌≡◌, ◌≢◌, ◌↔◌, pos, true, false, [], ◌∷◌, All}
use ghyll.Clause.{ClauseStatus}
use ghyll.Arrow.{ArrowStatus, FindingStatus, Finding, ClauseDeriveInput, derive_arrow_status}
use ghyll.Arrow.Laws.{IsClear, derive_arrow_status-worst, derive_arrow_status-complete}

abbrev with_status : ClauseStatus → ClauseDeriveInput
with_status s = record { status = s; awaiting_attestation = false; insufficient_basis = false }

abbrev awaiting : ClauseDeriveInput
awaiting = record (with_status ClauseStatus.running) { awaiting_attestation = true }

abbrev minor : Finding
minor = record { status = FindingStatus.still_open; severity_rank = pos 1 }

abbrev major : Finding
major = record { status = FindingStatus.running; severity_rank = pos 3 }

derive_arrow_status-worst_example :
    (derive_arrow_status (awaiting ∷ with_status ClauseStatus.pass ∷ []) (minor ∷ []) (pos 2)).0
    ≡ ArrowStatus.provisional
derive_arrow_status-worst_example =
    derive_arrow_status-worst awaiting (with_status ClauseStatus.pass ∷ []) (minor ∷ []) (pos 2)

derive_arrow_status-complete_example :
    ((derive_arrow_status (with_status ClauseStatus.pass ∷ []) (minor ∷ []) (pos 2)).0
      ≡ ArrowStatus.complete)
    ↔ ((with_status ClauseStatus.pass ∷ [] ≢ [])
        × All (λ c. c.status ≡ ClauseStatus.pass) (with_status ClauseStatus.pass ∷ [])
        × All (IsClear (pos 2)) (minor ∷ []))
derive_arrow_status-complete_example =
    derive_arrow_status-complete (with_status ClauseStatus.pass ∷ []) (minor ∷ []) (pos 2)

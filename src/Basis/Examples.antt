-- ===== src/Basis/Examples.antt =====
-- Three rounds.
use ghyll.Base.{ℕ, ℤ, pos, String, true, []}
use ghyll.Basis.{BasisTracker, insufficient_basis, record_verdict, Recorded}
use ghyll.Basis.Laws.{after_rounds}

abbrev tracker : BasisTracker
tracker = record { counts = []; crossed_clauses = []; max = pos 3; has_bus = true }

abbrev third : Recorded
third = record_verdict (after_rounds 2 tracker "a1" "c1") "a1" "c1" insufficient_basis

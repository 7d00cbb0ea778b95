-- ===== src/Basis/Laws.antt =====
-- Escalation after the limit of consecutive rounds.
use ghyll.Base.{ℕ, zero, suc, pos, String, ◌≡◌, ◌≢◌, leb, string_key}
use ghyll.Basis.{insufficient_basis, BasisTracker, rounds_of, is_crossed, record_verdict}

-- The tracker after a number of consecutive rounds on a clause.
unfoldable pub after_rounds : ℕ → BasisTracker → String → String → BasisTracker
after_rounds zero t arrow_id clause_id = t
after_rounds (suc n) t arrow_id clause_id =
    (record_verdict (after_rounds n t arrow_id clause_id) arrow_id clause_id
      insufficient_basis).tracker

module _ (arrow_id clause_id : String) (named : clause_id ≢ "") (limit : ℕ) (t : BasisTracker)
    (limited : t.max ≡ pos (suc limit)) where
  -- What the rounds make of a clause that was not escalated before.
  record Tracked (n : ℕ) (u : BasisTracker) : Type 0 where
    limit_kept : u.max ≡ pos (suc limit)
    bus_kept : u.has_bus ≡ t.has_bus
    counted : rounds_of u clause_id ≡ n
    marked : is_crossed u clause_id ≡ leb (suc limit) n

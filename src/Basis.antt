-- ===== src/Basis.antt =====
-- runner/insufficient_basis_tracker.go: the rounds in which an operator found no basis for a verdict.
pub mod Laws
mod Examples
use ghyll.Base.{
  ℕ, ◌+◌, ℤ, pos, String, Bool, true, false, ◌&&◌, ◌||◌, Option, none, some, List, [], ◌∷◌, ◌==◌,
  string_key, int_ltb, int_leb, if◌then◌else◌,
}
use ghyll.Base.Map.{Map, lookup, insert, delete, member}

-- `AttestationVerdict`; `other` stands for any other text.
pub data AttestationVerdict : Type 0 where
  pass fail insufficient_basis : AttestationVerdict
  other : String → AttestationVerdict

-- `InsufficientBasisTracker`; of the bus only its presence matters.
pub record BasisTracker : Type 0 where
  pub counts : Map String ℕ
  pub crossed_clauses : Map String (Unit {0})
  pub max : ℤ
  pub has_bus : Bool

-- `NewInsufficientBasisTracker`
unfoldable pub new_basis_tracker : ℤ → Bool → BasisTracker
new_basis_tracker max has_bus = record {
  counts = [];
  crossed_clauses = [];
  max = max;
  has_bus = has_bus;
}

-- The event that rounds are exceeded, with the arrow and the clause.
pub record RoundsExceeded : Type 0 where
  pub arrow_id : String
  pub clause_id : String

-- What `Record` returns, the tracker, and what it publishes.
pub record Recorded : Type 0 where
  pub rounds : ℕ
  pub crossed : Bool
  pub tracker : BasisTracker
  pub published : List RoundsExceeded

abbrev count_of : Option ℕ → ℕ
count_of none = 0
count_of (some n) = n

-- `Rounds`
unfoldable pub rounds_of : BasisTracker → String → ℕ
rounds_of t clause_id = count_of (lookup clause_id t.counts)

-- `IsCrossed`
unfoldable pub is_crossed : BasisTracker → String → Bool
is_crossed t clause_id = member clause_id t.crossed_clauses

-- `Reset`
unfoldable pub reset_clause : BasisTracker → String → BasisTracker
reset_clause t clause_id = record t {
  counts = delete clause_id t.counts;
  crossed_clauses = delete clause_id t.crossed_clauses;
}

-- The part of `Record` for a verdict of insufficient basis.
unfoldable pub record_round : BasisTracker → String → String → Recorded
unfolding rounds_of is_crossed
record_round t arrow_id clause_id =
    let rounds = rounds_of t clause_id + 1 in
    let crossed = int_ltb (pos 0) t.max && (int_leb t.max (pos rounds) || is_crossed t clause_id) in
    record {
      rounds = rounds;
      crossed = crossed;
      tracker = record t {
        counts = insert clause_id rounds t.counts;
        crossed_clauses =
            if crossed then insert clause_id tt t.crossed_clauses else t.crossed_clauses;
      };
      published =
          if crossed && t.has_bus
          then record { arrow_id = arrow_id; clause_id = clause_id } ∷ []
          else [];
    }

abbrev unrecorded : BasisTracker → Recorded
unrecorded t = record { rounds = 0; crossed = false; tracker = t; published = [] }

-- `Record`
unfoldable pub record_verdict : BasisTracker → String → String → AttestationVerdict → Recorded
unfolding record_round reset_clause
record_verdict t arrow_id clause_id verdict =
    if clause_id == "" then unrecorded t else elim verdict [
      | insufficient_basis ↦ record_round t arrow_id clause_id
      | _ ↦ unrecorded (reset_clause t clause_id)
    ]

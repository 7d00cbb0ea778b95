-- ===== src/Classifications/Examples.antt =====
-- A store with a requirement.
use ghyll.Base.{
  ℕ, ℤ, pos, String, ◌≡◌, ◌≢◌, ◌↔◌, refl, Bool, true, false, not, some, List, [], ◌∷◌, ok, All,
  is_blank, string_key,
}
use ghyll.Base.Map.{Map, lookup}
use ghyll.Clause.{Value, Verdict, require_string_arg}
use ghyll.Depth.{Requirement, Classification}
use ghyll.Classifications.{
  ClassificationsStore, snapshot_arrow, evaluate_min_depth, allow_empty_arg,
}
use ghyll.Classifications.Laws.{Meets, evaluate_min_depth-Meets}

abbrev wanted : Requirement
wanted = record { id = "q1"; min_depth = pos 2; description = "latency" }

abbrev seen : Classification
seen = record { requirement_id = "q1"; observed = pos 3; evidence = "trace" }

abbrev store : ClassificationsStore
store = record {
  reqs = ("a1", ("q1", wanted) ∷ []) ∷ [];
  classifications = ("a1", ("q1", seen) ∷ []) ∷ [];
  version = 2;
}

abbrev args : Map String Value
args = ("arrow-id", Value.text "a1") ∷ []

given : require_string_arg args "arrow-id" ≡ ok "a1"
unfolding require_string_arg lookup
given = refl

named : is_blank "a1" ≡ false
unfolding is_blank
named = refl

allowed : allow_empty_arg (lookup "allow-empty" args) ≡ ok false
unfolding lookup
allowed = refl

snapped : snapshot_arrow store "a1" ≡ (wanted ∷ [], seen ∷ [], 2)
unfolding snapshot_arrow ghyll.Base.sort_by lookup
snapped = refl

evaluate_min_depth-Meets_example :
    (b : Verdict) × (evaluate_min_depth (some store) args ≡ ok b)
    × ((wanted ∷ []) ≢ [] → (b.pass ≡ true) ↔ All (Meets (seen ∷ [])) (wanted ∷ []))
    × ((wanted ∷ []) ≡ [] → (b.pass ≡ false) × (b.unevaluated ≡ not false))
evaluate_min_depth-Meets_example =
    evaluate_min_depth-Meets store args "a1" false (wanted ∷ []) (seen ∷ []) 2 given named allowed
      snapped

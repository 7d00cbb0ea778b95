-- ===== src/Classifications.antt =====
-- runner/depthstore.go and runner/mindepth.go: the requirements of an arrow with their observed
-- depths, and the evaluator of `every-requirement-meets-min-depth`.
pub mod Declared
pub mod Laws
mod Examples
use ghyll.Base.{
  ℕ, ◌+◌, ◌%◌, ◌^◌, String, Bool, true, false, not, Option, none, some, List, [], ◌∷◌, map, ◌==◌,
  string_key, length, nat_eq, ltb, select, int_ltb, trim_space, is_blank, sort_by, Result, ok, err,
  ◌>>=◌, ◌>>◌, refuse, if◌then◌else◌,
}
use ghyll.Base.Map.{Map, lookup, insert, delete, member}
use ghyll.Clause.{Value, Verdict, ArgError, require_string_arg}
use ghyll.Depth.{
  Requirement, Classification, DepthError, validate_requirement, validate_classification,
}

-- `ClassificationsStore`
pub record ClassificationsStore : Type 0 where
  pub reqs : Map String (Map String Requirement)
  pub classifications : Map String (Map String Classification)
  pub version : ℕ

unfoldable pub new_classifications_store : ClassificationsStore
new_classifications_store = record { reqs = []; classifications = []; version = 0 }

-- `ClassificationsEvent`, by its kind.
pub data ClassificationsEvent : Type 0 where
  declared : String → Requirement → ℕ → ClassificationsEvent
  recorded : String → Classification → ℕ → ClassificationsEvent
  overwritten : String → Classification → Classification → ℕ → ClassificationsEvent
  forgotten : String → String → Option Classification → ℕ → ClassificationsEvent
  arrow_forgotten : String → ℕ → ClassificationsEvent

pub data ClassificationsError : Type 0 where
  arrow_id_empty : ClassificationsError
  invalid : DepthError → ClassificationsError
  requirement_duplicate requirement_unknown : String → ClassificationsError

abbrev pub depth_result : {A : Type 0} → Result DepthError A → Result ClassificationsError A
depth_result (ok a) = ok a
depth_result (err e) = err (invalid e)

-- `normalizeArrowID`
unfoldable pub normalize_arrow_id : String → Result ClassificationsError String
unfolding trim_space
normalize_arrow_id arrow_id =
    let trimmed = trim_space arrow_id in if trimmed == "" then err arrow_id_empty else ok trimmed

-- An inner map, which is empty for a missing key.
abbrev pub inner {ℓ} : {V : Type ℓ} → Option (List V) → List V
inner none = []
inner (some m) = m

unfoldable pub requirements_of : ClassificationsStore → String → Map String Requirement
requirements_of s arrow_id = inner (lookup arrow_id s.reqs)

unfoldable pub classifications_of : ClassificationsStore → String → Map String Classification
classifications_of s arrow_id = inner (lookup arrow_id s.classifications)

abbrev pub bumped : ℕ → ℕ
bumped v = (v + 1) % 2 ^ 64

abbrev pub Change : Type 0
Change = Result ClassificationsError (ClassificationsStore × List ClassificationsEvent)

-- `DeclareRequirement`; on a duplicate the source leaves the arrow's map made, which is empty or
-- there already.
unfoldable pub declare_requirement : ClassificationsStore → String → Requirement → Change
unfolding normalize_arrow_id requirements_of
declare_requirement s arrow_id r = do
  a ← normalize_arrow_id arrow_id
  depth_result (validate_requirement r)
  refuse (member r.id (requirements_of s a)) (requirement_duplicate r.id)
  ok (
    record s {
      reqs = insert a (insert r.id r (requirements_of s a)) s.reqs;
      version = bumped s.version;
    },
    declared a r (bumped s.version) ∷ [],
  )

abbrev recording : String → Option Classification → Classification → ℕ → ClassificationsEvent
recording a none c v = recorded a c v
recording a (some before) c v = overwritten a before c v

-- `RecordClassification`
unfoldable pub record_classification : ClassificationsStore → String → Classification → Change
unfolding normalize_arrow_id requirements_of classifications_of
record_classification s arrow_id c = do
  a ← normalize_arrow_id arrow_id
  depth_result (validate_classification c)
  refuse (not (member c.requirement_id (requirements_of s a)))
      (requirement_unknown c.requirement_id)
  ok (
    record s {
      classifications =
          insert a (insert c.requirement_id c (classifications_of s a)) s.classifications;
      version = bumped s.version;
    },
    recording a (lookup c.requirement_id (classifications_of s a)) c (bumped s.version) ∷ [],
  )

-- `Forget`; deleting from an arrow's missing map of classifications is no change.
unfoldable pub forget_requirement : ClassificationsStore → String → String → Change
unfolding normalize_arrow_id requirements_of classifications_of
forget_requirement s arrow_id req_id = do
  a ← normalize_arrow_id arrow_id
  refuse (not (member req_id (requirements_of s a))) (requirement_unknown req_id)
  ok (
    record {
      reqs = insert a (delete req_id (requirements_of s a)) s.reqs;
      classifications = elim (lookup a s.classifications) [
        | none ↦ s.classifications
        | some m ↦ insert a (delete req_id m) s.classifications
      ];
      version = bumped s.version;
    },
    forgotten a req_id (lookup req_id (classifications_of s a)) (bumped s.version) ∷ [],
  )

-- `ForgetArrow`: the number forgotten, the store and the events.
unfoldable pub forget_requirements :
    ClassificationsStore → String → ℕ × ClassificationsStore × List ClassificationsEvent
unfolding normalize_arrow_id requirements_of
forget_requirements s arrow_id = elim (normalize_arrow_id arrow_id) [
  | err e ↦ (0, s, [])
  | ok a ↦ if nat_eq (length (requirements_of s a)) 0 then (0, s, []) else (
    length (requirements_of s a),
    record {
      reqs = delete a s.reqs;
      classifications = delete a s.classifications;
      version = bumped s.version;
    },
    arrow_forgotten a (bumped s.version) ∷ [],
  )
]

abbrev pub entries {ℓ} : {V : Type ℓ} → List (String × V) → List V
entries [] = []
entries ((k, v) ∷ m) = v ∷ entries m

-- `SnapshotArrow`
unfoldable pub snapshot_arrow :
    ClassificationsStore → String → List Requirement × List Classification × ℕ
unfolding normalize_arrow_id requirements_of classifications_of
snapshot_arrow s arrow_id = elim (normalize_arrow_id arrow_id) [
  | err e ↦ ([], [], 0)
  | ok a ↦ (
    sort_by (λ r. r.id) (entries (requirements_of s a)),
    sort_by (λ c. c.requirement_id) (entries (classifications_of s a)),
    s.version,
  )
]

-- `byReq`
unfoldable pub by_requirement :
    Map String Classification → List Classification → Map String Classification
by_requirement m [] = m
by_requirement m (c ∷ cs) = by_requirement (insert c.requirement_id c m) cs

-- The two conditions of the loop of the evaluator.
abbrev pub is_unclassified : Map String Classification → Requirement → Bool
is_unclassified m r = not (member r.id m)

unfoldable pub is_below_min : Map String Classification → Requirement → Bool
is_below_min m r = elim (lookup r.id m) [ none ↦ false | some c ↦ int_ltb c.observed r.min_depth ]

abbrev pub verdict : Bool → Bool → String → Verdict
verdict pass unevaluated reason = record { pass = pass; unevaluated = unevaluated; reason = reason }

-- The decision over a snapshot; the counts in a reason are left out.
unfoldable pub decide_depths : Bool → List Requirement → List Classification → Verdict
unfolding by_requirement is_below_min
decide_depths allow_empty [] cs =
    if allow_empty then verdict true false "" else verdict false true "no requirements declared"
decide_depths allow_empty (r ∷ rs) cs =
    let m = by_requirement [] cs in
    if ltb 0 (length (select (is_unclassified m) (r ∷ rs)))
    then verdict false true "requirement(s) unclassified"
    else verdict (nat_eq (length (select (is_below_min m) (r ∷ rs))) 0) false ""

abbrev pub allow_empty_arg : Option Value → Result ArgError Bool
allow_empty_arg none = ok false
allow_empty_arg (some (Value.bool b)) = ok b
allow_empty_arg (some v) = err (ArgError.wrong_kind "allow-empty")

abbrev no_classifications : Verdict
no_classifications =
    verdict false true "no classifications-store attached to ctx; evaluator cannot decide"

-- `EvaluateEveryRequirementMeetsMinDepth`
unfoldable pub evaluate_min_depth :
    Option ClassificationsStore → Map String Value → Result ArgError Verdict
unfolding require_string_arg snapshot_arrow decide_depths is_blank
evaluate_min_depth store args = do
  arrow_id ← require_string_arg args "arrow-id"
  refuse (is_blank arrow_id) (ArgError.blank_arg "arrow-id")
  allow_empty ← allow_empty_arg (lookup "allow-empty" args)
  ok (elim store [
    | none ↦ no_classifications
    | some s ↦
        let (reqs, cls, version) = snapshot_arrow s arrow_id in decide_depths allow_empty reqs cls
  ])

-- ===== src/Classifications/Laws.antt =====
-- When the evaluator of `every-requirement-meets-min-depth` passes.
use ghyll.Base.{
  ℕ, ◌≤ℤ◌, String, ◌≡◌, ◌≢◌, ◌↔◌, refl, inl, inr, Bool, true, false, not, Option, none, some, sym,
  ◌∙◌, ◌==◌, if◌then◌else◌, List, [], ◌∷◌, arith, string_key, ok, length, select, All, Bool-cases,
  Option-cases, is_blank,
}
use ghyll.Base.Map.{Map, lookup, insert, member, lookup-insert}
use ghyll.Clause.{Value, Verdict, require_string_arg}
use ghyll.Depth.{Requirement, Classification}
use ghyll.Classifications.{
  ClassificationsStore, by_requirement, is_unclassified, is_below_min, decide_depths,
  snapshot_arrow, evaluate_min_depth, allow_empty_arg,
}

-- The classification of a requirement is deep enough.
abbrev MeetsBy : Map String Classification → Requirement → Type 0
MeetsBy m r = (c : Classification) × (lookup r.id m ≡ some c) × (r.min_depth ≤ℤ c.observed)

MeetsBy-tests :
    (m : Map String Classification) (r : Requirement)
    → MeetsBy m r ↔ ((is_unclassified m r ≡ false) × (is_below_min m r ≡ false))
unfolding is_below_min member
MeetsBy-tests m r = elim (Option-cases (lookup r.id m)) [
  | inl n ↦ (λ (c, e, h). absurd (ground (arith, n, e)), λ (u, b). absurd (ground (arith, n, u)))
  | inr (c, e) ↦ (
    λ (c', e', h). (ground (arith, e), ground (arith, e, e', h)),
    λ (u, b). (c, e, ground (arith, e, b)),
  )
]

none-selected :
    (p : Requirement → Bool) (rs : List Requirement)
    → (length (select p rs) ≡ 0) ↔ All (λ r. p r ≡ false) rs
none-selected p [] = (λ e. tt, λ e. refl)
none-selected p (r ∷ rs) =
    let ih = none-selected p rs in
    elim (Bool-cases (p r)) [
      | inl e ↦ (λ h. absurd (ground (arith, h, e)), λ (f, fs). absurd (ground (arith, e, f)))
      | inr e ↦ (λ h. (e, ih.0 (ground (arith, h, e))), λ (f, fs). ground (arith, e, ih.1 fs))
    ]

All-MeetsBy :
    (m : Map String Classification) (rs : List Requirement)
    → All (MeetsBy m) rs
      ↔ (All (λ r. is_unclassified m r ≡ false) rs × All (λ r. is_below_min m r ≡ false) rs)
All-MeetsBy m [] = (λ v. (tt, tt), λ v. tt)
All-MeetsBy m (r ∷ rs) =
    let t = MeetsBy-tests m r in
    let ih = All-MeetsBy m rs in
    (
      λ (v, vs). let (u, b) = t.0 v in let (us, bs) = ih.0 vs in ((u, us), (b, bs)),
      λ ((u, us), (b, bs)). (t.1 (u, b), ih.1 (us, bs)),
    )

decide_depths-MeetsBy :
    (allow_empty : Bool) (r : Requirement) (rs : List Requirement) (cs : List Classification)
    → ((decide_depths allow_empty (r ∷ rs) cs).pass ≡ true)
      ↔ All (MeetsBy (by_requirement [] cs)) (r ∷ rs)
unfolding decide_depths
decide_depths-MeetsBy allow_empty r rs cs =
    let m = by_requirement [] cs in
    let u = none-selected (is_unclassified m) (r ∷ rs) in
    let b = none-selected (is_below_min m) (r ∷ rs) in
    let v = All-MeetsBy m (r ∷ rs) in
    (
      λ h. v.1 (u.0 (ground (arith, h)), b.0 (ground (arith, h))),
      λ w. let (us, bs) = v.0 w in ground (arith, u.1 us, b.1 bs),
    )

-- The classification of a requirement that stands last in a list.
pub last_of : String → List Classification → Option Classification
last_of id [] = none
last_of id (c ∷ cs) = elim (last_of id cs) [
  | some d ↦ some d
  | none ↦ if c.requirement_id == id then some c else none
]

-- A requirement whose last classification in the list is at least as deep as its minimum.
abbrev pub Meets : List Classification → Requirement → Type 0
Meets cs r = (c : Classification) × (last_of r.id cs ≡ some c) × (r.min_depth ≤ℤ c.observed)

abbrev or_else : Option Classification → Option Classification → Option Classification
or_else none p = p
or_else (some c) p = some c

-- The index of the evaluator leads to the last one.
lookup-by_requirement :
    (id : String) (m : Map String Classification) (cs : List Classification)
    → lookup id (by_requirement m cs) ≡ or_else (last_of id cs) (lookup id m)
unfolding by_requirement last_of
lookup-by_requirement id m [] = refl
lookup-by_requirement id m (c ∷ cs) =
    let ih = lookup-by_requirement id (insert c.requirement_id c m) cs in
    let put = lookup-insert c.requirement_id id c m in
    elim (Option-cases (last_of id cs)) [
      | inl e ↦ elim (Bool-cases (c.requirement_id == id)) [
        | inl f ↦ ground (arith, ih, put, e, f)
        | inr f ↦ ground (arith, ih, put, e, f)
      ]
      | inr (d, e) ↦ ground (arith, ih, e)
    ]

or_else-none : (o : Option Classification) → or_else o none ≡ o
or_else-none none = refl
or_else-none (some c) = refl

last_of-indexed :
    (id : String) (cs : List Classification) → lookup id (by_requirement [] cs) ≡ last_of id cs
unfolding lookup
last_of-indexed id cs = lookup-by_requirement id [] cs ∙ or_else-none (last_of id cs)

MeetsBy-Meets :
    (cs : List Classification) (r : Requirement) → MeetsBy (by_requirement [] cs) r ↔ Meets cs r
MeetsBy-Meets cs r =
    let e = last_of-indexed r.id cs in
    (λ (c, at, h). (c, sym e ∙ at, h), λ (c, at, h). (c, e ∙ at, h))

All-iff :
    (P Q : Requirement → Type 0) (rs : List Requirement)
    → ((r : Requirement) → P r ↔ Q r)
    → All P rs ↔ All Q rs
All-iff P Q [] e = (λ v. v, λ v. v)
All-iff P Q (r ∷ rs) e =
    let ih = All-iff P Q rs e in (λ (v, vs). ((e r).0 v, ih.0 vs), λ (v, vs). ((e r).1 v, ih.1 vs))

decide-some :
    (allow_empty : Bool) (rs : List Requirement) (cs : List Classification)
    → rs ≢ []
    → ((decide_depths allow_empty rs cs).pass ≡ true) ↔ All (Meets cs) rs
decide-some allow_empty [] cs ne = absurd (ne refl)
decide-some allow_empty (r ∷ rs) cs ne =
    let d = decide_depths-MeetsBy allow_empty r rs cs in
    let same = All-iff (MeetsBy (by_requirement [] cs)) (Meets cs) (r ∷ rs) (MeetsBy-Meets cs) in
    (λ h. same.0 (d.0 h), λ v. d.1 (same.1 v))

decide-none :
    (allow_empty : Bool) (rs : List Requirement) (cs : List Classification)
    → rs ≡ []
    → ((decide_depths allow_empty rs cs).pass ≡ allow_empty)
      × ((decide_depths allow_empty rs cs).unevaluated ≡ not allow_empty)
unfolding decide_depths
decide-none allow_empty [] cs e = (ground arith, ground arith)
decide-none allow_empty (r ∷ rs) cs e = cc

-- For a call whose arguments parse, with a store: on an arrow whose snapshot has requirements,
-- the verdict passes exactly when each of them has a classification in the snapshot, the last of
-- which is at least as deep as its minimum; on an arrow with none it passes exactly when the clause
-- allows that, and is unevaluated otherwise.
pub evaluate_min_depth-Meets :
    (s : ClassificationsStore) (args : Map String Value) (arrow_id : String) (allow_empty : Bool)
    (rs : List Requirement) (cs : List Classification) (version : ℕ)
    → require_string_arg args "arrow-id" ≡ ok arrow_id
    → is_blank arrow_id ≡ false
    → allow_empty_arg (lookup "allow-empty" args) ≡ ok allow_empty
    → snapshot_arrow s arrow_id ≡ (rs, cs, version)
    → (b : Verdict) × (evaluate_min_depth (some s) args ≡ ok b)
      × (rs ≢ [] → (b.pass ≡ true) ↔ All (Meets cs) rs)
      × (rs ≡ [] → (b.pass ≡ allow_empty) × (b.unevaluated ≡ not allow_empty))
unfolding evaluate_min_depth
evaluate_min_depth-Meets s args arrow_id allow_empty rs cs version given named allowed snap = (
  decide_depths allow_empty rs cs,
  ground (arith, given, named, allowed, snap),
  decide-some allow_empty rs cs,
  decide-none allow_empty rs cs,
)

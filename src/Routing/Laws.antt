-- ===== src/Routing/Laws.antt =====
-- The tier that `RouteArrow` asks for.
use ghyll.Base.{
  subst, sym, ap, ◌↔◌, ℤ, pos, ◌≤ℤ◌, ◌≡◌, ◌≢◌, refl, ◌⊎◌, inl, inr, true, List, [], ◌∷◌, arith,
  eq_iff, All, ok, Bool-cases, string_key, ◌∙◌,
}
use ghyll.Clause.{Clause}
use ghyll.Routing.{
  RoutingRequirement, is_sensitive, validate_depth_declaration, validate_all, consider,
  consider_all, route_arrow,
}
use ghyll.Depth.{is_known_depth_rank}

-- The tier of a clause: its minimum when it is depth-sensitive, and none otherwise.
abbrev pub Meets : ℤ → Clause → Type 0
Meets tier c = c.depth_type ≡ "depth-sensitive" → c.min_depth_tier ≤ℤ tier

-- A clause that asks for exactly the tier, under the name.
abbrev pub Drives : RoutingRequirement → Clause → Type 0
Drives req c =
    (c.depth_type ≡ "depth-sensitive")
    × (c.min_depth_tier ≡ req.min_tier)
    × (c.clause_id ≡ req.max_depth_clause_id)

abbrev pub Any : (Clause → Type 0) → List Clause → Type 0
Any P [] = ⊥
Any P (c ∷ cs) = P c ⊎ Any P cs

-- What one round does to the tier.
consider-tier :
    (req : RoutingRequirement) (c : Clause)
    → (req.min_tier ≤ℤ (consider req c).min_tier) × Meets (consider req c).min_tier c
unfolding consider
consider-tier req c = (ground arith, λ e. ground (arith, e, eq_iff c.depth_type "depth-sensitive"))

consider_all-tier :
    (req : RoutingRequirement) (cs : List Clause)
    → (req.min_tier ≤ℤ (consider_all req cs).min_tier)
      × All (Meets (consider_all req cs).min_tier) cs
unfolding consider_all
consider_all-tier req [] = (omega arith, tt)
consider_all-tier req (c ∷ cs) =
    let (up, meets) = consider-tier req c in
    let (rest, all) = consider_all-tier (consider req c) cs in
    (omega (arith, up, rest), (λ e. omega (arith, meets e, rest), all))

-- A name is recorded as soon as a tier is asked for.
abbrev IsNamed : RoutingRequirement → Type 0
IsNamed req = req.max_depth_clause_id ≡ "" → req.min_tier ≡ pos 0

consider-step :
    (req : RoutingRequirement) (c : Clause)
    → validate_depth_declaration c ≡ ok tt
    → c.clause_id ≢ ""
    → IsNamed req
    → IsNamed (consider req c) × ((consider req c ≡ req) ⊎ Drives (consider req c) c)
unfolding consider validate_depth_declaration is_known_depth_rank
consider-step req c v named n = elim (Bool-cases (is_sensitive c)) [
  | inl s ↦ ground (
    arith,
    v,
    named,
    n,
    s,
    eq_iff c.depth_type "depth-sensitive",
    eq_iff req.max_depth_clause_id "",
  )
  | inr r ↦ rw r (n, inl refl)
]

validate_all-cons :
    (c : Clause) (cs : List Clause)
    → validate_all (c ∷ cs) ≡ ok tt
    → (validate_depth_declaration c ≡ ok tt) × (validate_all cs ≡ ok tt)
unfolding validate_all
validate_all-cons c cs h = ground (arith, h)

consider_all-Drives :
    (req : RoutingRequirement) (cs : List Clause)
    → validate_all cs ≡ ok tt
    → All (λ c. c.clause_id ≢ "") cs
    → IsNamed req
    → (consider_all req cs ≡ req) ⊎ Any (Drives (consider_all req cs)) cs
unfolding consider_all
consider_all-Drives req [] v named n = inl refl
consider_all-Drives req (c ∷ cs) v (named, rest) n =
    let (vc, vs) = validate_all-cons c cs v in
    let (n', step) = consider-step req c vc named n in
    elim (consider_all-Drives (consider req c) cs vs rest n') [
      | inr a ↦ inr (inr a)
      | inl e ↦ elim step [
        | inl same ↦ inl (e ∙ same)
        | inr drives ↦ inr (inl (subst (λ r. Drives r c) (sym e) drives))
      ]
    ]

abbrev unasked : RoutingRequirement
unasked = record { routed = true; min_tier = pos 0; max_depth_clause_id = "" }

route-inv :
    (cs : List Clause) (req : RoutingRequirement)
    → route_arrow cs ≡ ok req
    → (validate_all cs ≡ ok tt) × (consider_all unasked cs ≡ req)
unfolding route_arrow
route-inv cs req h = ground (arith, h)

consider_all-routed :
    (r : RoutingRequirement) (cs : List Clause) → (consider_all r cs).routed ≡ r.routed
unfolding consider_all consider
consider_all-routed r [] = refl
consider_all-routed r (c ∷ cs) = consider_all-routed (consider r c) cs ∙ ground arith

-- When clauses that all have an id are routed, every one of them has a valid declaration, no
-- clause that is literally depth-sensitive asks for a deeper tier than the arrow gets, and the
-- tier is either none, with no clause named, or that of a depth-sensitive clause, which is the
-- one that is named.
pub route_arrow-max :
    (cs : List Clause) (req : RoutingRequirement)
    → route_arrow cs ≡ ok req
    → All (λ c. c.clause_id ≢ "") cs
    → (req.routed ≡ true)
      × (validate_all cs ≡ ok tt)
      × All (Meets req.min_tier) cs
      × (((req.min_tier ≡ pos 0) × (req.max_depth_clause_id ≡ "")) ⊎ Any (Drives req) cs)
route_arrow-max cs req h named =
    let (v, e) = route-inv cs req h in
    let m = (consider_all-tier unasked cs).1 in
    elim (consider_all-Drives unasked cs v named (λ n. refl)) [
      | inl same ↦
          let r : unasked ≡ req = sym same ∙ e in
          subst
            (λ r.
              (r.routed ≡ true)
              × (validate_all cs ≡ ok tt)
              × All (Meets r.min_tier) cs
              × (((r.min_tier ≡ pos 0) × (r.max_depth_clause_id ≡ "")) ⊎ Any (Drives r) cs))
            r (refl, v, subst (λ r. All (Meets r.min_tier) cs) same m, inl (refl, refl))
      | inr a ↦ (
        ap (λ r. r.routed) (sym e) ∙ consider_all-routed unasked cs,
        v,
        subst (λ r. All (Meets r.min_tier) cs) e m,
        inr (subst (λ r. Any (Drives r) cs) e a),
      )
    ]

-- Clauses are refused exactly when one of them has no valid declaration.
pub route_arrow-total :
    (cs : List Clause)
    → ((req : RoutingRequirement) × (route_arrow cs ≡ ok req)) ↔ (validate_all cs ≡ ok tt)
unfolding route_arrow
route_arrow-total cs =
    (λ (req, h). (route-inv cs req h).0, λ v. (consider_all unasked cs, ground (arith, v)))

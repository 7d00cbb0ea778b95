-- ===== src/Passes/Ending.antt =====
-- What ending, registering and resuming a pass keep.
use ghyll.Base.{
  ℕ, pos, String, ◌≡◌, ◌≢◌, refl, sym, ◌∙◌, ap, subst, inl, inr, ◌⊎◌, true, some, List, [], arith,
  ok, err, Result, get_elem?, set, nat_eq, get_elem?-set, Option-cases, Bool-cases, string_key,
}
use ghyll.Base.Map.{Map, insert}
use ghyll.RoleLock.{slot_key, release}
use ghyll.RoleLock.Slots.{release-slots}
use ghyll.Passes.Exclusion.{IsExclusive, open_pass-IsExclusive}
use ghyll.Passes.{
  close_with, register_pass, mark_recovered, resume_pass, unregister_pass, closed, aborted,
  PassError, Pass, PassState, PassOptions, World, Emission, active, open_pass, ended, end_pass,
}

-- The slot of a change to one pass.
set-cases :
    (ps : List Pass) (ref : ℕ) (p p' : Pass) (i : ℕ) (q : Pass)
    → get_elem? ps ref ≡ some p
    → get_elem? (set ps ref p') i ≡ some q
    → ((i ≡ ref) × (q ≡ p')) ⊎ ((i ≢ ref) × (get_elem? ps i ≡ some q))
set-cases ps ref p p' i q at h = elim (Bool-cases (nat_eq ref i)) [
  | inl e ↦ inl (ground (arith, e), ground (arith, e, h, get_elem?-set ps ref i p' at))
  | inr e ↦ inr (ground (arith, e), ground (arith, e, h, get_elem?-set ps ref i p' at))
]

-- The names and the lock of two passes agree.
pub record SameHolder (p q : Pass) : Type 0 where
  pub id : p.id ≡ q.id
  pub role : p.role ≡ q.role
  pub context : p.context ≡ q.context
  pub token : p.lock_token ≡ q.lock_token

touched-old :
    (w : World) (ref : ℕ) (p p' : Pass)
    → get_elem? w.passes ref ≡ some p
    → SameHolder p' p
    → p'.state ≡ p.state
    → (i : ℕ) (q : Pass) → get_elem? (set w.passes ref p') i ≡ some q
    → (q0 : Pass) × (get_elem? w.passes i ≡ some q0) × SameHolder q q0 × (q.state ≡ q0.state)
touched-old w ref p p' at same st i q h = elim (set-cases w.passes ref p p' i q at h) [
  | inl (e, f) ↦ (
    p,
    ground (arith, e, at),
    record {
      id = ground (arith, f, same.id);
      role = ground (arith, f, same.role);
      context = ground (arith, f, same.context);
      token = ground (arith, f, same.token);
    },
    ground (arith, f, st),
  )
  | inr (n, g) ↦ (q, g, record { id = refl; role = refl; context = refl; token = refl }, refl)
]

-- A change to a pass that leaves its name, its lock and its state alone.
pub touched-IsExclusive :
    (w : World) (ref : ℕ) (p p' : Pass) (m : Map String ℕ)
    → get_elem? w.passes ref ≡ some p
    → SameHolder p' p
    → p'.state ≡ p.state
    → IsExclusive w
    → IsExclusive (record w { passes = set w.passes ref p'; registry = m })
touched-IsExclusive w ref p p' m at same st v = record {
  signed = λ i q h.
      let (q0, g, k, s) = touched-old w ref p p' at same st i q h in
      ground (arith, v.signed i q0 g, k.id, k.role, k.context, k.token);
  holds = λ i q h e.
      let (q0, g, k, s) = touched-old w ref p p' at same st i q h in
      let (l, held, by, forever) = v.holds i q0 g (sym s ∙ e) in
      (l, ground (arith, held, k.token), by ∙ sym k.id, forever);
  apart = λ i j x y hx hy ex ey one.
      let (x0, gx, kx, sx) = touched-old w ref p p' at same st i x hx in
      let (y0, gy, ky, sy) = touched-old w ref p p' at same st j y hy in
      v.apart i j x0 y0 gx gy (sym sx ∙ ex) (sym sy ∙ ey)
        (ap (λ t. t.key) (sym kx.token) ∙ one ∙ ap (λ t. t.key) ky.token);
}

-- The end of a pass frees its slot and no other.
ended-IsExclusive :
    (now : ℕ) (w : World) (ref : ℕ) (p : Pass) (reason : String) (final : PassState)
    → get_elem? w.passes ref ≡ some p
    → p.state ≡ active
    → final ≢ active
    → IsExclusive w
    → IsExclusive (record w {
      passes = set w.passes ref (ended now p reason final);
      locks = release w.locks p.lock_token;
    })
ended-IsExclusive now w ref p reason final at was fin v =
    let p' = ended now p reason final in
    record {
      signed = λ i q h. elim (set-cases w.passes ref p p' i q at h) [
        | inl (e, f) ↦ ground (arith, f, v.signed ref p at)
        | inr (n, g) ↦ v.signed i q g
      ];
      holds = λ i q h e. elim (set-cases w.passes ref p p' i q at h) [
        | inl (e', f) ↦ absurd (fin (ap (λ x. x.state) (sym f) ∙ e))
        | inr (n, g) ↦
            let (l, held, by, forever) = v.holds i q g e in
            (
              l,
              (release-slots w.locks p.lock_token q.lock_token.key l).1
                  (held, λ (k, b). n (v.apart i ref q p g at e was k)),
              by,
              forever,
            )
      ];
      apart = λ i j x y hx hy ex ey same. elim (set-cases w.passes ref p p' i x at hx) [
        | inl (e', f) ↦ absurd (fin (ap (λ x. x.state) (sym f) ∙ ex))
        | inr (n, g) ↦ elim (set-cases w.passes ref p p' j y at hy) [
          | inl (e', f) ↦ absurd (fin (ap (λ x. x.state) (sym f) ∙ ey))
          | inr (m, g') ↦ v.apart i j x y g g' ex ey same
        ]
      ];
    }

state-cases : (s : PassState) → (s ≡ active) ⊎ (s ≡ closed) ⊎ (s ≡ aborted)
state-cases active = inl refl
state-cases closed = inr (inl refl)
state-cases aborted = inr (inr refl)

pub close_with-IsExclusive :
    (now : ℕ) (w : World) (ref : ℕ) (reason : String) (final : PassState)
    → final ≢ active
    → IsExclusive w
    → IsExclusive (close_with now w ref reason final).0
unfolding close_with end_pass
close_with-IsExclusive now w ref reason final fin v = elim (Option-cases (get_elem? w.passes ref)) [
  | inl n ↦ rw (n, close_with) v
  | inr (p, at) ↦ elim (state-cases p.state) [
    | inl e ↦
        rw (at, close_with, e, end_pass) (ended-IsExclusive now w ref p reason final at e fin v)
    | inr (inl e) ↦ rw (at, close_with, e, end_pass) v
    | inr (inr e) ↦ rw (at, close_with, e, end_pass) v
  ]
]

pub register_pass-IsExclusive :
    (now : ℕ) (w : World) (ref : ℕ) → IsExclusive w → IsExclusive (register_pass now w ref).0
unfolding register_pass
register_pass-IsExclusive now w ref v = elim (Option-cases (get_elem? w.passes ref)) [
  | inl n ↦ rw (n, register_pass) v
  | inr (p, at) ↦
      rw (at, register_pass)
        (touched-IsExclusive w ref p (record p { has_registry = true }) (insert p.id ref w.registry)
          at (record { id = refl; role = refl; context = refl; token = refl }) refl v)
]

mark_recovered-IsExclusive :
    (at : ℕ) (w : World) (ref : ℕ) → IsExclusive w → IsExclusive (mark_recovered at w ref).0
unfolding mark_recovered
mark_recovered-IsExclusive now w ref v = elim (Option-cases (get_elem? w.passes ref)) [
  | inl n ↦ rw (n, mark_recovered) v
  | inr (p, at) ↦
      rw (at, mark_recovered)
        (touched-IsExclusive w ref p (record p { recovered_at = now }) w.registry at
          (record { id = refl; role = refl; context = refl; token = refl }) refl v)
]

open_pass-cases :
    (r : Result PassError (ℕ × World))
    → ((e : PassError) × (r ≡ err e)) ⊎ ((ref : ℕ) × (w : World) × (r ≡ ok (ref, w)))
open_pass-cases (err e) = inl (e, refl)
open_pass-cases (ok (ref, w)) = inr (ref, w, refl)

resumed-world :
    (now opened recovered : ℕ) (w w' w1 : World) (o : PassOptions) (ref i : ℕ)
    (sent : List Emission)
    → open_pass now opened w (record o { lock_ttl = pos 0 }) ≡ ok (i, w1)
    → resume_pass now opened recovered w o ≡ ok (ref, w', sent)
    → (mark_recovered recovered (register_pass now w1 i).0 i).0 ≡ w'
unfolding resume_pass
resumed-world now opened recovered w w' w1 o ref i sent f h = ground (arith, h, f)

pub resume_pass-IsExclusive :
    (now opened recovered : ℕ) (w w' : World) (o : PassOptions) (ref : ℕ) (sent : List Emission)
    → IsExclusive w
    → resume_pass now opened recovered w o ≡ ok (ref, w', sent)
    → IsExclusive w'
unfolding resume_pass
resume_pass-IsExclusive now opened recovered w w' o ref sent v h =
    elim (open_pass-cases (open_pass now opened w (record o { lock_ttl = pos 0 }))) [
      | inl (e, f) ↦ absurd (ground (arith, h, f))
      | inr (i, w1, f) ↦
          let v1 =
            open_pass-IsExclusive now opened w w1 (record o { lock_ttl = pos 0 }) i v refl f in
          let v2 = register_pass-IsExclusive now w1 i v1 in
          let v3 = mark_recovered-IsExclusive recovered (register_pass now w1 i).0 i v2 in
          subst IsExclusive (resumed-world now opened recovered w w' w1 o ref i sent f h) v3
    ]

pub unregister_pass-IsExclusive :
    (w : World) (id : String) → IsExclusive w → IsExclusive (unregister_pass w id)
unfolding unregister_pass
unregister_pass-IsExclusive w id v = record { signed = v.signed; holds = v.holds; apart = v.apart }

-- A pass ends once: after a `Close` or an `Abort`, another one, at any time and for any reason,
-- changes nothing and tells nobody.
close_with-once :
    (now later : ℕ) (w : World) (ref : ℕ) (reason again : String) (final last : PassState)
    → final ≢ active
    → close_with later (close_with now w ref reason final).0 ref again last
      ≡ ((close_with now w ref reason final).0, [])
unfolding close_with end_pass
close_with-once now later w ref reason again final last fin =
    elim (Option-cases (get_elem? w.passes ref)) [
      | inl n ↦ ground (arith, n)
      | inr (p, at) ↦
          let here = get_elem?-set w.passes ref ref (ended now p reason final) at in
          elim (state-cases p.state) [
            | inl e ↦ elim (state-cases final) [
              | inl f ↦ absurd (fin f)
              | inr (inl f) ↦ ground (arith, at, e, f, here)
              | inr (inr f) ↦ ground (arith, at, e, f, here)
            ]
            | inr (inl e) ↦ ground (arith, at, e)
            | inr (inr e) ↦ ground (arith, at, e)
          ]
    ]

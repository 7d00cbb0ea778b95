-- ===== src/Passes/History.antt =====
-- Any sequence of calls on the passes.
use ghyll.Base.{
  ℕ, pos, String, ◌≡◌, refl, some, List, [], ◌∷◌, arith, ok, err, Result, get_elem?, All,
}
use ghyll.Passes.{
  Pass, PassOptions, PassError, World, Emission, new_world, active, closed, aborted, open_pass,
  close_pass, abort_pass, register_pass, resume_pass, unregister_pass,
}
use ghyll.Passes.Exclusion.{IsExclusive, new_world-IsExclusive, open_pass-IsExclusive}
use ghyll.Passes.Ending.{
  close_with-IsExclusive, register_pass-IsExclusive, resume_pass-IsExclusive,
  unregister_pass-IsExclusive,
}

-- The calls, with the times that they read.
pub data PassCall : Type 0 where
  opening : ℕ → ℕ → PassOptions → PassCall
  closing aborting : ℕ → ℕ → String → PassCall
  registering : ℕ → ℕ → PassCall
  resuming : ℕ → ℕ → ℕ → PassOptions → PassCall
  unregistering : String → PassCall

abbrev opened_world : World → Result PassError (ℕ × World) → World
opened_world w (ok (ref, w')) = w'
opened_world w (err e) = w

abbrev resumed_world : World → Result PassError (ℕ × World × List Emission) → World
resumed_world w (ok (ref, w', sent)) = w'
resumed_world w (err e) = w

unfoldable pub pass_step : World → PassCall → World
pass_step w (opening now opened o) = opened_world w (open_pass now opened w o)
pass_step w (closing now ref reason) = (close_pass now w ref reason).0
pass_step w (aborting now ref reason) = (abort_pass now w ref reason).0
pass_step w (registering now ref) = (register_pass now w ref).0
pass_step w (resuming now opened recovered o) =
    resumed_world w (resume_pass now opened recovered w o)
pass_step w (unregistering id) = unregister_pass w id

unfoldable pub pass_run : World → List PassCall → World
unfolding pass_step
pass_run w [] = w
pass_run w (c ∷ cs) = pass_run (pass_step w c) cs

-- A pass that is opened has no time limit on its lock.
abbrev pub IsUntimed : PassCall → Type 0
IsUntimed (opening now opened o) = o.lock_ttl ≡ pos 0
IsUntimed _ = Unit

opened_world-IsExclusive :
    (w : World) (r : Result PassError (ℕ × World))
    → IsExclusive w
    → ((ref : ℕ) (w' : World) → r ≡ ok (ref, w') → IsExclusive w')
    → IsExclusive (opened_world w r)
opened_world-IsExclusive w (ok (ref, w')) v k = k ref w' refl
opened_world-IsExclusive w (err e) v k = v

resumed_world-IsExclusive :
    (w : World) (r : Result PassError (ℕ × World × List Emission))
    → IsExclusive w
    → ((ref : ℕ) (w' : World) (sent : List Emission) → r ≡ ok (ref, w', sent) → IsExclusive w')
    → IsExclusive (resumed_world w r)
resumed_world-IsExclusive w (ok (ref, w', sent)) v k = k ref w' sent refl
resumed_world-IsExclusive w (err e) v k = v

pass_step-IsExclusive :
    (w : World) (c : PassCall) → IsUntimed c → IsExclusive w → IsExclusive (pass_step w c)
unfolding pass_step close_pass abort_pass
pass_step-IsExclusive w (opening now opened o) u v =
    opened_world-IsExclusive w (open_pass now opened w o) v
      (λ ref w' h. open_pass-IsExclusive now opened w w' o ref v u h)
pass_step-IsExclusive w (closing now ref reason) u v =
    close_with-IsExclusive now w ref reason closed (λ e. cc) v
pass_step-IsExclusive w (aborting now ref reason) u v =
    close_with-IsExclusive now w ref reason aborted (λ e. cc) v
pass_step-IsExclusive w (registering now ref) u v = register_pass-IsExclusive now w ref v
pass_step-IsExclusive w (resuming now opened recovered o) u v =
    resumed_world-IsExclusive w (resume_pass now opened recovered w o) v
      (λ ref w' sent h. resume_pass-IsExclusive now opened recovered w w' o ref sent v h)
pass_step-IsExclusive w (unregistering id) u v = unregister_pass-IsExclusive w id v

pass_run-IsExclusive :
    (w : World) (cs : List PassCall)
    → All IsUntimed cs
    → IsExclusive w
    → IsExclusive (pass_run w cs)
unfolding pass_run
pass_run-IsExclusive w [] u v = v
pass_run-IsExclusive w (c ∷ cs) (u, us) v =
    pass_run-IsExclusive (pass_step w c) cs us (pass_step-IsExclusive w c u v)

pub pass_run-new-IsExclusive :
    (cs : List PassCall) → All IsUntimed cs → IsExclusive (pass_run new_world cs)
pass_run-new-IsExclusive cs u = pass_run-IsExclusive new_world cs u new_world-IsExclusive

-- After any calls in which passes are opened without a time limit, two open passes with the same
-- role in the same context are one pass.
pub pass_run-exclusive :
    (cs : List PassCall)
    → All IsUntimed cs
    → (i j : ℕ) (p q : Pass) → get_elem? (pass_run new_world cs).passes i ≡ some p
    → get_elem? (pass_run new_world cs).passes j ≡ some q
    → p.state ≡ active
    → q.state ≡ active
    → p.role ≡ q.role
    → p.context ≡ q.context
    → i ≡ j
pass_run-exclusive cs u i j p q hp hq ep eq er ec =
    let v = pass_run-new-IsExclusive cs u in
    v.apart i j p q hp hq ep eq (ground (arith, v.signed i p hp, v.signed j q hq, er, ec))

-- ===== src/Runner/Replacing.antt =====
-- The registering of evaluators, as a run sees it.
use ghyll.Base.{
  ◌+◌, String, ◌≡◌, ◌≢◌, refl, inr, true, false, ap, ◌∙◌, if◌then◌else◌, Option, none, some, arith,
  eq_iff, ◌==◌, string_key,
}
use ghyll.Base.Map.{lookup, insert, member, lookup-insert}
use ghyll.Clause.{Clause}
use ghyll.Runner.{
  Runner, Registry, Registered, EvaluatorIdentity, Invocation, generation_of, replace_plain,
  resolve,
}

module _ {R : Type 0} (r : Runner R) (g g' : Registry R) (concept : String)
    (e : Clause → Invocation) where
  -- The look-up as a function of what the two tables have.
  pick :
      Option (Registered (R → Clause → Invocation))
      → Option (Registered (Clause → Invocation))
      → Option (EvaluatorIdentity × (Clause → Invocation))
  pick a b = elim a [
    | some e ↦ some (e.identity, λ c. e.fn r.itself c)
    | none ↦ elim b [ some e ↦ some (e.identity, e.fn) | none ↦ none ]
  ]

  replaced : Registered (Clause → Invocation)
  replaced = record {
    fn = e;
    identity = record { concept = concept; generation = generation_of g concept + 1 };
  }

  replace_plain-inv :
      replace_plain g concept e ≡ inr g'
      → (member concept g.by ≡ true)
        × (g'.by ≡ insert concept replaced g.by)
        × (g'.by_runner ≡ g.by_runner)
        × (g'.gen ≡ insert concept (generation_of g concept + 1) g.gen)
  unfolding replace_plain replaced
  replace_plain-inv h = (ground (arith, h), ground (arith, h), ground (arith, h), ground (arith, h))

  resolve-new :
      replace_plain g concept e ≡ inr g'
      → lookup concept g.by_runner ≡ none
      → resolve r g' concept
        ≡ some (record { concept = concept; generation = generation_of g concept + 1 }, e)
  unfolding resolve replaced
  resolve-new h hidden =
      let (was, by, runners, gen) = replace_plain-inv h in
      let here : lookup concept g'.by ≡ some replaced =
        ap (lookup concept) by
        ∙ lookup-insert concept concept replaced g.by
        ∙ ap (λ b. if b then some replaced else lookup concept g.by)
            ((string_key.same_iff concept concept).1 refl) in
      let none_here : lookup concept g'.by_runner ≡ none = ap (lookup concept) runners ∙ hidden in
      rw (none_here, resolve, here) refl

  resolve-other :
      replace_plain g concept e ≡ inr g'
      → (other : String) → other ≢ concept
      → resolve r g' other ≡ resolve r g other
  unfolding resolve pick
  resolve-other h other ne =
      let (was, by, runners, gen) = replace_plain-inv h in
      let differs : (concept == other) ≡ false = ground (arith, ne, eq_iff concept other) in
      let there : lookup other g'.by ≡ lookup other g.by =
        ap (lookup other) by
        ∙ lookup-insert concept other replaced g.by
        ∙ ap (λ b. if b then some replaced else lookup other g.by) differs in
      let same_runners : lookup other g'.by_runner ≡ lookup other g.by_runner =
        ap (lookup other) runners in
      ap (λ o. pick o (lookup other g'.by)) same_runners
      ∙ ap (λ o. pick (lookup other g.by_runner) o) there

  -- A hot swap of a plain evaluator that no runner-typed one hides was registered before; from
  -- then on a run resolves its concept to the new evaluator, under a generation that is one
  -- higher, and every other concept as before.
  pub replace_plain-resolve :
      replace_plain g concept e ≡ inr g'
      → lookup concept g.by_runner ≡ none
      → (member concept g.by ≡ true)
        × (generation_of g' concept ≡ generation_of g concept + 1)
        × (resolve r g' concept
            ≡ some (record { concept = concept; generation = generation_of g concept + 1 }, e))
        × ((other : String) → other ≢ concept → resolve r g' other ≡ resolve r g other)
  unfolding resolve replaced
  replace_plain-resolve h hidden =
      let (was, by, runners, gen) = replace_plain-inv h in
      (
        was,
        ground (
          arith,
          gen,
          eq_iff concept concept,
          lookup-insert concept concept (generation_of g concept + 1) g.gen,
        ),
        resolve-new h hidden,
        resolve-other h,
      )

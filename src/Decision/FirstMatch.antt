-- ===== src/Decision/FirstMatch.antt =====
-- `Evaluate` picks the first rule that may fire and matches, or the default action.
use vortara.Base.{
  String, Bool, true, false, List, [], ◌∷◌, Option, none, some, All, ◌≡◌, ◌↔◌, ◌⊎◌, inl, inr, refl,
  arith,
}
use vortara.Config.{RuleConfig, DecisionsConfig}
use vortara.Decision.{
  Input, Plan, eval_when, Checker, fired_before, apply_rule, with_default, empty_plan, rule_loop,
  evaluate, map_result,
}
use vortara.Errors.{Result, ok, err}
use vortara.Runtime.{Runtime}

pub map_result-eq-ok :
    (f : Plan → Plan) (r : Result Plan) (p : Plan)
    → map_result f r ≡ ok p
    → (q : Plan) × (r ≡ ok q) × (p ≡ f q)
map_result-eq-ok f (ok q) p h = (q, refl, cc)
map_result-eq-ok f (err e) p h = cc

-- The default action changes no rule.
pub triggered-with_default :
    (cfg : DecisionsConfig) (p : Plan) → (with_default cfg p).triggered_rules ≡ p.triggered_rules
unfolding with_default
triggered-with_default cfg p = ground arith

module _ (rt : Runtime) (inp : Input) (checker : Checker) where
  -- A rule that is passed over: it fired before, or its predicate does not match.
  abbrev pub IsPassed : RuleConfig → Type 0
  IsPassed r =
      (fired_before checker r ≡ ok true)
      ⊎ ((fired_before checker r ≡ ok false) × ((eval_when rt inp r.when).0 ≡ false))

  abbrev pub Fires : RuleConfig → Type 0
  Fires r = (fired_before checker r ≡ ok false) × ((eval_when rt inp r.when).0 ≡ true)

  -- The first rule of the list that fires, if the rules before it are passed over.
  pub data FirstMatch : List RuleConfig → Option RuleConfig → Type 0 where
    nobody : FirstMatch [] none
    passes :
        {r : RuleConfig} {rs : List RuleConfig} {o : Option RuleConfig}
        → IsPassed r
        → FirstMatch rs o
        → FirstMatch (r ∷ rs) o
    wins : {r : RuleConfig} {rs : List RuleConfig} → Fires r → FirstMatch (r ∷ rs) (some r)

  module _ (now : String) where
    -- The plan that the rule makes of an empty one.
    abbrev pub plan_of : Option RuleConfig → Plan
    plan_of none = empty_plan
    plan_of (some r) = apply_rule now r (eval_when rt inp r.when).1 empty_plan

    rule_loop_of-FirstMatch :
        {rs : List RuleConfig} {o : Option RuleConfig}
        → FirstMatch rs o
        → rule_loop rt now inp checker rs empty_plan ≡ ok (plan_of o)
    unfolding rule_loop
    rule_loop_of-FirstMatch nobody = refl
    rule_loop_of-FirstMatch (passes (inl p) m) = rw (p, rule_loop) (rule_loop_of-FirstMatch m)
    rule_loop_of-FirstMatch (passes (inr (p, q)) m) =
        rw (p, q, rule_loop) (rule_loop_of-FirstMatch m)
    rule_loop_of-FirstMatch (wins (p, q)) = rw (p, q, rule_loop)

    abbrev Explained : List RuleConfig → Plan → Type 0
    Explained rs p = (o : Option RuleConfig) × FirstMatch rs o × (p ≡ plan_of o)

    explain_passed :
        (r : RuleConfig) (rs : List RuleConfig) (p : Plan)
        → IsPassed r
        → Explained rs p
        → Explained (r ∷ rs) p
    explain_passed r rs p h (o, m, e) = (o, passes h m, e)

    FirstMatch_of-rule_loop :
        (rs : List RuleConfig) (p : Plan)
        → rule_loop rt now inp checker rs empty_plan ≡ ok p
        → Explained rs p
    unfolding rule_loop
    FirstMatch_of-rule_loop [] p h = (none, nobody, cc)
    FirstMatch_of-rule_loop (r ∷ rs) p h =
        split (fired_before checker r) refl (eval_when rt inp r.when).0 refl
          (FirstMatch_of-rule_loop rs p)
      where
        split :
            (f : Result Bool)
            → fired_before checker r ≡ f
            → (b : Bool) → (eval_when rt inp r.when).0 ≡ b
            → (rule_loop rt now inp checker rs empty_plan ≡ ok p → Explained rs p)
            → Explained (r ∷ rs) p
        split (err e) ef b eb ih = absurd (ground arith)
        split (ok true) ef b eb ih = explain_passed r rs p (inl ef) (ih (ground arith))
        split (ok false) ef true eb ih = (some r, wins (ef, eb), ground arith)
        split (ok false) ef false eb ih = explain_passed r rs p (inr (ef, eb)) (ih (ground arith))

    module _ (cfg : DecisionsConfig) where
      -- `evaluate` returns a plan exactly when some rule is the first match, or none is, and the
      -- plan is then what that rule makes of the empty plan, with the default action for none.
      pub evaluate_iff :
          (p : Plan)
          → (evaluate rt now cfg inp checker ≡ ok p) ↔ (
              (o : Option RuleConfig) × FirstMatch cfg.rules o × (p ≡ with_default cfg (plan_of o)))
      unfolding evaluate
      evaluate_iff p = (
        λ h. explain p (map_result-eq-ok (with_default cfg) _ p h),
        λ h. rw (rule_loop_of-FirstMatch h.1, h.2),
      )
        where
          explain :
              (p : Plan)
              → (q : Plan) × (rule_loop rt now inp checker cfg.rules empty_plan ≡ ok q)
                × (p ≡ with_default cfg q)
              → (o : Option RuleConfig) × FirstMatch cfg.rules o
                × (p ≡ with_default cfg (plan_of o))
          explain p (q, e, d) =
              let (o, m, x) = FirstMatch_of-rule_loop cfg.rules q e in (o, m, rw (← x) d)

      OnceWinner : Option RuleConfig → Type 0
      OnceWinner none = Unit
      OnceWinner (some r) = Fires r × (r.once ≡ true)

      once_winner :
          {rs : List RuleConfig} {o : Option RuleConfig}
          → FirstMatch rs o
          → All (λ r. r.once ≡ true) rs
          → OnceWinner o
      unfolding OnceWinner
      once_winner nobody h = tt
      once_winner (passes p m) h = once_winner m h.1
      once_winner (wins f) h = (f, h.0)

      triggered_once :
          (has_fired : String → Result Bool) (o : Option RuleConfig)
          → checker ≡ some has_fired
          → OnceWinner o
          → All (λ name. has_fired name ≡ ok false) (plan_of o).triggered_rules
      unfolding OnceWinner apply_rule fired_before
      triggered_once has_fired none hc w = tt
      triggered_once has_fired (some r) hc w = (by_store hc w.0.0 w.1, tt)
        where
          by_store :
              checker ≡ some has_fired
              → fired_before checker r ≡ ok false
              → r.once ≡ true
              → has_fired r.name ≡ ok false
          by_store hc hf ho = ground arith

      -- A rule marked `once` that has fired for the entity does not fire again: where every rule is
      -- marked, the plan triggers only rules of which the store says that they have not fired.
      pub once_rules_fire_once :
          (has_fired : String → Result Bool) (p : Plan)
          → checker ≡ some has_fired
          → All (λ r. r.once ≡ true) cfg.rules
          → evaluate rt now cfg inp checker ≡ ok p
          → All (λ name. has_fired name ≡ ok false) p.triggered_rules
      once_rules_fire_once has_fired p hc ho h =
          let (o, m, e) = (evaluate_iff p).0 h in
          rw (e, triggered-with_default) (triggered_once has_fired o hc (once_winner m ho))

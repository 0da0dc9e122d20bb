-- ===== src/Decision/Trace/Agreement.antt =====
-- `Trace` and `Evaluate` agree where no look-up of a fired rule fails.
use vortara.Base.{
  String, Bool, true, false, List, [], ◌∷◌, All, ◌≡◌, refl, ap, sym, arith, Bool-cases, inl, inr,
}
use vortara.Config.{RuleConfig, DecisionsConfig}
use vortara.Decision.{
  Input, Plan, eval_when, Checker, fired_before, apply_rule, with_default, empty_plan, rule_loop,
  evaluate, map_result,
}
use vortara.Decision.Trace.{RuleTrace, finish_trace, trace_loop, trace}
use vortara.Errors.{GoError, Result, ok, err, check_rule_firing}
use vortara.Runtime.{Runtime}

-- Every look-up that the rules may need returns an answer.
abbrev pub IsReliable : Checker → List RuleConfig → Type 0
IsReliable checker = All (λ r. (b : Bool) × (fired_before checker r ≡ ok b))

module _ (rt : Runtime) (now : String) (inp : Input) (checker : Checker) where
  -- Once a rule has won, the rest changes the traces only.
  trace_loop_won :
      (rules : List RuleConfig) (plan : Plan) (traces : List RuleTrace)
      → IsReliable checker rules
      → ((trace_loop rt now inp checker rules true plan traces).0 ≡ plan)
        × ((trace_loop rt now inp checker rules true plan traces).2 ≡ ok tt)
  unfolding trace_loop
  trace_loop_won [] plan traces h = (refl, refl)
  trace_loop_won (r ∷ rules) plan traces ((true, e), h) =
      rw (e, trace_loop) (trace_loop_won rules plan _ h)
  trace_loop_won (r ∷ rules) plan traces ((false, e), h) =
      elim (Bool-cases (eval_when rt inp r.when).0) [
        | inl m ↦ rw (e, m, trace_loop) (trace_loop_won rules plan _ h)
        | inr m ↦ rw (e, m, trace_loop) (trace_loop_won rules plan _ h)
      ]

  -- Until then it makes the plan that the loop of `Evaluate` makes.
  trace_loop-rule_loop :
      (rules : List RuleConfig) (plan : Plan) (traces : List RuleTrace)
      → IsReliable checker rules
      → (rule_loop rt now inp checker rules plan
          ≡ ok (trace_loop rt now inp checker rules false plan traces).0)
        × ((trace_loop rt now inp checker rules false plan traces).2 ≡ ok tt)
  unfolding trace_loop rule_loop
  trace_loop-rule_loop [] plan traces h = (refl, refl)
  trace_loop-rule_loop (r ∷ rules) plan traces ((true, e), h) =
      rw (e, trace_loop, rule_loop) (trace_loop-rule_loop rules plan _ h)
  trace_loop-rule_loop (r ∷ rules) plan traces ((false, e), h) =
      elim (Bool-cases (eval_when rt inp r.when).0) [
        | inl m ↦
            let (kept, fine) = trace_loop_won rules _ _ h in
            rw (e, m, trace_loop, rule_loop) (ap ok (sym kept), fine)
        | inr m ↦ rw (e, m, trace_loop, rule_loop) (trace_loop-rule_loop rules plan _ h)
      ]

  -- Where every look-up returns, `Trace` has no error and its plan is the one that `Evaluate` makes.
  pub trace-evaluate :
      (cfg : DecisionsConfig)
      → IsReliable checker cfg.rules
      → (evaluate rt now cfg inp checker ≡ ok (trace rt now cfg inp checker).0)
        × ((trace rt now cfg inp checker).2 ≡ ok tt)
  unfolding evaluate trace
  trace-evaluate cfg h = finished _ _ (trace_loop-rule_loop cfg.rules empty_plan [] h)
    where
      finished :
          (r : Result Plan) (t : Plan × List RuleTrace × Result (Unit {0}))
          → (r ≡ ok t.0) × (t.2 ≡ ok tt)
          → (map_result (with_default cfg) r ≡ ok (finish_trace cfg t).0)
            × ((finish_trace cfg t).2 ≡ ok tt)
      finished (ok q) (p, ts, ok u) h = ground arith
      finished (err e) (p, ts, ok u) h = ground arith
      finished r (p, ts, err e) h = ground arith

  -- Not so where a look-up fails behind the winner: with a first rule that wins and a second whose
  -- look-up fails, `Evaluate` returns the plan and `Trace` an error.
  pub trace_fails_behind_winner :
      (cfg : DecisionsConfig) (r f : RuleConfig) (rules : List RuleConfig) (e : GoError)
      → cfg.rules ≡ r ∷ f ∷ rules
      → fired_before checker r ≡ ok false
      → (eval_when rt inp r.when).0 ≡ true
      → fired_before checker f ≡ err e
      → ((p : Plan) × (evaluate rt now cfg inp checker ≡ ok p))
        × ((trace rt now cfg inp checker).2 ≡ err (check_rule_firing f.name e))
  unfolding evaluate trace
  trace_fails_behind_winner cfg r f rules e hc hr hm hf = (
    (
      with_default cfg (apply_rule now r (eval_when rt inp r.when).1 empty_plan),
      rw hc (rw (hr, hm, rule_loop)),
    ),
    rw hc (rw (hr, hf, trace_loop)),
  )

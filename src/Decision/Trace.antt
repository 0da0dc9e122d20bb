-- ===== src/Decision/Trace.antt =====
-- internal/decision/trace.go: every rule is evaluated, for the explanation of a decision.
pub mod Agreement
pub mod Winner
use vortara.Base.{String, Bool, true, false, not, ◌&&◌, ◌||◌, List, [], ◌∷◌, ◌++◌, if◌then◌else◌}
use vortara.Config.{RuleConfig, DecisionsConfig}
use vortara.Decision.{
  Input, Plan, Verdict, eval_when, Checker, fired_before, apply_rule, with_default, empty_plan,
}
use vortara.Errors.{GoError, check_rule_firing, Result, ok, err}
use vortara.Runtime.{Runtime}

pub record RuleTrace : Type 0 where
  pub rule : String
  pub action : String
  pub matched : Bool
  pub reason : String
  pub fired_already : Bool
  pub winner : Bool

unfoldable pub new_trace : RuleConfig → RuleTrace
new_trace rule = record {
  rule = rule.name;
  action = rule.action;
  matched = false;
  reason = "";
  fired_already = false;
  winner = false;
}

unfoldable pub matched_trace : RuleConfig → Verdict → Bool → RuleTrace
matched_trace rule v won = record (new_trace rule) {
  matched = v.0;
  reason = v.1;
  winner = v.0 && not won;
}

-- The loop of `Trace`; `won` says that a rule has matched. On an error the caller has the plan and
-- the traces made so far.
unfoldable pub trace_loop :
    Runtime
    → String
    → Input
    → Checker
    → List RuleConfig
    → Bool
    → Plan
    → List RuleTrace
    → Plan × List RuleTrace × Result (Unit {0})
unfolding new_trace matched_trace
trace_loop rt now inp checker [] won plan traces = (plan, traces, ok tt)
trace_loop rt now inp checker (rule ∷ rules) won plan traces =
    let v = eval_when rt inp rule.when in
    let passed =
      trace_loop rt now inp checker rules won plan
        (traces ++ record (new_trace rule) { fired_already = true } ∷ []) in
    let next =
      trace_loop rt now inp checker rules (won || v.0)
        (if v.0 && not won then apply_rule now rule v.1 plan else plan)
        (traces ++ matched_trace rule v won ∷ []) in
    elim (fired_before checker rule) [
      | err e ↦ (plan, traces, err (check_rule_firing rule.name e))
      | ok true ↦ passed
      | ok false ↦ next
    ]

abbrev pub finish_trace :
    DecisionsConfig
    → Plan × List RuleTrace × Result (Unit {0})
    → Plan × List RuleTrace × Result (Unit {0})
finish_trace cfg (plan, traces, ok u) = (with_default cfg plan, traces, ok u)
finish_trace cfg (plan, traces, err e) = (plan, traces, err e)

unfoldable pub trace :
    Runtime → String → DecisionsConfig → Input → Checker → Plan × List RuleTrace × Result (Unit {0})
unfolding trace_loop apply_rule with_default fired_before
trace rt now cfg inp checker =
    finish_trace cfg (trace_loop rt now inp checker cfg.rules false empty_plan [])

-- ===== src/Decision/Tests.antt =====
-- Tests of internal/decision on a contact that was won.
use vortara.Config.Tests.{accepted}
use vortara.Config.Validate.Valid.{IsAction, evaluate-IsAction}
use vortara.Samples.{spec}
use vortara.Base.{
  String, [], Option, some, true, false, Bool, ◌==◌, if◌then◌else◌, All, ◌≡◌, ◌↔◌, refl, lookup,
  insert,
}
use vortara.Config.{RuleConfig}
use vortara.Decision.{Input, Plan, evaluate, eval_when, with_default, fired_before}
use vortara.Decision.FirstMatch.{FirstMatch, plan_of, evaluate_iff, once_rules_fire_once}
use vortara.Decision.Predicate.{
  Predicate, transition, negation, first_seen, all_of, nil, cons, encode, holds, eval_when-encode,
}
use vortara.Decision.Trace.{trace}
use vortara.Decision.Trace.Agreement.{IsReliable, trace-evaluate, trace_fails_behind_winner}
use vortara.Diff.{compute, equal, transitioned}
use vortara.Errors.{Result, ok, err, external, check_rule_firing}
use vortara.Value.{sprint}
use vortara.Samples.{rt, before, after, welcome, closed, decisions}

abbrev inp : Input
inp = record {
  is_first_seen = false;
  fingerprint_changed = true;
  diff = compute rt before after;
  previous_payload = before;
  current_payload = after;
  remembered_state = [];
}

-- The store knows of no rule that has fired.
abbrev never : String → Result Bool
never name = ok false

abbrev now : String
now = "2026-01-01T00:00:00Z"

abbrev won_plan : Plan
won_plan = plan_of rt inp (some never) now (some closed)

evaluate_iff_example : (evaluate rt now decisions inp (some never) ≡ ok won_plan) ↔ (
    (o : Option RuleConfig) × FirstMatch rt inp (some never) decisions.rules o
    × (won_plan ≡ with_default decisions (plan_of rt inp (some never) now o)))
evaluate_iff_example = evaluate_iff rt inp (some never) now decisions won_plan

ran : evaluate rt now decisions inp (some never) ≡ ok won_plan
unfolding evaluate eval_when with_default transitioned lookup compute insert equal sprint
ran = refl

evaluate-IsAction_example : IsAction won_plan.action
evaluate-IsAction_example = evaluate-IsAction rt now spec inp (some never) won_plan accepted ran

decisions_once : All (λ r. r.once ≡ true) decisions.rules
decisions_once = (refl, (refl, tt))

once_rules_fire_once_example : All (λ name. never name ≡ ok false) won_plan.triggered_rules
once_rules_fire_once_example =
    once_rules_fire_once rt inp (some never) now decisions never won_plan refl decisions_once ran

reliable : IsReliable (some never) decisions.rules
unfolding fired_before
reliable = ((false, refl), ((false, refl), tt))

trace-evaluate_example :
    (evaluate rt now decisions inp (some never) ≡ ok (trace rt now decisions inp (some never)).0)
    × ((trace rt now decisions inp (some never)).2 ≡ ok tt)
trace-evaluate_example = trace-evaluate rt now inp (some never) decisions reliable

-- A store that cannot say whether `closed` has fired.
abbrev broken : String → Result Bool
broken name = if name == "closed" then err (external "i/o error") else ok false

abbrev first_inp : Input
first_inp = record inp { is_first_seen = true }

welcome_new : fired_before (some broken) welcome ≡ ok false
unfolding fired_before
welcome_new = refl

closed_fails : fired_before (some broken) closed ≡ err (external "i/o error")
unfolding fired_before
closed_fails = refl

welcome_matches : (eval_when rt first_inp welcome.when).0 ≡ true
unfolding eval_when
welcome_matches = refl

trace_fails_behind_winner_example :
    ((p : Plan) × (evaluate rt now decisions first_inp (some broken) ≡ ok p))
    × ((trace rt now decisions first_inp (some broken)).2
        ≡ err (check_rule_firing "closed" (external "i/o error")))
trace_fails_behind_winner_example =
    trace_fails_behind_winner rt now first_inp (some broken) decisions welcome closed []
      (external "i/o error") refl welcome_new welcome_matches closed_fails

abbrev known_and_won : Predicate
known_and_won =
    all_of (negation first_seen)
      (cons (transition (record { field = "status"; from = "open"; to = "won" })) nil)

eval_when-encode_example : (eval_when rt inp (encode known_and_won)).0 ≡ holds rt inp known_and_won
eval_when-encode_example = eval_when-encode rt inp known_and_won

-- ===== src/RuleTests/Agreement.antt =====
-- The plan of a state test is the plan of a run.
use vortara.Base.{
  String, Bool, true, false, List, [], ◌∷◌, Option, none, some, ◌≡◌, refl, ap, ◌∙◌, if◌then◌else◌,
}
use vortara.Config.{RuleConfig}
use vortara.Decision.{
  Input, Plan, fired_before, rule_loop, map_result, with_default, empty_plan, apply_rule, evaluate,
  eval_when,
}
use vortara.Engine.{Env}
use vortara.Engine.Decide.{decision_input, current_fingerprint, fingerprint_excludes}
use vortara.Errors.{Result, ok}
use vortara.Fingerprint.{normalize_payload}
use vortara.RuleTests.{TestCase, test_fingerprint, test_input, test_plan}
use vortara.Runtime.{Runtime}
use vortara.State.{EntityState}
use vortara.Value.{Payload}

-- The state that a run keeps of an entity with the previous payload of a test and no memory, and none where
-- there is no such payload. The rest of the state is another's.
abbrev pub kept_state : {S D : Type 0} → Env S D → EntityState → Option Payload → Option EntityState
kept_state env es none = none
kept_state env es (some p) = some (record es {
  current_payload = normalize_payload env.rt p;
  current_fingerprint = current_fingerprint env (normalize_payload env.rt p);
  remembered_state = [];
})

unless_fired : (b : Bool) (r : Result Bool) → r ≡ ok false → (if b then r else ok false) ≡ ok false
unless_fired true r h = h
unless_fired false r h = refl

fired_nil : (rule : RuleConfig) → fired_before none rule ≡ ok false
unfolding fired_before
fired_nil rule = refl

none_fired :
    (has_fired : String → Result Bool)
    → ((name : String) → has_fired name ≡ ok false)
    → (rule : RuleConfig) → fired_before (some has_fired) rule ≡ ok false
unfolding fired_before
none_fired has_fired never rule = unless_fired rule.once (has_fired rule.name) (never rule.name)

rule_loop-unfired :
    (rt : Runtime) (now : String) (inp : Input) (has_fired : String → Result Bool)
    → ((name : String) → has_fired name ≡ ok false)
    → (rules : List RuleConfig) (plan : Plan)
    → rule_loop rt now inp none rules plan ≡ rule_loop rt now inp (some has_fired) rules plan
unfolding rule_loop
rule_loop-unfired rt now inp has_fired never [] plan = refl
rule_loop-unfired rt now inp has_fired never (rule ∷ rules) plan =
    let matched = eval_when rt inp rule.when in
    rw (rule_loop, fired_nil rule, none_fired has_fired never rule)
      (ap (λ rest. if matched.0 then ok (apply_rule now rule matched.1 plan) else rest)
        (rule_loop-unfired rt now inp has_fired never rules plan))

input_agrees :
    {S D : Type 0} (env : Env S D) (es : EntityState) (tc : TestCase) (previous : Option Payload)
    → tc.previous ≡ previous
    → test_input env.rt env.now_text env.spec tc
      ≡ decision_input env (normalize_payload env.rt tc.current) (kept_state env es previous)
unfolding test_input decision_input test_fingerprint current_fingerprint fingerprint_excludes
input_agrees env es tc none h = rw h refl
input_agrees env es tc (some p) h = rw h refl

-- A state test decides as a run does: its plan is what the rules make for an entity whose stored payload is
-- the test's previous one, or that is not stored where the test has none, and for which no rule has fired.
pub test_plan-evaluate :
    {S D : Type 0} (env : Env S D) (es : EntityState) (tc : TestCase)
    (has_fired : String → Result Bool)
    → ((name : String) → has_fired name ≡ ok false)
    → test_plan env.rt env.now_text env.spec tc
      ≡ evaluate env.rt env.now_text env.spec.decisions
          (decision_input env (normalize_payload env.rt tc.current) (kept_state env es tc.previous))
          (some has_fired)
unfolding test_plan evaluate
test_plan-evaluate env es tc has_fired never = ap (map_result (with_default env.spec.decisions)) (
    ap (λ inp. rule_loop env.rt env.now_text inp none env.spec.decisions.rules empty_plan)
      (input_agrees env es tc tc.previous refl)
    ∙ rule_loop-unfired env.rt env.now_text
        (decision_input env (normalize_payload env.rt tc.current) (kept_state env es tc.previous))
        has_fired never env.spec.decisions.rules empty_plan)

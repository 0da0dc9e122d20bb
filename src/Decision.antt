-- ===== src/Decision.antt =====
-- internal/decision: predicates.go, plan.go and engine.go. A rule's texts are Go's; `now` is what
-- `time.Now().UTC().Format(time.RFC3339)` returns while the entity is decided.
pub mod Tests
pub mod Trace
pub mod Predicate
pub mod FirstMatch
use vortara.Base.{
  String, concat, Bool, true, false, not, List, [], ◌∷◌, ◌++◌, Option, none, some, Assoc, insert,
  ◌==◌, if◌then◌else◌,
}
use vortara.Config.{
  TransitionedConfig, WhenConfig, Whens, WhenPtr, when, no_subs, sub, nil_when, at, RuleConfig,
  DecisionsConfig,
}
use vortara.Diff
use vortara.Diff.{transitioned, only_contains}
use vortara.Errors.{GoError, check_rule_firing, Result, ok, err}
use vortara.Runtime.{Runtime}
use vortara.Value.{Payload, join}

pub record Input : Type 0 where
  pub is_first_seen : Bool
  pub fingerprint_changed : Bool
  pub diff : Diff.Result
  pub previous_payload : Payload
  pub current_payload : Payload
  pub remembered_state : Payload

pub record Plan : Type 0 where
  pub action : String
  pub triggered_rules : List String
  pub reasons : List String
  pub remember : Assoc String

abbrev pub action_skip : String
action_skip = "skip"

-- Skipped
unfoldable pub skipped : Plan → Bool
skipped p = p.action == action_skip

-- `%v` of a `[]string`
unfoldable pub strings_text : List String → String
strings_text ss = concat "[" (concat (join " " ss) "]")

unfoldable pub transitioned_text : TransitionedConfig → String
transitioned_text t =
    concat "transitioned("
      (concat t.field (concat ", " (concat t.from (concat ", " (concat t.to ")")))))

-- Whether a predicate matched, and why.
abbrev pub Verdict : Type 0
Verdict = Bool × String

abbrev leaf_verdict : Runtime → Input → Option TransitionedConfig → List String → Verdict → Verdict
leaf_verdict rt inp (some t) oc rest =
    (transitioned rt inp.diff t.field t.from t.to, transitioned_text t)
leaf_verdict rt inp none (f ∷ fs) rest =
    (only_contains inp.diff (f ∷ fs), concat "only_changed(" (concat (strings_text (f ∷ fs)) ")"))
leaf_verdict rt inp none [] rest = rest

abbrev not_verdict : Verdict → Verdict
not_verdict v = (not v.0, concat "not(" (concat v.1 ")"))

abbrev pub all_verdict : Bool × String × List String → Verdict
all_verdict (true, r, reasons) = (true, concat "all(" (concat (strings_text reasons) ")"))
all_verdict (false, r, reasons) = (false, r)

-- One round of the loop over `when.Any`: a nil entry is skipped, a match returns.
abbrev pub any_step : Option Verdict → Verdict → Verdict
any_step none rest = rest
any_step (some (true, reason)) rest = (true, reason)
any_step (some (false, reason)) rest = rest

-- One round of the loop over `when.All`: a failure returns its reason.
abbrev pub all_step : Option Verdict → Bool × String × List String → Bool × String × List String
all_step none rest = rest
all_step (some (false, reason)) rest = (false, reason, [])
all_step (some (true, reason)) (b, r, reasons) = (b, r, reason ∷ reasons)

unfoldable mutual
  unfolding strings_text transitioned_text

  -- evalWhen: the first field that is set decides.
  pub eval_when : Runtime → Input → WhenConfig → Verdict
  eval_when rt inp (when first_seen fingerprint_changed tr oc anys alls nt) =
      if first_seen
      then (inp.is_first_seen, "first_seen()")
      else if fingerprint_changed
      then (inp.fingerprint_changed, "fingerprint_changed()")
      else leaf_verdict rt inp tr oc
          (eval_any rt inp anys (eval_all rt inp alls (eval_not rt inp nt)))

  -- `if len(when.Any) > 0`, else the rest
  pub eval_any : Runtime → Input → Whens → Verdict → Verdict
  eval_any rt inp no_subs rest = rest
  eval_any rt inp (sub w ws) rest = any_step (eval_ptr rt inp w) (any_loop rt inp ws)

  pub any_loop : Runtime → Input → Whens → Verdict
  any_loop rt inp no_subs = (false, "any(...) = false")
  any_loop rt inp (sub w ws) = any_step (eval_ptr rt inp w) (any_loop rt inp ws)

  -- `if len(when.All) > 0`, else the rest
  pub eval_all : Runtime → Input → Whens → Verdict → Verdict
  eval_all rt inp no_subs rest = rest
  eval_all rt inp (sub w ws) rest = all_verdict (all_step (eval_ptr rt inp w) (all_loop rt inp ws))

  pub all_loop : Runtime → Input → Whens → Bool × String × List String
  all_loop rt inp no_subs = (true, "", [])
  all_loop rt inp (sub w ws) = all_step (eval_ptr rt inp w) (all_loop rt inp ws)

  pub eval_not : Runtime → Input → WhenPtr → Verdict
  eval_not rt inp nil_when = (false, "empty predicate")
  eval_not rt inp (at w) = not_verdict (eval_when rt inp w)

  -- `*sub`, and nothing for a nil entry, which the loops skip
  pub eval_ptr : Runtime → Input → WhenPtr → Option Verdict
  eval_ptr rt inp nil_when = none
  eval_ptr rt inp (at w) = some (eval_when rt inp w)

-- RuleFiringChecker.HasRuleFired for one entity, and nil where there is no checker.
abbrev pub Checker : Type 0
Checker = Option (String → Result Bool)

-- `rule.Once && checker != nil`, and the call.
unfoldable pub fired_before : Checker → RuleConfig → Result Bool
fired_before none rule = ok false
fired_before (some has_fired) rule = if rule.once then has_fired rule.name else ok false

unfoldable pub eval_remember_expr : String → String → String
eval_remember_expr now expr = if expr == "now()" then now else expr

unfoldable pub remember_all : String → Assoc String → Assoc String → Assoc String
remember_all now [] m = m
remember_all now ((k, expr) ∷ rest) m =
    remember_all now rest (insert k (eval_remember_expr now expr) m)

abbrev pub empty_plan : Plan
empty_plan = record { action = ""; triggered_rules = []; reasons = []; remember = [] }

-- What a match does to the plan.
unfoldable pub apply_rule : String → RuleConfig → String → Plan → Plan
unfolding remember_all eval_remember_expr
apply_rule now rule reason plan = record {
  action = rule.action;
  triggered_rules = plan.triggered_rules ++ rule.name ∷ [];
  reasons = plan.reasons ++ reason ∷ [];
  remember = remember_all now rule.remember plan.remember;
}

-- The fall-back after the loop.
unfoldable pub with_default : DecisionsConfig → Plan → Plan
with_default cfg plan =
    if plan.action == ""
    then record plan {
      action = if cfg.default == "" then action_skip else cfg.default;
      reasons = plan.reasons ++ "no rule matched, using default" ∷ [];
    }
    else plan

-- The loop over the rules, which stops at the first match.
unfoldable pub rule_loop : Runtime → String → Input → Checker → List RuleConfig → Plan → Result Plan
rule_loop rt now inp checker [] plan = ok plan
rule_loop rt now inp checker (rule ∷ rules) plan =
    let rest = rule_loop rt now inp checker rules plan in
    let matched = eval_when rt inp rule.when in
    elim (fired_before checker rule) [
      | err e ↦ err (check_rule_firing rule.name e)
      | ok true ↦ rest
      | ok false ↦ if matched.0 then ok (apply_rule now rule matched.1 plan) else rest
    ]

abbrev pub map_result {ℓ} : {A : Type ℓ} → (A → A) → Result A → Result A
map_result f (ok a) = ok (f a)
map_result f (err e) = err e

unfoldable pub evaluate : Runtime → String → DecisionsConfig → Input → Checker → Result Plan
unfolding rule_loop apply_rule with_default fired_before
evaluate rt now cfg inp checker =
    map_result (with_default cfg) (rule_loop rt now inp checker cfg.rules empty_plan)

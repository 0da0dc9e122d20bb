-- ===== src/Config/Validate/Valid.antt =====
-- What Validate accepts, and what it means for the decisions.
use vortara.Base.{
  ℕ, suc, String, true, false, List, [], ◌∷◌, Option, none, some, contains, ◌==◌, if◌then◌else◌,
  All, ◌≡◌, ◌↔◌, ◌⊎◌, inl, inr, refl, arith, eq_iff, subst, sym, Bool-cases, ne_of_test,
}
use vortara.Config.{SyncSpec, SourceConfig, RuleConfig, DecisionsConfig}
use vortara.Config.Validate.{
  valid_actions, valid_on_error, blank, first, when_blank, validate_source, validate_rule,
  validate_rules, validate_choice, validate,
}
use vortara.Decision.{
  Input, Plan, Checker, evaluate, with_default, apply_rule, empty_plan, eval_when,
}
use vortara.Decision.FirstMatch.{FirstMatch, nobody, passes, wins, plan_of, evaluate_iff}
use vortara.Decision.{action_skip}
use vortara.Errors.{GoError, ok}
use vortara.Runtime.{Runtime}

abbrev pub IsRuleValid : RuleConfig → Type 0
IsRuleValid r = (blank r.name ≡ false) × (contains valid_actions r.action ≡ true)

pub record IsValid (s : SyncSpec) : Type 0 where
  pub name : blank s.name ≡ false
  pub source_type : blank s.source.type ≡ false
  pub source_url : blank s.source.url ≡ false
  pub entity_key : blank s.source.entity_key ≡ false
  pub destination_type : blank s.destination_type ≡ false
  pub rules : All IsRuleValid s.decisions.rules
  pub default : (s.decisions.default ≡ "") ⊎ (contains valid_actions s.decisions.default ≡ true)
  pub on_error : (s.errors.on_error ≡ "") ⊎ (contains valid_on_error s.errors.on_error ≡ true)

first_iff : (a b : Option GoError) → (first a b ≡ none) ↔ ((a ≡ none) × (b ≡ none))
first_iff none b = ground arith
first_iff (some e) b = ground arith

when_blank_iff : (n s : String) → (when_blank n s ≡ none) ↔ (blank s ≡ false)
when_blank_iff n s = ground arith

choice_iff :
    (n : String) (values : List String) (s : String)
    → (validate_choice n values s ≡ none) ↔ ((s ≡ "") ⊎ (contains values s ≡ true))
unfolding validate_choice
choice_iff n values s = ground (arith, eq_iff s "")

source_iff :
    (s : SourceConfig)
    → (validate_source s ≡ none)
      ↔ ((blank s.type ≡ false) × (blank s.url ≡ false) × (blank s.entity_key ≡ false))
unfolding validate_source
source_iff s = ground arith

rule_iff : (i : ℕ) (r : RuleConfig) → (validate_rule i r ≡ none) ↔ IsRuleValid r
unfolding validate_rule
rule_iff i r = ground arith

rules_iff :
    (i : ℕ) (rules : List RuleConfig) → (validate_rules i rules ≡ none) ↔ All IsRuleValid rules
unfolding validate_rules
rules_iff i [] = ground arith
rules_iff i (r ∷ rules) = (
  λ h.
      let (a, b) = (first_iff (validate_rule i r) (validate_rules (suc i) rules)).0 h in
      ((rule_iff i r).0 a, (rules_iff (suc i) rules).0 b),
  λ (a, b).
      (first_iff (validate_rule i r) (validate_rules (suc i) rules)).1
        ((rule_iff i r).1 a, (rules_iff (suc i) rules).1 b),
)

-- Validate accepts a specification exactly when its name, the type, URL and entity key of its source and
-- the type of its destination are not blank, each rule has a name and one of the five actions, and the
-- default action and the error policy are empty or known.
pub validate_iff : (s : SyncSpec) → (validate s ≡ none) ↔ IsValid s
unfolding validate
validate_iff s = (
  λ h.
      let (a, h1) = (first_iff _ _).0 h in
      let (b, h2) = (first_iff _ _).0 h1 in
      let (c, h3) = (first_iff _ _).0 h2 in
      let (d, h4) = (first_iff _ _).0 h3 in
      let (e, f) = (first_iff _ _).0 h4 in
      let (b1, b2, b3) = (source_iff s.source).0 b in
      record {
        name = (when_blank_iff "sync.name" s.name).0 a;
        source_type = b1;
        source_url = b2;
        entity_key = b3;
        destination_type = (when_blank_iff "sync.destination.type" s.destination_type).0 c;
        rules = (rules_iff 0 s.decisions.rules).0 d;
        default = (choice_iff "sync.decisions.default" valid_actions s.decisions.default).0 e;
        on_error = (choice_iff "sync.errors.on_error" valid_on_error s.errors.on_error).0 f;
      },
  λ v. (first_iff _ _).1 (
    (when_blank_iff "sync.name" s.name).1 v.name,
    (first_iff _ _).1 (
      (source_iff s.source).1 (v.source_type, v.source_url, v.entity_key),
      (first_iff _ _).1 (
        (when_blank_iff "sync.destination.type" s.destination_type).1 v.destination_type,
        (first_iff _ _).1 (
          (rules_iff 0 s.decisions.rules).1 v.rules,
          (first_iff _ _).1 (
            (choice_iff "sync.decisions.default" valid_actions s.decisions.default).1 v.default,
            (choice_iff "sync.errors.on_error" valid_on_error s.errors.on_error).1 v.on_error,
          ),
        ),
      ),
    ),
  ),
)

-- An action that a rule or the default may name.
abbrev pub IsAction : String → Type 0
IsAction a = contains valid_actions a ≡ true

default-IsAction :
    (d : String) → (d ≡ "") ⊎ IsAction d → IsAction (if d == "" then action_skip else d)
default-IsAction d h = elim (Bool-cases (d == "")) [
  | inl g ↦ rw g refl
  | inr g ↦ rw g (elim h [ inl e ↦ absurd (ne_of_test d "" g e) | inr a ↦ a ])
]

-- The fall-back names an action if the plan has none.
action-with_default :
    (cfg : DecisionsConfig) (p : Plan)
    → (p.action ≡ "") ⊎ IsAction p.action
    → (cfg.default ≡ "") ⊎ IsAction cfg.default
    → IsAction (with_default cfg p).action
unfolding with_default
action-with_default cfg p h d = elim (Bool-cases (p.action == "")) [
  | inl g ↦ rw (g, with_default) (default-IsAction cfg.default d)
  | inr g ↦
      rw (g, with_default) (elim h [ inl e ↦ absurd (ne_of_test p.action "" g e) | inr a ↦ a ])
]

action_of_match :
    (rt : Runtime) (inp : Input) (checker : Checker) (now : String) (cfg : DecisionsConfig)
    (rules : List RuleConfig) (o : Option RuleConfig)
    → All IsRuleValid rules
    → (cfg.default ≡ "") ⊎ IsAction cfg.default
    → FirstMatch rt inp checker rules o
    → IsAction (with_default cfg (plan_of rt inp checker now o)).action
unfolding apply_rule
action_of_match rt inp checker now cfg [] o v d nobody =
    action-with_default cfg empty_plan (inl refl) d
action_of_match rt inp checker now cfg (r ∷ rules) o (_, v) d (passes p m) =
    action_of_match rt inp checker now cfg rules o v d m
action_of_match rt inp checker now cfg (r ∷ rules) o ((n, a), v) d (wins f) =
    action-with_default cfg (apply_rule now r (eval_when rt inp r.when).1 empty_plan) (inr a) d

-- With a specification that Validate accepts, every plan that Evaluate returns has one of the five
-- actions.
pub evaluate-IsAction :
    (rt : Runtime) (now : String) (s : SyncSpec) (inp : Input) (checker : Checker) (p : Plan)
    → validate s ≡ none
    → evaluate rt now s.decisions inp checker ≡ ok p
    → IsAction p.action
evaluate-IsAction rt now s inp checker p h e =
    let v = (validate_iff s).0 h in
    let (o, m, z) = (evaluate_iff rt inp checker now s.decisions p).0 e in
    subst (λ q. IsAction q.action) (sym z)
      (action_of_match rt inp checker now s.decisions s.decisions.rules o v.rules v.default m)

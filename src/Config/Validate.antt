-- ===== src/Config/Validate.antt =====
-- pkg/config/sync/validate.go, on the sections of the specification that it reads.
pub mod Valid
use vortara.Base.{
  ℕ, zero, suc, String, Bool, true, false, not, ◌&&◌, ◌||◌, List, [], ◌∷◌, Option, none, some,
  contains, ◌==◌, if◌then◌else◌,
}
use vortara.Config.{SyncSpec, SourceConfig, RuleConfig}
use vortara.Errors.{GoError, required, invalid_value, rule_name_required, rule_action_invalid}
use vortara.Text.{trim_space}

abbrev pub valid_actions : List String
valid_actions = "upsert" ∷ "update" ∷ "create" ∷ "delete" ∷ "skip" ∷ []

abbrev pub valid_on_error : List String
valid_on_error = "skip" ∷ "retry" ∷ "dlq" ∷ []

-- `strings.TrimSpace(s) == ""`
unfoldable pub blank : String → Bool
unfolding trim_space
blank s = trim_space s == ""

-- The first error of two checks.
abbrev pub first : Option GoError → Option GoError → Option GoError
first (some e) rest = some e
first none rest = rest

abbrev pub when_blank : String → String → Option GoError
when_blank name s = if blank s then some (required name) else none

unfoldable pub validate_source : SourceConfig → Option GoError
unfolding blank
validate_source s =
    first (when_blank "sync.source.type" s.type) (
      first (when_blank "sync.source.url" s.url) (when_blank "sync.source.entity_key" s.entity_key))

unfoldable pub validate_dest : String → Option GoError
unfolding blank
validate_dest type = when_blank "sync.destination.type" type

unfoldable pub validate_rule : ℕ → RuleConfig → Option GoError
unfolding blank
validate_rule idx r =
    if blank r.name
    then some (rule_name_required idx)
    else if contains valid_actions r.action
    then none
    else some (rule_action_invalid idx r.name r.action)

unfoldable pub validate_rules : ℕ → List RuleConfig → Option GoError
unfolding validate_rule
validate_rules idx [] = none
validate_rules idx (r ∷ rules) = first (validate_rule idx r) (validate_rules (suc idx) rules)

-- An optional field is empty or has one of the values.
unfoldable pub validate_choice : String → List String → String → Option GoError
validate_choice name values s =
    if s == "" || contains values s then none else some (invalid_value name s)

-- Validate
unfoldable pub validate : SyncSpec → Option GoError
unfolding blank validate_source validate_dest validate_rules validate_choice
validate s = first (when_blank "sync.name" s.name) (
    first (validate_source s.source) (
      first (validate_dest s.destination_type) (
        first (validate_rules 0 s.decisions.rules) (
          first (validate_choice "sync.decisions.default" valid_actions s.decisions.default)
            (validate_choice "sync.errors.on_error" valid_on_error s.errors.on_error)))))

-- ===== src/Config/Tests.antt =====
-- The sample specification, accepted and with an unknown action.
use vortara.Base.{[], ◌∷◌, some, none, ◌≡◌, ◌↔◌, refl}
use vortara.Config.{SyncSpec}
use vortara.Config.Validate.{validate}
use vortara.Config.Validate.Valid.{IsValid, validate_iff}
use vortara.Errors.{rule_action_invalid}
use vortara.Samples.{spec, welcome}

pub accepted : validate spec ≡ none
unfolding validate
accepted = refl

abbrev misspelt : SyncSpec
misspelt = record spec {
  decisions = record (spec.decisions) {
    rules = welcome ∷ record welcome { action = "upset" } ∷ [];
  };
}

refused : validate misspelt ≡ some (rule_action_invalid 1 "welcome" "upset")
unfolding validate
refused = refl

validate_iff_example : (validate spec ≡ none) ↔ IsValid spec
validate_iff_example = validate_iff spec

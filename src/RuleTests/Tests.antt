-- ===== src/RuleTests/Tests.antt =====
-- State tests of the sync of the engine's tests.
use vortara.Base.{false, [], ◌∷◌, some, ◌≡◌, refl}
use vortara.Decision.{evaluate}
use vortara.Engine.Decide.{decision_input}
use vortara.Engine.Tests.{env}
use vortara.Errors.{ok}
use vortara.Fingerprint.{normalize_payload}
use vortara.RuleTests.{TestCase, test_plan}
use vortara.RuleTests.Agreement.{kept_state, test_plan-evaluate}
use vortara.Samples.{before, after}
use vortara.State.{EntityState}

abbrev won : TestCase
won = record {
  name = "won";
  previous = some before;
  current = after;
  decision = "update";
  triggered_rules = [];
  changed_fields = "city" ∷ [];
}

abbrev other_state : EntityState
other_state = record {
  sync_name = "crm";
  destination = "rest";
  entity_key = "k";
  destination_id = "";
  current_fingerprint = "";
  previous_fingerprint = "";
  current_payload = [];
  previous_payload = [];
  remembered_state = [];
  last_decision = "";
  last_status = "";
  consecutive_missing = 0;
  version = 1;
  updated_at = 0;
}

test_plan-evaluate_example :
    test_plan env.rt env.now_text env.spec won
    ≡ evaluate env.rt env.now_text env.spec.decisions
        (decision_input env
          (normalize_payload env.rt after)
          (kept_state env other_state (some before)))
        (some (λ name. ok false))
test_plan-evaluate_example =
    test_plan-evaluate env other_state won (λ name. ok false) (λ name. refl)

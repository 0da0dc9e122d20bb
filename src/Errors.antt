-- ===== src/Errors.antt =====
-- Go's `error` values: the sentinels that the code tests for, one constructor for each `fmt.Errorf`
-- of a modelled component with the values that it prints, and `external` for an error of a driver.
use vortara.Base.{List, Bool, true, false, ℕ, ℤ, String, ◌≡◌, ◌⊎◌, inl, inr, refl}

-- Why `ApprovalRequired` asks for an approval.
pub data ApprovalReason : Type 0 where
  total_exceeds : ℕ → ℕ → ApprovalReason
  deletes_pending creates_pending updates_pending : ℕ → ApprovalReason

pub data GoError : Type 0 where
  canceled deadline_exceeded circuit_open : GoError
  external : String → GoError
  -- pkg/config/sync/validate.go: the field that is missing or invalid
  required : String → GoError
  invalid_value : String → String → GoError
  rule_name_required : ℕ → GoError
  rule_action_invalid : ℕ → String → String → GoError
  -- internal/decision/engine.go
  check_rule_firing : String → GoError → GoError
  -- internal/safety/safety.go
  max_creates_reached max_updates_reached max_deletes_reached : ℤ → GoError
  field_ratio_exceeded : String → ℕ → ℕ → GoError
  -- internal/engine/run.go: the reason and the hash to approve
  dry_run_required : GoError
  approval_required : ApprovalReason → String → GoError
  list_entity_states : GoError → GoError
  -- cmd/vortara/cmd/replay.go, with the entity and the sync
  entity_state_failed : GoError → GoError
  -- cmd/vortara/cmd/test_cmd.go
  tests_failed : ℕ → GoError
  entity_not_found : String → String → GoError
  -- internal/state/memory.go
  run_not_found : ℕ → GoError
  already_running : String → String → GoError
  no_runs : String → GoError
  -- internal/connector/destination: a connector's name with the code and body of an answer, the message
  -- of an answer, a missing field, an object or an operation that it does not know
  bad_status : String → ℕ → String → GoError
  -- hubspot.go: the class, code and message of an error, a cause that leaves the outcome open, the field
  -- and the entity that lacks it or the value that several contacts have, and a body that is not what was asked for
  hubspot_error : String → ℕ → String → GoError
  hubspot_ambiguous hubspot_decode : GoError → GoError
  hubspot_no_match hubspot_duplicate : String → String → GoError
  connect_required answer_error missing_field unknown_object unknown_operation :
      String → String → GoError
  -- internal/registry/registry.go, with the kind, the name and the names that there are
  name_required factory_nil : String → GoError
  already_registered : String → String → GoError
  unknown_type : String → String → List String → GoError
  -- internal/connector/http/retry.go
  permanent_failure : ℕ → GoError
  exhausted : ℤ → ℕ → GoError
  exhausted_retries : ℕ → GoError
  -- internal/connector/http/auth.go, with the type or the code
  missing_auth unknown_auth : String → GoError
  token_status : ℕ → GoError
  empty_token : GoError
  -- internal/connector/http/ratelimit.go
  negative_requests : GoError
  -- internal/steps/expr.go, with the text that the message quotes
  unexpected_token expected_field expected_string unknown_function : String → GoError
  expected_operator invalid_number expected_literal : String → GoError

-- context.Canceled or context.DeadlineExceeded
abbrev pub is_cancellation : GoError → Bool
is_cancellation canceled = true
is_cancellation deadline_exceeded = true
is_cancellation _ = false

-- A call that returns `(A, error)`.
pub data Result {ℓ} (A : Type ℓ) : Type ℓ where
  ok : A → Result A
  err : GoError → Result A

pub Result-cases {ℓ} :
    {A : Type ℓ} (r : Result A) → ((e : GoError) × (r ≡ err e)) ⊎ ((a : A) × (r ≡ ok a))
Result-cases (ok a) = inr (a, refl)
Result-cases (err e) = inl (e, refl)

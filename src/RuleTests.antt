-- ===== src/RuleTests.antt =====
-- cmd/vortara/cmd/test_cmd.go: the state tests of a sync file, run by `vortara test`. What is printed is
-- the failures of each test and the counts.
pub mod Agreement
pub mod Tests
use vortara.Base.{
  ℕ, zero, suc, String, Bool, true, false, not, ◌&&◌, List, [], ◌∷◌, ◌++◌, Option, none, some, has,
  contains, ◌==◌, if◌then◌else◌,
}
use vortara.Base.Sort.{sort_by, str_lt}
use vortara.Config.{SyncSpec}
use vortara.Decision.{Input, Plan, evaluate}
use vortara.Diff
use vortara.Diff.{compute}
use vortara.Engine.Mapping.{mapping_excludes, fp_fields}
use vortara.Errors.{GoError, Result, ok, err, tests_failed}
use vortara.Fingerprint.{fingerprint_of, normalize_payload}
use vortara.Runtime.{Runtime}
use vortara.Value.{Payload}

-- TestCase with its TestExpect; `previous` is nil for an entity that is first seen.
pub record TestCase : Type 0 where
  pub name : String
  pub previous : Option Payload
  pub current : Payload
  pub decision : String
  pub triggered_rules : List String
  pub changed_fields : List String

-- What a test finds.
pub data Failure : Type 0 where
  evaluation_error : GoError → Failure
  decision_differs : String → String → Failure
  rules_differ : List String → List String → Failure
  fields_missing : List String → Failure

-- testSlicesEqual
unfoldable pub test_slices_equal : List String → List String → Bool
test_slices_equal [] [] = true
test_slices_equal [] (b ∷ bs) = false
test_slices_equal (a ∷ as') [] = false
test_slices_equal (a ∷ as') (b ∷ bs) = a == b && test_slices_equal as' bs

module _ (rt : Runtime) (now : String) (spec : SyncSpec) where
  unfoldable pub test_fingerprint : Payload → String
  unfolding fingerprint_of fp_fields mapping_excludes
  test_fingerprint payload =
      fingerprint_of rt (fp_fields payload spec.fingerprint.include)
        (mapping_excludes spec.mapping ++ spec.fingerprint.exclude)

  -- `previous`, nil where there is none
  abbrev pub payload_of : Option Payload → Payload
  payload_of none = []
  payload_of (some p) = normalize_payload rt p

  abbrev pub fingerprint_of_previous : Option Payload → String
  fingerprint_of_previous none = ""
  fingerprint_of_previous (some p) = test_fingerprint (normalize_payload rt p)

  abbrev pub is_nil : Option Payload → Bool
  is_nil none = true
  is_nil (some p) = false

  -- The input that a test gives to the rules.
  unfoldable pub test_input : TestCase → Input
  unfolding test_fingerprint normalize_payload
  test_input tc =
      let current = normalize_payload rt tc.current in
      record {
        is_first_seen = is_nil tc.previous;
        fingerprint_changed = not (test_fingerprint current == fingerprint_of_previous tc.previous);
        diff = compute rt (payload_of tc.previous) current;
        previous_payload = payload_of tc.previous;
        current_payload = current;
        remembered_state = [];
      }

  -- The plan of a test: no rule has fired.
  unfoldable pub test_plan : TestCase → Result Plan
  unfolding test_input evaluate
  test_plan tc = evaluate rt now spec.decisions (test_input tc) none

  unfoldable pub missing_from : Diff.Result → List String → List String
  missing_from diff [] = []
  missing_from diff (f ∷ fs) =
      let rest = missing_from diff fs in if has diff f then rest else f ∷ rest

  abbrev when_some : List String → Failure → List Failure
  when_some [] f = []
  when_some (x ∷ xs) f = f ∷ []

  abbrev when_differs : Bool → Failure → List Failure
  when_differs same f = if same then [] else f ∷ []

  abbrev rules_check : List String → List String → List Failure
  rules_check got [] = []
  rules_check got (w ∷ want) =
      when_differs (test_slices_equal got (w ∷ want)) (rules_differ (w ∷ want) got)

  -- The assertions on a plan.
  unfoldable pub plan_failures : TestCase → Plan → List Failure
  unfolding missing_from test_slices_equal test_input
  plan_failures tc plan =
      let missing = missing_from (test_input tc).diff tc.changed_fields in
      when_differs (plan.action == tc.decision) (decision_differs tc.decision plan.action)
      ++ rules_check plan.triggered_rules tc.triggered_rules
      ++ when_some missing (fields_missing (sort_by str_lt missing))

  unfoldable pub test_failures : TestCase → List Failure
  unfolding test_plan plan_failures
  test_failures tc = elim (test_plan tc) [
    | err e ↦ evaluation_error e ∷ []
    | ok plan ↦ plan_failures tc plan
  ]

  -- The tests that fail.
  unfoldable pub count_failed : List TestCase → ℕ
  unfolding test_failures
  count_failed [] = 0
  count_failed (tc ∷ tcs) =
      let rest = count_failed tcs in elim (test_failures tc) [ [] ↦ rest | f ∷ fs ↦ suc rest ]

  -- runTests
  unfoldable pub run_tests : List TestCase → Option GoError
  unfolding count_failed
  run_tests tcs = elim (count_failed tcs) [ zero ↦ none | suc n ↦ some (tests_failed (suc n)) ]

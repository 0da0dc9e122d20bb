-- ===== src/Engine/Mapping.antt =====
-- internal/engine/run.go: the pure helpers on payloads, fingerprint inputs and entity states.
use vortara.Base.{
  ℕ, ◌+◌, String, concat, Bool, true, false, List, [], ◌∷◌, Option, none, some, Assoc, lookup,
  insert, insert_all, contains, if◌then◌else◌,
}
use vortara.Config.{MappingEntry, dest_name}
use vortara.Decision.{Plan}
use vortara.Runtime.{Runtime}
use vortara.Safety.{RunCounts}
use vortara.State.{EntityState}
use vortara.Value.{Value, Payload, null, str, decimal, join}
use Prim.Native.String.{slice}

-- `!ok || v == nil`
abbrev pub is_missing : Option Value → Bool
is_missing none = true
is_missing (some null) = true
is_missing (some _) = false

-- missingRequiredFields
unfoldable pub missing_required_fields : Payload → List String → List String
missing_required_fields fields [] = []
missing_required_fields fields (f ∷ required) =
    let rest = missing_required_fields fields required in
    if is_missing (lookup f fields) then f ∷ rest else rest

abbrev pub project : Option Value → String → Payload → Payload
project none dest out = out
project (some v) dest out = insert dest v out

unfoldable pub mapping_loop : Payload → List MappingEntry → Payload → Payload
mapping_loop fields [] out = out
mapping_loop fields (m ∷ mapping) out =
    mapping_loop fields mapping (project (lookup m.source fields) (dest_name m) out)

-- applyMapping: with no mapping the row passes as it is.
unfoldable pub apply_mapping : Payload → List MappingEntry → Payload
unfolding mapping_loop dest_name
apply_mapping fields [] = fields
apply_mapping fields (m ∷ mapping) = mapping_loop fields (m ∷ mapping) []

-- The destination names of the entries that `exclude_from_fingerprint` marks.
unfoldable pub mapping_excludes : List MappingEntry → List String
mapping_excludes [] = []
mapping_excludes (m ∷ mapping) =
    let rest = mapping_excludes mapping in
    if m.exclude_from_fingerprint then dest_name m ∷ rest else rest

unfoldable pub keep_included : List String → Payload → Payload
keep_included include [] = []
keep_included include ((k, v) ∷ m) =
    let rest = keep_included include m in if contains include k then (k, v) ∷ rest else rest

-- fpFields over buildFPIncludeSet: an empty list includes every field.
unfoldable pub fp_fields : Payload → List String → Payload
unfolding keep_included
fp_fields fields [] = fields
fp_fields fields (f ∷ include) = keep_included (f ∷ include) fields

-- buildRedactedFieldSet
unfoldable pub redacted_fields : List MappingEntry → List String
redacted_fields [] = []
redacted_fields (m ∷ mapping) =
    let rest = redacted_fields mapping in if m.redacted then dest_name m ∷ rest else rest

-- redactPayload
unfoldable pub redact_payload : Payload → List String → Payload
redact_payload [] redacted = []
redact_payload ((k, v) ∷ m) redacted =
    (k, if contains redacted k then str "[REDACTED]" else v) ∷ redact_payload m redacted

abbrev pub remember_values : Assoc String → Payload
remember_values [] = []
remember_values ((k, v) ∷ m) = (k, str v) ∷ remember_values m

abbrev pub prior_remembered : Option EntityState → Payload
prior_remembered none = []
prior_remembered (some es) = es.remembered_state

abbrev pub prior_version : Option EntityState → ℕ
prior_version none = 0
prior_version (some es) = es.version

abbrev pub prior_destination_id : Option EntityState → String
prior_destination_id none = ""
prior_destination_id (some es) = es.destination_id

-- buildEntityState, with the DestinationID that its callers set; the times stay zero.
unfoldable pub build_entity_state :
    String
    → String
    → String
    → String
    → String
    → Payload
    → Payload
    → Option EntityState
    → Plan
    → String
    → String
    → EntityState
build_entity_state sync_name dest entity_key prev_fp cur_fp prev_payload cur_payload prev plan
      status id =
    record {
      sync_name = sync_name;
      destination = dest;
      entity_key = entity_key;
      destination_id = id;
      current_fingerprint = cur_fp;
      previous_fingerprint = prev_fp;
      current_payload = cur_payload;
      previous_payload = prev_payload;
      remembered_state =
          insert_all (remember_values plan.remember) (insert_all (prior_remembered prev) []);
      last_decision = plan.action;
      last_status = status;
      consecutive_missing = 0;
      version = prior_version prev + 1;
      updated_at = 0;
    }

-- deliveryOpKey
unfoldable pub delivery_op_key : Runtime → String → String → String → String → String → String
unfolding join
delivery_op_key rt sync_name dest entity_key action fingerprint =
    rt.sha256_hex (join ":" (sync_name ∷ dest ∷ entity_key ∷ action ∷ fingerprint ∷ []))

-- computeApprovalHash
unfoldable pub compute_approval_hash : Runtime → String → String → RunCounts → String
unfolding join decimal
compute_approval_hash rt sync_name dest counts = concat "appr-" (
    slice
      (rt.sha256_hex (
        join ":" (
          sync_name
          ∷ dest
          ∷ concat "c=" (decimal counts.creates)
          ∷ concat "u=" (decimal counts.updates)
          ∷ concat "d=" (decimal counts.deletes)
          ∷ [])))
      0 8)

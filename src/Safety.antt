-- ===== src/Safety.antt =====
-- internal/safety/safety.go: the limits on one run. The evaluator is its configuration.
pub mod Tests
pub mod Limits
pub mod Approval
use vortara.Base.{
  ℕ, ℤ, pos_part, positive, suc, ◌+◌, String, Bool, true, false, List, [], ◌∷◌, Option, none, some,
  Assoc, lookup, length, ltb, leb, eqb, ◌==◌, ◌&&◌, ◌||◌, if◌then◌else◌,
}
use vortara.Config.{SafetyConfig}
use vortara.Errors.{
  GoError, max_creates_reached, max_updates_reached, max_deletes_reached, field_ratio_exceeded,
  ApprovalReason, total_exceeds, deletes_pending, creates_pending, updates_pending,
}
use vortara.Runtime.{Runtime}
use vortara.Text.{to_lower}

pub record RunCounts : Type 0 where
  pub creates : ℕ
  pub updates : ℕ
  pub deletes : ℕ

abbrev pub no_counts : RunCounts
no_counts = record { creates = 0; updates = 0; deletes = 0 }

-- `max > 0 && count >= max`
abbrev pub reached : ℤ → ℕ → Bool
reached max count = positive max && leb (pos_part max) count

-- Evaluator.Allow: the error, or none
unfoldable pub allow : SafetyConfig → String → RunCounts → Option GoError
allow cfg action counts =
    if action == "create" || action == "upsert"
    then (if reached cfg.max_creates_per_run counts.creates
        then some (max_creates_reached cfg.max_creates_per_run)
        else none)
    else if action == "update"
    then (if reached cfg.max_updates_per_run counts.updates
        then some (max_updates_reached cfg.max_updates_per_run)
        else none)
    else if action == "delete"
    then (if reached cfg.max_deletes_per_run counts.deletes
        then some (max_deletes_reached cfg.max_deletes_per_run)
        else none)
    else none

-- `fieldChangeCounts[field]`, which is 0 for a field that is not there
abbrev pub count_at : Assoc ℕ → String → ℕ
count_at counts field = elim (lookup field counts) [ none ↦ 0 | some n ↦ n ]

-- `float64(changed) / float64(total) > threshold`
abbrev pub ratio_above : Runtime → ℕ → ℕ → ℕ → Bool
ratio_above rt changed total threshold =
    rt.float_lt threshold (rt.float_div (rt.float_of_nat changed) (rt.float_of_nat total))

unfoldable pub ratio_loop : Runtime → Assoc ℕ → ℕ → Assoc ℕ → Option GoError
ratio_loop rt counts total [] = none
ratio_loop rt counts total ((field, threshold) ∷ rest) =
    let later = ratio_loop rt counts total rest in
    if ratio_above rt (count_at counts field) total threshold
    then some (field_ratio_exceeded field (count_at counts field) total)
    else later

-- Evaluator.CheckFieldRatios
unfoldable pub check_field_ratios : Runtime → SafetyConfig → Assoc ℕ → ℕ → Option GoError
unfolding ratio_loop
check_field_ratios rt cfg counts total =
    if eqb total 0 || eqb (length cfg.block_if_changed_field_ratio_above) 0
    then none
    else ratio_loop rt counts total cfg.block_if_changed_field_ratio_above

-- One round of the loop over `require_approval_for`.
abbrev pub pending_action : String → RunCounts → Option ApprovalReason
pending_action action counts =
    if action == "delete"
    then (if ltb 0 counts.deletes then some (deletes_pending counts.deletes) else none)
    else if action == "create"
    then (if ltb 0 counts.creates then some (creates_pending counts.creates) else none)
    else if action == "update"
    then (if ltb 0 counts.updates then some (updates_pending counts.updates) else none)
    else none

unfoldable pub approval_loop : List String → RunCounts → Option ApprovalReason
approval_loop [] counts = none
approval_loop (action ∷ actions) counts =
    let later = approval_loop actions counts in
    elim (pending_action (to_lower action) counts) [ some reason ↦ some reason | none ↦ later ]

abbrev pub total : RunCounts → ℕ
total counts = counts.creates + counts.updates + counts.deletes

-- Evaluator.ApprovalRequired: the reason, or none
unfoldable pub approval_required : Runtime → SafetyConfig → RunCounts → Option ApprovalReason
unfolding approval_loop
approval_required rt cfg counts =
    if rt.float_lt (rt.float_of_nat 0) cfg.require_approval_above
      && rt.float_lt cfg.require_approval_above (rt.float_of_nat (total counts))
    then some (total_exceeds (total counts) cfg.require_approval_above)
    else approval_loop cfg.require_approval_for counts

-- Evaluator.Record
unfoldable pub record_action : String → RunCounts → RunCounts
record_action action counts =
    if action == "create" || action == "upsert"
    then record counts { creates = counts.creates + 1 }
    else if action == "update"
    then record counts { updates = counts.updates + 1 }
    else if action == "delete"
    then record counts { deletes = counts.deletes + 1 }
    else counts

-- ===== src/Safety/Approval.antt =====
-- When a run needs an approval.
use vortara.Base.{
  ◌≡◌, ◌↔◌, inl, inr, refl, String, Bool, false, List, [], ◌∷◌, All, Option, none, some, arith,
  eq_iff, ◌&&◌, Bool-cases,
}
use vortara.Config.{SafetyConfig}
use vortara.Errors.{ApprovalReason}
use vortara.Runtime.{Runtime}
use vortara.Safety.{RunCounts, total, pending_action, approval_loop, approval_required}
use vortara.Text.{to_lower}

-- No delivery of the named kind is pending; names other than create, update and delete have none.
abbrev pub NotPending : RunCounts → String → Type 0
NotPending counts action =
    (to_lower action ≡ "create" → counts.creates ≡ 0)
    × (to_lower action ≡ "update" → counts.updates ≡ 0)
    × (to_lower action ≡ "delete" → counts.deletes ≡ 0)

pending_action_iff :
    (a : String) (counts : RunCounts)
    → (pending_action a counts ≡ none) ↔ (
        (a ≡ "create" → counts.creates ≡ 0)
        × (a ≡ "update" → counts.updates ≡ 0)
        × (a ≡ "delete" → counts.deletes ≡ 0))
pending_action_iff a counts = (
  λ h. (
    (λ e. let h' = rw e at h in ground arith),
    (λ e. let h' = rw e at h in ground arith),
    (λ e. let h' = rw e at h in ground arith),
  ),
  λ h. ground (arith, h.0, h.1, h.2, eq_iff a "create", eq_iff a "delete", eq_iff a "update"),
)

approval_loop_iff :
    (actions : List String) (counts : RunCounts)
    → (approval_loop actions counts ≡ none) ↔ All (NotPending counts) actions
unfolding approval_loop
approval_loop_iff [] counts = (λ h. tt, λ h. refl)
approval_loop_iff (a ∷ actions) counts =
    let ih = approval_loop_iff actions counts in
    let first = pending_action_iff (to_lower a) counts in
    (
      λ h. (first.0 (first_none h), ih.0 (rest_none h)),
      λ h. rw (first.1 h.0, approval_loop) (ih.1 h.1),
    )
  where
    first_none :
        (elim (pending_action (to_lower a) counts) as (λ x. Option ApprovalReason) [
          | some reason ↦ some reason
          | none ↦ approval_loop actions counts
        ])
          ≡ none
        → pending_action (to_lower a) counts ≡ none
    first_none h = ground arith

    rest_none :
        (elim (pending_action (to_lower a) counts) as (λ x. Option ApprovalReason) [
          | some reason ↦ some reason
          | none ↦ approval_loop actions counts
        ])
          ≡ none
        → approval_loop actions counts ≡ none
    rest_none h = ground arith

-- `require_approval_above`, where it is positive, is exceeded by the number of pending deliveries.
abbrev pub total_above : Runtime → SafetyConfig → RunCounts → Bool
total_above rt cfg counts =
    rt.float_lt (rt.float_of_nat 0) cfg.require_approval_above
    && rt.float_lt cfg.require_approval_above (rt.float_of_nat (total counts))

-- No approval is asked for exactly when the total is not above the threshold and no action that
-- `require_approval_for` lists, in any case of letters, has a pending delivery.
approval_required_iff :
    (rt : Runtime) (cfg : SafetyConfig) (counts : RunCounts)
    → (approval_required rt cfg counts ≡ none)
      ↔ ((total_above rt cfg counts ≡ false) × All (NotPending counts) cfg.require_approval_for)
unfolding approval_required
approval_required_iff rt cfg counts =
    let ih = approval_loop_iff cfg.require_approval_for counts in
    elim (Bool-cases (total_above rt cfg counts)) [
      | inl above ↦ (λ h. absurd (ground arith), λ h. absurd (ground arith))
      | inr below ↦ (λ h. (below, ih.0 (ground arith)), λ h. rw below (ih.1 h.1))
    ]

-- ===== src/Safety/Limits.antt =====
-- The counters of a run stay within the configured limits.
use vortara.Base.{
  ℕ, ℤ, pos_part, positive, ◌≤◌, ◌<◌, ◌||◌, String, true, false, Option, none, some, ◌≡◌, ◌↔◌,
  arith, [], ◌∷◌, All, Assoc, length, refl, eqb, if◌then◌else◌, Bool-cases, inl, inr,
}
use vortara.Config.{SafetyConfig}
use vortara.Errors.{GoError}
use vortara.Runtime.{Runtime}
use vortara.Safety.{
  RunCounts, no_counts, allow, record_action, count_at, ratio_above, ratio_loop, check_field_ratios,
}

-- A limit that is not positive is no limit.
abbrev pub WithinLimit : ℤ → ℕ → Type 0
WithinLimit max count = positive max ≡ true → count ≤ pos_part max

pub record IsWithin (cfg : SafetyConfig) (counts : RunCounts) : Type 0 where
  pub creates : WithinLimit cfg.max_creates_per_run counts.creates
  pub updates : WithinLimit cfg.max_updates_per_run counts.updates
  pub deletes : WithinLimit cfg.max_deletes_per_run counts.deletes

pub no_counts-IsWithin : (cfg : SafetyConfig) → IsWithin cfg no_counts
no_counts-IsWithin cfg = record {
  creates = λ h. omega arith;
  updates = λ h. omega arith;
  deletes = λ h. omega arith;
}

-- An action that is allowed keeps the counters within the limits when it is recorded.
pub record_action-IsWithin :
    (cfg : SafetyConfig) (action : String) (counts : RunCounts)
    → IsWithin cfg counts
    → allow cfg action counts ≡ none
    → IsWithin cfg (record_action action counts)
unfolding allow record_action
record_action-IsWithin cfg action counts w h = record {
  creates = λ p. ground (arith, w.creates p);
  updates = λ p. ground (arith, w.updates p);
  deletes = λ p. ground (arith, w.deletes p);
}

refused-not-IsWithin :
    (cfg : SafetyConfig) (action : String) (counts : RunCounts) (e : GoError)
    → allow cfg action counts ≡ some e
    → ¬ IsWithin cfg (record_action action counts)
unfolding allow record_action
refused-not-IsWithin cfg action counts e h w = ground (arith, w.creates, w.updates, w.deletes)

-- From counters within the limits, an action is allowed exactly when the counters are still within
-- the limits after it has been recorded.
allow_iff :
    (cfg : SafetyConfig) (action : String) (counts : RunCounts)
    → IsWithin cfg counts
    → (allow cfg action counts ≡ none) ↔ IsWithin cfg (record_action action counts)
allow_iff cfg action counts w = (
  record_action-IsWithin cfg action counts w,
  λ after. admitted (allow cfg action counts) refl after,
)
  where
    admitted :
        (o : Option GoError)
        → allow cfg action counts ≡ o
        → IsWithin cfg (record_action action counts)
        → allow cfg action counts ≡ none
    admitted none e after = e
    admitted (some x) e after = absurd (refused-not-IsWithin cfg action counts x e after)

abbrev pub RatioHolds : Runtime → Assoc ℕ → ℕ → String × ℕ → Type 0
RatioHolds rt counts total limit = ratio_above rt (count_at counts limit.0) total limit.1 ≡ false

ratio_loop_iff :
    (rt : Runtime) (counts : Assoc ℕ) (total : ℕ) (limits : Assoc ℕ)
    → (ratio_loop rt counts total limits ≡ none) ↔ All (RatioHolds rt counts total) limits
unfolding ratio_loop
ratio_loop_iff rt counts total [] = (λ h. tt, λ h. refl)
ratio_loop_iff rt counts total ((f, t) ∷ limits) =
    let ih = ratio_loop_iff rt counts total limits in
    elim (Bool-cases (ratio_above rt (count_at counts f) total t)) [
      | inl above ↦ (λ h. absurd (ground arith), λ h. absurd (ground arith))
      | inr below ↦ (λ h. (below, ih.0 (ground arith)), λ h. rw below (ih.1 h.1))
    ]

-- With at least one row, the ratio check passes exactly when no configured field has changed in a
-- larger share of the rows than its threshold.
check_field_ratios_iff :
    (rt : Runtime) (cfg : SafetyConfig) (counts : Assoc ℕ) (total : ℕ)
    → 0 < total
    → (check_field_ratios rt cfg counts total ≡ none)
      ↔ All (RatioHolds rt counts total) cfg.block_if_changed_field_ratio_above
unfolding check_field_ratios
check_field_ratios_iff rt cfg counts total h = cases cfg.block_if_changed_field_ratio_above
  where
    cases :
        (limits : Assoc ℕ)
        → ((if eqb total 0 || eqb (length limits) 0
              then none
              else ratio_loop rt counts total limits)
            ≡ none)
          ↔ All (RatioHolds rt counts total) limits
    cases [] = (λ e. tt, λ e. ground arith)
    cases (l ∷ limits) =
        let ih = ratio_loop_iff rt counts total (l ∷ limits) in
        (λ e. ih.0 (ground arith), λ e. ground (arith, ih.1 e))

-- ===== src/Engine/Deliver/Counts.antt =====
-- The counters of phase 2 stay within the limits of the configuration.
use vortara.Base.{
  List, [], ◌∷◌, none, ◌≡◌, refl, ◌⊎◌, inl, inr, Bool-cases, Option-cases, arith, ◌+◌,
}
use vortara.Engine.{Env, Destination, LoadResult, PendingDelivery, is_cancelled}
use vortara.Engine.Deliver.{
  Phase2, succeed, load_failed, load_returned, load_one, deliver_one, deliver_all, answer,
  after_load,
}
use vortara.Safety.{RunCounts, allow, record_action}
use vortara.Safety.Limits.{IsWithin, record_action-IsWithin}

module _ {S D : Type 0} (env : Env S D) where
  -- A delivery leaves the counters alone or records its own action once.
  abbrev Recorded : PendingDelivery → RunCounts → RunCounts → Type 0
  Recorded pd before after = (after ≡ before) ⊎ (after ≡ record_action pd.plan.action before)

  load_returned-Recorded :
      (pd : PendingDelivery) (res : LoadResult) (p : Phase2 S D)
      → Recorded pd p.counts (load_returned env pd res p).counts
  unfolding load_returned succeed
  load_returned-Recorded pd res p = ground arith

  load_one-Recorded :
      (dest : Destination S D) (pd : PendingDelivery) (p : Phase2 S D)
      → Recorded pd p.counts (load_one env dest pd p).counts
  unfolding load_one load_failed
  load_one-Recorded dest pd p =
      let a = answer env dest pd p in
      elim (Option-cases a.3) [
        | inr (e, g) ↦ rw (g, load_one) (inl refl)
        | inl g ↦ rw (g, load_one) (load_returned-Recorded pd a.2 (after_load env a p))
      ]

  within :
      (pd : PendingDelivery) (before after : RunCounts)
      → allow env.spec.safety pd.plan.action before ≡ none
      → Recorded pd before after
      → IsWithin env.spec.safety before
      → IsWithin env.spec.safety after
  within pd before after h (inl e) w = rw e w
  within pd before after h (inr e) w =
      rw e (record_action-IsWithin env.spec.safety pd.plan.action before w h)

  deliver_one-IsWithin :
      (pd : PendingDelivery) (p : Phase2 S D)
      → IsWithin env.spec.safety p.counts
      → IsWithin env.spec.safety (deliver_one env pd p).counts
  unfolding deliver_one succeed
  deliver_one-IsWithin pd p w =
      elim (Option-cases (allow env.spec.safety pd.plan.action p.counts)) [
        | inr (e, h) ↦ rw (h, deliver_one) w
        | inl h ↦ elim (Option-cases env.dest) [
          | inl g ↦ rw (h, g, deliver_one) (within pd p.counts _ h (inr refl) w)
          | inr (dest, g) ↦
              rw (h, g, deliver_one) (within pd p.counts _ h (load_one-Recorded dest pd p) w)
        ]
      ]

  -- Whatever the destination answers and wherever the context is cancelled, the creates, updates and
  -- deletes that a run's deliveries record stay within the configured limits.
  pub deliver_all-IsWithin :
      (pds : List PendingDelivery) (p : Phase2 S D)
      → IsWithin env.spec.safety p.counts
      → IsWithin env.spec.safety (deliver_all env pds p).counts
  unfolding deliver_all
  deliver_all-IsWithin [] p w = w
  deliver_all-IsWithin (pd ∷ pds) p w =
      let asked = record p { world = record (p.world) { polls = p.world.polls + 1 } } in
      elim (Bool-cases (is_cancelled env p.world)) [
        | inl h ↦ rw (h, deliver_all) w
        | inr h ↦
            rw (h, deliver_all)
              (deliver_all-IsWithin pds (deliver_one env pd asked)
                (deliver_one-IsWithin pd asked w))
      ]

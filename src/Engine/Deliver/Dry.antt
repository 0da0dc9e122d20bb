-- ===== src/Engine/Deliver/Dry.antt =====
-- A dry run's deliveries leave the store alone if Load does.
use vortara.Base.{
  String, true, List, [], ◌∷◌, some, Assoc, ◌≡◌, refl, ◌∙◌, ◌+◌, Bool-cases, Option-cases, inl, inr,
  arith,
}
use vortara.Engine.{Env, World, Destination, LoadResult, RowError, PendingDelivery, is_cancelled}
use vortara.Engine.Decide.{add_errored}
use vortara.Engine.Deliver.{
  Phase2, write_dlq, save_failed, row_errors, persist, succeed, load_failed, load_returned,
  load_one, deliver_one, deliver_all, delivery_row, answer, after_load, loaded_nowhere,
}
use vortara.Errors.{GoError}
use vortara.Row.{Row}
use vortara.Safety.{allow}

-- Load leaves the store alone.
abbrev pub LoadKeepsStore : {S D : Type 0} → Env S D → Type 0
LoadKeepsStore {S} {D} env =
    (dest : Destination S D)
    → env.dest ≡ some dest
    → (rows : List Row) (n d : String) (ds : D) (s : S) → (dest.load rows n d ds s).1 ≡ s

module _ {S D : Type 0} (env : Env S D) (dry : env.dry_run ≡ true) where
  store-write_dlq :
      (r : Row) (k : String) (e : GoError) (w : World S D) → (write_dlq env r k e w).store ≡ w.store
  unfolding write_dlq
  store-write_dlq r k e w = ground arith

  store-save_failed :
      (pd : PendingDelivery) (w : World S D) → (save_failed env pd w).store ≡ w.store
  unfolding save_failed
  store-save_failed pd w = rw (dry, save_failed)

  store-row_errors :
      (pd : PendingDelivery) (res : List RowError) (w : World S D)
      → (row_errors env pd res w).store ≡ w.store
  unfolding row_errors
  store-row_errors pd [] w = refl
  store-row_errors pd (re ∷ res) w =
      store-row_errors pd res _
      ∙ store-save_failed pd _
      ∙ store-write_dlq (delivery_row env pd) pd.entity_key re.error
          (record w { stats = add_errored w.stats 1 })

  store-succeed :
      (pd : PendingDelivery) (ids : Assoc String) (p : Phase2 S D)
      → (succeed env pd ids p).world.store ≡ p.world.store
  unfolding succeed persist
  store-succeed pd ids p = rw (dry, succeed, persist)

  store-load_failed :
      (pd : PendingDelivery) (e : GoError) (p : Phase2 S D)
      → (load_failed env pd e p).world.store ≡ p.world.store
  unfolding load_failed
  store-load_failed pd e p =
      store-save_failed pd _
      ∙ store-write_dlq (delivery_row env pd) pd.entity_key e
          (record (p.world) { stats = add_errored p.world.stats 1 })

  store-load_returned :
      (pd : PendingDelivery) (res : LoadResult) (p : Phase2 S D)
      → (load_returned env pd res p).world.store ≡ p.world.store
  unfolding load_returned
  store-load_returned pd res p =
      let p' = record p { world = row_errors env pd res.errors p.world } in
      ground
        (arith, store-row_errors pd res.errors p.world, store-succeed pd res.destination_ids p')

  module _ (keeps : LoadKeepsStore env) where
    store-load_one :
        (dest : Destination S D) (pd : PendingDelivery) (p : Phase2 S D)
        → env.dest ≡ some dest
        → (load_one env dest pd p).world.store ≡ p.world.store
    unfolding load_one
    store-load_one dest pd p h =
        let a = answer env dest pd p in
        let kept =
          keeps dest h (delivery_row env pd ∷ []) env.spec.name env.dest_name p.world.dest
            p.world.store in
        elim (Option-cases a.3) [
          | inr (e, g) ↦ rw (g, load_one) (store-load_failed pd e (after_load env a p) ∙ kept)
          | inl g ↦ rw (g, load_one) (store-load_returned pd a.2 (after_load env a p) ∙ kept)
        ]

    store-deliver_one :
        (pd : PendingDelivery) (p : Phase2 S D) → (deliver_one env pd p).world.store ≡ p.world.store
    unfolding deliver_one
    store-deliver_one pd p = elim (Option-cases (allow env.spec.safety pd.plan.action p.counts)) [
      | inr (e, h) ↦ rw (h, deliver_one) refl
      | inl h ↦ elim (Option-cases env.dest) [
        | inl g ↦ rw (h, g, deliver_one) (store-succeed pd [] (loaded_nowhere env p))
        | inr (dest, g) ↦ rw (h, g, deliver_one) (store-load_one dest pd p g)
      ]
    ]

    pub store-deliver_all :
        (pds : List PendingDelivery) (p : Phase2 S D)
        → (deliver_all env pds p).world.store ≡ p.world.store
    unfolding deliver_all
    store-deliver_all [] p = refl
    store-deliver_all (pd ∷ pds) p = elim (Bool-cases (is_cancelled env p.world)) [
      | inl h ↦ rw (h, deliver_all) refl
      | inr h ↦
          let asked = record p { world = record (p.world) { polls = p.world.polls + 1 } } in
          rw (h, deliver_all)
            (store-deliver_all pds (deliver_one env pd asked) ∙ store-deliver_one pd asked)
    ]

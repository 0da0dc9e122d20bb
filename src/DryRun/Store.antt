-- ===== src/DryRun/Store.antt =====
-- What the deliveries of `vortara dry-run` do to the store.
use mathlib.Core.Option.{some-injective}
use vortara.Base.{String, List, ◌≡◌, refl, subst}
use vortara.DryRun.{Printed, print_destination, set_dry_run_destination}
use vortara.Engine.{Env, PendingDelivery}
use vortara.Engine.Deliver.{Phase2, deliver_all}
use vortara.Engine.Deliver.Dry.{store-deliver_all}

-- The deliveries of a dry run, which go to printDestination, leave the store as it was: no entity state, rule
-- firing or delivery mark is written, also where a delivery is over a limit or the run is cancelled.
pub print_run-store :
    {S : Type 0} (name : String) (env : Env S (List Printed)) (pds : List PendingDelivery)
    (p : Phase2 S (List Printed))
    → (deliver_all (set_dry_run_destination (print_destination name) env) pds p).world.store
      ≡ p.world.store
unfolding set_dry_run_destination print_destination
print_run-store name env pds p =
    store-deliver_all (set_dry_run_destination (print_destination name) env) refl
      (λ dest k rows n d ds s.
        subst (λ x. (x.load rows n d ds s).1 ≡ s) (some-injective (print_destination name) dest k)
          refl)
      pds p

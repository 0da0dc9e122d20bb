-- ===== src/DryRun.antt =====
-- internal/engine/engine.go, SetDryRunDestination, and cmd/vortara/cmd/dry_run.go, printDestination.
pub mod Store
pub mod Tests
use vortara.Base.{ℕ, String, true, List, [], ◌∷◌, ◌++◌, map, length, Option, none, some}
use vortara.Engine.{Env, Destination, LoadResult}
use vortara.Row.{Row}
use vortara.Value.{Payload}

-- What is printed of a row; the texts around it and the indented JSON are not modelled.
pub record Printed : Type 0 where
  pub name : String
  pub entity : String
  pub fields : Payload

abbrev printed : String → Row → Printed
printed name r = record { name = name; entity = r.primary_key; fields = r.fields }

-- printDestination with its Load, over what was printed before
unfoldable pub print_destination : {S : Type 0} → String → Destination S (List Printed)
print_destination name = record {
  load = λ rows n d out s. (
    out ++ map (printed name) rows,
    s,
    record { loaded = length rows; skipped = 0; errors = []; destination_ids = [] },
    none,
  );
}

-- SetDryRunDestination
unfoldable pub set_dry_run_destination : {S D : Type 0} → Destination S D → Env S D → Env S D
set_dry_run_destination dest env = record env {
  dest = some dest;
  dest_override = true;
  dry_run = true;
}

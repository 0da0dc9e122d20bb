-- ===== src/Destinations/Loading.antt =====
-- internal/connector/destination: what the Load methods of the destinations share. The lines are those of
-- restapi.go; the other destinations repeat them.
pub mod Counts
pub mod Marks
use vortara.Base.{ℕ, suc, String, List, [], ◌∷◌, ◌++◌, Option, none, some}
use vortara.Destinations.RestApi.{Network, Wire}
use vortara.Engine.{LoadResult, RowError}
use vortara.Errors.{GoError}
use vortara.Row.{Row}
use vortara.State.{StateStore}

-- What Load changes: the wire, the store and its result.
pub record Loading (O S : Type 0) : Type 0 where
  pub wire : Wire O
  pub store : S
  pub result : LoadResult

abbrev pub no_result : LoadResult
no_result = record { loaded = 0; skipped = 0; errors = []; destination_ids = [] }

abbrev pub add_error : String → GoError → LoadResult → LoadResult
add_error id e res = record res { errors = res.errors ++ record { row_id = id; error = e } ∷ [] }

module _ {O S : Type 0} where
  abbrev pub start : Wire O → S → Loading O S
  start w s = record { wire = w; store = s; result = no_result }

  abbrev pub failed_row : Row → GoError → Loading O S → Loading O S
  failed_row row e l = record l { result = add_error row.id e l.result }

  abbrev pub skip_row : Loading O S → Loading O S
  skip_row l = record l { result = record (l.result) { skipped = suc l.result.skipped } }

  -- `ctx.Err()`
  abbrev pub poll : Network O → Loading O S → Loading O S × Option GoError
  poll net l =
      let (o, e) = net.poll l.wire.outside in
      (record l { wire = record (l.wire) { outside = o } }, e)

  -- MarkDelivered and the count of a row that was sent.
  unfoldable pub mark_row : StateStore S → String → String → Row → Loading O S → Loading O S
  mark_row store pipeline destination row l =
      let (s, e) = store.mark_delivered l.store row.id pipeline destination in
      let l' = record l { store = s } in
      elim e [
        | some cause ↦ failed_row row cause l'
        | none ↦ record l' { result = record (l'.result) { loaded = suc l'.result.loaded } }
      ]

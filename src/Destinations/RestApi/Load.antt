-- ===== src/Destinations/RestApi/Load.antt =====
-- internal/connector/destination/restapi.go: Load. The goroutines of the rows run whole, one after
-- another, in an order that is a parameter; the run and the replay load one row at a time.
pub mod Ledger
pub mod Once
pub mod Marks
use vortara.Base.{
  ℕ, suc, String, Bool, true, false, not, List, [], ◌∷◌, ◌++◌, Option, none, some, Assoc,
  if◌then◌else◌, length, ◌≡◌, ◌+◌, ◌||◌,
}
use vortara.Destinations.Loading.{Loading, failed_row, skip_row, mark_row, poll, start}
use vortara.Destinations.RestApi.{Network, RestApi, Wire, send_with_retry}
use vortara.Engine.{LoadResult, RowError}
use vortara.Errors.{GoError, Result, ok, err, is_cancellation}
use vortara.Row.{Row}
use vortara.State.{StateStore}
use vortara.Value.{Payload}

module _ {O S : Type 0} (net : Network O) (store : StateStore S) (r : RestApi)
    (pipeline destination : String) where
  unfoldable pub sent_row : Row → Loading O S → Option GoError → Loading O S
  unfolding mark_row
  sent_row row l none = mark_row store pipeline destination row l
  sent_row row l (some e) = if is_cancellation e then l else failed_row row e l

  -- The goroutine of a row.
  unfoldable pub load_row : Row → Loading O S → Loading O S
  unfolding send_with_retry sent_row
  load_row row l = elim (net.marshal row.fields) [
    | err e ↦ failed_row row e l
    | ok body ↦
        let (w, e) = send_with_retry net r row.id body l.wire in
        sent_row row (record l { wire = w }) e
  ]

  unfoldable pub load_rows : List Row → Loading O S → Loading O S
  unfolding load_row
  load_rows [] l = l
  load_rows (row ∷ rows) l = load_rows rows (load_row row l)

  abbrev pub Sorted : Type 0
  Sorted = Loading O S × Result (List Row)

  abbrev pub with_row : Row → Sorted → Sorted
  with_row row (l, err e) = (l, err e)
  with_row row (l, ok pending) = (l, ok (row ∷ pending))

  -- The first loop: it leaves the rows to send.
  unfoldable pub pending_rows : List Row → Loading O S → Sorted
  pending_rows [] l = (l, ok [])
  pending_rows (row ∷ rows) l =
      let (l', stop) = poll net l in
      let failed = λ (e : GoError). pending_rows rows (failed_row row e l') in
      let skipped = pending_rows rows (skip_row l') in
      let kept = with_row row (pending_rows rows l') in
      elim stop [
        | some e ↦ (l', err e)
        | none ↦ elim (store.is_delivered l'.store row.id pipeline destination) [
          | err e ↦ failed e
          | ok delivered ↦ if delivered then skipped else kept
        ]
      ]

  -- The rest of Load behind the first loop.
  unfoldable pub send_pending : (List Row → List Row) → Sorted → Loading O S × Option GoError
  unfolding load_rows
  send_pending order (l, err e) = (l, some e)
  send_pending order (l, ok []) = (l, none)
  send_pending order (l, ok (row ∷ rows)) = poll net (load_rows (order (row ∷ rows)) l)

  -- Load
  unfoldable pub load : (List Row → List Row) → List Row → Wire O → S → Loading O S × Option GoError
  unfolding pending_rows send_pending
  load order rows w s =
      let (l, stop) = poll net (start w s) in
      elim stop [ some e ↦ (l, some e) | none ↦ send_pending order (pending_rows rows l) ]

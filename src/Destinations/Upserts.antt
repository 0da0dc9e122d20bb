-- ===== src/Destinations/Upserts.antt =====
-- internal/connector/destination: the Load that zendesk.go, intercom.go and pipedrive.go have in the same
-- words, up to the check of a row and the request for it. The goroutines of the rows run whole, one after
-- another, in an order that is a parameter.
pub mod Ledger
pub mod Once
pub mod Tests
use vortara.Base.{ℕ, String, Bool, true, false, List, [], ◌∷◌, Option, none, some, if◌then◌else◌}
use vortara.Destinations.Loading.{Loading, failed_row, skip_row, mark_row, poll, start}
use vortara.Destinations.RestApi.{Network, Wire}
use vortara.Errors.{GoError, Result, ok, err}
use vortara.Row.{Row}
use vortara.State.{StateStore}

-- What a destination says of a row before anything is sent, and its requests for one.
pub record Upserts (O : Type 0) : Type 0 where
  pub check : Row → Option GoError
  pub upsert_one : Row → Wire O → Wire O × Option GoError

module _ {O S : Type 0} (store : StateStore S) (pipeline destination : String) where
  abbrev pub keep_row : Row → Loading O S × List Row → Loading O S × List Row
  keep_row row (l, pending) = (l, row ∷ pending)

  -- The first loop, with the rows that it leaves to send.
  unfoldable pub pending_rows :
      (Row → Option GoError) → List Row → Loading O S → Loading O S × List Row
  pending_rows check [] l = (l, [])
  pending_rows check (row ∷ rows) l =
      let failed = λ (e : GoError). pending_rows check rows (failed_row row e l) in
      let skipped = pending_rows check rows (skip_row l) in
      let kept = keep_row row (pending_rows check rows l) in
      elim (store.is_delivered l.store row.id pipeline destination) [
        | err e ↦ failed e
        | ok delivered ↦
            if delivered then skipped else elim (check row) [ some e ↦ failed e | none ↦ kept ]
      ]

  abbrev pub sent_row : Row → Loading O S → Option GoError → Loading O S
  sent_row row l none = mark_row store pipeline destination row l
  sent_row row l (some e) = failed_row row e l

  -- The goroutine of a row.
  unfoldable pub load_row : Upserts O → Row → Loading O S → Loading O S
  unfolding mark_row
  load_row u row l = let (w, e) = u.upsert_one row l.wire in sent_row row (record l { wire = w }) e

  unfoldable pub load_rows : Upserts O → List Row → Loading O S → Loading O S
  unfolding load_row
  load_rows u [] l = l
  load_rows u (row ∷ rows) l = load_rows u rows (load_row u row l)

  -- Load behind its first loop.
  unfoldable pub send_pending :
      Network O
      → Upserts O
      → (List Row → List Row)
      → Loading O S × List Row
      → Loading O S × Option GoError
  unfolding load_rows
  send_pending net u order (l, []) = (l, none)
  send_pending net u order (l, row ∷ rows) = poll net (load_rows u (order (row ∷ rows)) l)

  abbrev pub load_polled :
      Network O
      → Upserts O
      → (List Row → List Row)
      → List Row
      → Loading O S × Option GoError
      → Loading O S × Option GoError
  load_polled net u order rows (l, some e) = (l, some e)
  load_polled net u order [] (l, none) = (l, none)
  load_polled net u order (row ∷ rows) (l, none) =
      send_pending net u order (pending_rows u.check (row ∷ rows) l)

  -- Load
  unfoldable pub load :
      Network O
      → Upserts O
      → (List Row → List Row)
      → List Row
      → Wire O
      → S
      → Loading O S × Option GoError
  unfolding pending_rows send_pending
  load net u order rows w s = load_polled net u order rows (poll net (start w s))

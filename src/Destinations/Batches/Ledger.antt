-- ===== src/Destinations/Batches/Ledger.antt =====
-- Every row that Load is given is counted once, unless Load returns an error or drops a chunk.
use vortara.Base.{ℕ, ◌+◌, String, true, List, [], ◌∷◌, length, Option, none, some, ◌≡◌, ◌⊎◌, arith}
use vortara.Destinations.Batches.{Batches, fail_rows, mark_rows}
use vortara.Destinations.Loading.{Loading, failed_row, mark_row, poll}
use vortara.Destinations.Loading.Counts.{accounted, failed-accounted, mark-accounted}
use vortara.Destinations.RestApi.{Network, Wire}
use vortara.Errors.{GoError, is_cancellation}
use vortara.Row.{Row}
use vortara.State.{StateStore}

-- The last request was for a chunk, and ended with a cancellation though its context was not done.
abbrev pub Dropped : {O S : Type 0} → Network O → Batches O → Loading O S → Type 0
Dropped {O} net b l =
    (chunk : List Row) × (w : Wire O) × (e : GoError) × ((b.send_chunk chunk w).1 ≡ some e)
    × (is_cancellation e ≡ true)
    × (net.poll (b.send_chunk chunk w).0.outside ≡ (l.wire.outside, none))

-- A Load that returns no error has accounted for so many rows, or dropped a chunk.
abbrev pub Settled :
    {O S : Type 0} → Network O → Batches O → ℕ → Loading O S × Option GoError → Type 0
Settled net b m p = p.1 ≡ none → (accounted p.0.result ≡ m) ⊎ Dropped net b p.0

module _ {O S : Type 0} where
  pub fail_rows-accounted :
      (e : GoError) (rows : List Row) (l : Loading O S)
      → accounted (fail_rows e rows l).result ≡ length rows + accounted l.result
  unfolding fail_rows
  fail_rows-accounted e [] l = omega arith
  fail_rows-accounted e (row ∷ rows) l =
      omega (arith, fail_rows-accounted e rows (failed_row row e l), failed-accounted row e l)

  module _ (store : StateStore S) (n d : String) where
    pub mark_rows-accounted :
        (rows : List Row) (l : Loading O S)
        → accounted (mark_rows store n d rows l).result ≡ length rows + accounted l.result
    unfolding mark_rows
    mark_rows-accounted [] l = omega arith
    mark_rows-accounted (row ∷ rows) l =
        omega (
          arith,
          mark_rows-accounted rows (mark_row store n d row l),
          mark-accounted store n d row l,
        )

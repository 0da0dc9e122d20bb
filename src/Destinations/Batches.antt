-- ===== src/Destinations/Batches.antt =====
-- internal/connector/destination: the Load that klaviyo.go and mixpanel.go have in the same words, up to
-- the check of a row, the request for a chunk and the rows in one. The loop over the chunks is on fuel.
pub mod Ledger
pub mod Tests
use vortara.Base.{
  ℕ, zero, suc, String, Bool, true, false, List, [], ◌∷◌, take, drop, length, Option, none, some,
  if◌then◌else◌,
}
use vortara.Destinations.Loading.{Loading, failed_row, mark_row, poll, start}
use vortara.Destinations.RestApi.{Network, Wire}
use vortara.Destinations.Upserts.{pending_rows}
use vortara.Errors.{GoError, is_cancellation}
use vortara.Row.{Row}
use vortara.State.{StateStore}

-- The most rows in a chunk, less one, what a destination says of a row before anything is sent, and its
-- request for a chunk.
pub record Batches (O : Type 0) : Type 0 where
  pub more : ℕ
  pub check : Row → Option GoError
  pub send_chunk : List Row → Wire O → Wire O × Option GoError

module _ {O S : Type 0} where
  unfoldable pub fail_rows : GoError → List Row → Loading O S → Loading O S
  fail_rows e [] l = l
  fail_rows e (row ∷ rows) l = fail_rows e rows (failed_row row e l)

  module _ (store : StateStore S) (pipeline destination : String) where
    unfoldable pub mark_rows : List Row → Loading O S → Loading O S
    unfolding mark_row
    mark_rows [] l = l
    mark_rows (row ∷ rows) l = mark_rows rows (mark_row store pipeline destination row l)

    -- What the loop does with the answer to a chunk, and the rest of the loop.
    abbrev pub after_chunk :
        Network O
        → List Row
        → Loading O S
        → Option GoError
        → (Loading O S → Loading O S × Option GoError)
        → Loading O S × Option GoError
    after_chunk net chunk l none next = next (mark_rows chunk l)
    after_chunk net chunk l (some e) next =
        if is_cancellation e then poll net l else next (fail_rows e chunk l)

    unfoldable pub load_chunks :
        Network O → Batches O → ℕ → List Row → Loading O S → Loading O S × Option GoError
    unfolding mark_rows fail_rows
    load_chunks net b zero rows l = (l, none)
    load_chunks net b (suc fuel) [] l = (l, none)
    load_chunks net b (suc fuel) (row ∷ rows) l =
        let chunk = take (suc b.more) (row ∷ rows) in
        let (w, e) = b.send_chunk chunk l.wire in
        let rest = drop (suc b.more) (row ∷ rows) in
        after_chunk net chunk (record l { wire = w }) e (λ l'. load_chunks net b fuel rest l')

    abbrev pub load_sorted :
        Network O → Batches O → Loading O S × List Row → Loading O S × Option GoError
    load_sorted net b (l, pending) = load_chunks net b (length pending) pending l

    abbrev pub load_polled :
        Network O
        → Batches O
        → List Row
        → Loading O S × Option GoError
        → Loading O S × Option GoError
    load_polled net b rows (l, some e) = (l, some e)
    load_polled net b [] (l, none) = (l, none)
    load_polled net b (row ∷ rows) (l, none) =
        load_sorted net b (pending_rows store pipeline destination b.check (row ∷ rows) l)

    -- Load
    unfoldable pub load :
        Network O → Batches O → List Row → Wire O → S → Loading O S × Option GoError
    unfolding pending_rows load_chunks
    load net b rows w s = load_polled net b rows (poll net (start w s))

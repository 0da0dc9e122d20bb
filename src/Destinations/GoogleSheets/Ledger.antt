-- ===== src/Destinations/GoogleSheets/Ledger.antt =====
-- Every row that the Load of Google Sheets is given is counted once.
use vortara.Base.{ℕ, ◌+◌, String, List, [], ◌∷◌, length, Option, none, some, ◌≡◌, arith, ◌∙◌}
use vortara.Destinations.Batches.Ledger.{fail_rows-accounted, mark_rows-accounted}
use vortara.Destinations.GoogleSheets.{
  GoogleSheets, after_append, append_pending, load_polled, load, cells, columns_or,
}
use vortara.Destinations.Loading.{Loading, poll, start}
use vortara.Destinations.Loading.Counts.{accounted, Done}
use vortara.Destinations.RestApi.{Network, Wire}
use vortara.Destinations.Upserts.{pending_rows}
use vortara.Destinations.Upserts.Ledger.{Accounts, pending-Accounts}
use vortara.Errors.{GoError}
use vortara.Row.{Row}
use vortara.Runtime.{Runtime}
use vortara.State.{StateStore}
use vortara.Value.{Value}

module _ {O S : Type 0} (rt : Runtime) (net : Network O)
    (append : String → String → List (List Value) → O → O × Option GoError) (g : GoogleSheets)
    (store : StateStore S) (n d : String) where
  after-accounted :
      (rows : List Row) (l : Loading O S) (e : Option GoError)
      → accounted (after_append rt net append g store n d rows l e).result
        ≡ length rows + accounted l.result
  after-accounted rows l none = mark_rows-accounted store n d rows l
  after-accounted rows l (some e) = fail_rows-accounted e rows l

  append-accounted :
      (k : ℕ) (p : Loading O S × List Row)
      → Accounts store n d k p
      → accounted (append_pending rt net append g store n d p).result ≡ k
  unfolding append_pending
  append-accounted k (l, []) a = omega arith
  append-accounted k (l, row ∷ rows) a =
      let values = cells rt (columns_or g.columns (row ∷ rows)) (row ∷ rows) in
      let (o, e) = append g.spreadsheet_id g.sheet_name values l.wire.outside in
      after-accounted (row ∷ rows) (record l { wire = record (l.wire) { outside = o } }) e
      ∙ omega arith

  polled-Done :
      (rows : List Row) (l : Loading O S) (e : Option GoError)
      → Done (length rows + accounted l.result) (load_polled rt net append g store n d rows (l, e))
  polled-Done rows l (some e) h = absurd (ground arith)
  polled-Done rows l none h =
      append-accounted (length rows + accounted l.result)
        (pending_rows store n d (λ row. none) rows l)
        (pending-Accounts store n d (λ row. none) rows l)

-- If Load of Google Sheets returns no error, it counts every row that it was given once: as loaded, as
-- skipped or in its errors.
sheets-accounted :
    {O S : Type 0} (rt : Runtime) (net : Network O)
    (append : String → String → List (List Value) → O → O × Option GoError) (g : GoogleSheets)
    (store : StateStore S) (n d : String) (rows : List Row) (w : Wire O) (s : S)
    → (load rt net append g store n d rows w s).1 ≡ none
    → let res = (load rt net append g store n d rows w s).0.result in
      res.loaded + res.skipped + length res.errors ≡ length rows
unfolding load
sheets-accounted rt net append g store n d rows w s h =
    polled-Done rt net append g store n d rows (poll net (start w s)).0 (net.poll w.outside).1 h
    ∙ omega arith

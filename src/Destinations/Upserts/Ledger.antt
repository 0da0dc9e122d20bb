-- ===== src/Destinations/Upserts/Ledger.antt =====
-- Every row that Load is given is counted once.
use vortara.Base.{
  ℕ, suc, ◌+◌, String, List, [], ◌∷◌, Option, none, some, length, ◌≡◌, arith, Option-cases,
  Bool-cases, inl, inr,
}
use vortara.Destinations.Loading.{Loading, failed_row, skip_row, poll, start}
use vortara.Destinations.Loading.Counts.{accounted, failed-accounted, mark-accounted}
use vortara.Destinations.RestApi.{Network, Wire}
use vortara.Destinations.Upserts.{
  Upserts, pending_rows, sent_row, load_row, load_rows, send_pending, load_polled, load,
}
use vortara.Errors.{GoError, Result-cases}
use vortara.Row.{Row}
use vortara.State.{StateStore}

module _ {O S : Type 0} (store : StateStore S) (n d : String) where
  sent-accounted :
      (row : Row) (l : Loading O S) (e : Option GoError)
      → accounted (sent_row store n d row l e).result ≡ suc (accounted l.result)
  sent-accounted row l none = mark-accounted store n d row l
  sent-accounted row l (some e) = failed-accounted row e l

  pub row-accounted :
      (u : Upserts O) (row : Row) (l : Loading O S)
      → accounted (load_row store n d u row l).result ≡ suc (accounted l.result)
  unfolding load_row
  row-accounted u row l =
      let (w, e) = u.upsert_one row l.wire in sent-accounted row (record l { wire = w }) e

  pub rows-accounted :
      (u : Upserts O) (rows : List Row) (l : Loading O S)
      → accounted (load_rows store n d u rows l).result ≡ length rows + accounted l.result
  unfolding load_rows
  rows-accounted u [] l = omega arith
  rows-accounted u (row ∷ rows) l =
      omega (arith, rows-accounted u rows (load_row store n d u row l), row-accounted u row l)

  abbrev pub Accounts : ℕ → Loading O S × List Row → Type 0
  Accounts k (l, pending) = accounted l.result + length pending ≡ k

  pub pending-Accounts :
      (check : Row → Option GoError) (rows : List Row) (l : Loading O S)
      → Accounts (length rows + accounted l.result) (pending_rows store n d check rows l)
  unfolding pending_rows
  pending-Accounts check [] l = omega arith
  pending-Accounts check (row ∷ rows) l =
      elim (Result-cases (store.is_delivered l.store row.id n d)) [
        | inl (e, h) ↦
            rw (h, pending_rows)
              (omega
                (arith, failed-accounted row e l, pending-Accounts check rows (failed_row row e l)))
        | inr (delivered, h) ↦ elim (Bool-cases delivered) [
          | inl z ↦
              rw (h, z, pending_rows) (omega (arith, pending-Accounts check rows (skip_row l)))
          | inr z ↦ elim (Option-cases (check row)) [
            | inr (e, c) ↦
                rw (h, z, c, pending_rows)
                  (omega (
                    arith,
                    failed-accounted row e l,
                    pending-Accounts check rows (failed_row row e l),
                  ))
            | inl c ↦ rw (h, z, c, pending_rows) (omega (arith, pending-Accounts check rows l))
          ]
        ]
      ]

  send-accounted :
      (net : Network O) (u : Upserts O) (order : List Row → List Row)
      → ((rows : List Row) → length (order rows) ≡ length rows)
      → (k : ℕ) (p : Loading O S × List Row) → Accounts k p
      → accounted (send_pending store n d net u order p).0.result ≡ k
  unfolding send_pending
  send-accounted net u order permutes k (l, []) a = omega arith
  send-accounted net u order permutes k (l, row ∷ rows) a =
      omega (arith, rows-accounted u (order (row ∷ rows)) l, permutes (row ∷ rows))

  polled-accounted :
      (net : Network O) (u : Upserts O) (order : List Row → List Row)
      → ((rows : List Row) → length (order rows) ≡ length rows)
      → (rows : List Row) (l : Loading O S) (e : Option GoError) → e ≡ none
      → accounted (load_polled store n d net u order rows (l, e)).0.result
        ≡ length rows + accounted l.result
  polled-accounted net u order permutes rows l (some x) h = absurd (ground arith)
  polled-accounted net u order permutes [] l none h = omega arith
  polled-accounted net u order permutes (row ∷ rows) l none h =
      send-accounted net u order permutes (length (row ∷ rows) + accounted l.result)
        (pending_rows store n d u.check (row ∷ rows) l) (pending-Accounts u.check (row ∷ rows) l)

-- Unless the context was done before Load began, Load of Zendesk, Intercom or Pipedrive counts every row
-- that it was given once: as loaded, as skipped or in its errors, also where it returns an error. The
-- goroutines may run in any order that runs each of them once.
pub upserts-accounted :
    {O S : Type 0} (net : Network O) (store : StateStore S) (u : Upserts O) (n d : String)
    (order : List Row → List Row)
    → ((rows : List Row) → length (order rows) ≡ length rows)
    → (rows : List Row) (w : Wire O) (s : S) → (net.poll w.outside).1 ≡ none
    → let res = (load store n d net u order rows w s).0.result in
      res.loaded + res.skipped + length res.errors ≡ length rows
unfolding load
upserts-accounted net store u n d order permutes rows w s h = omega (
  arith,
  polled-accounted store n d net u order permutes rows (poll net (start w s)).0
      (net.poll w.outside).1 h,
)

-- ===== src/Destinations/RestApi/Load/Once.antt =====
-- A row that was delivered is not sent again.
use vortara.Base.{String, List, [], ◌∷◌, All, ◌≡◌, refl, arith, Option-cases, inl, inr}
use vortara.Destinations.RestApi.{Network, RestApi, Wire}
use vortara.Destinations.Loading.Marks.{Delivered, not_asked, asked, Polled-snoc, Quiet}
use vortara.Destinations.Loading.{Loading, poll, skip_row, start}
use vortara.Destinations.RestApi.Load.{pending_rows, send_pending, load}
use vortara.Destinations.RestApi.Load.Ledger.{load-stopped, load-started}
use vortara.Errors.{Result, ok, err}
use vortara.Row.{Row}
use vortara.State.{StateStore}

module _ {O S : Type 0} (net : Network O) (store : StateStore S) (r : RestApi) (n d : String) where
  -- The same of a first loop that has left no row to send.
  abbrev Settled : Wire O → S → Loading O S × Result (List Row) → Type 0
  Settled w s (l, err e) = Quiet net w s l
  Settled w s (l, ok pending) = Quiet net w s l × (pending ≡ [])

  pending-Settled :
      (rows : List Row) (w : Wire O) (s : S) (l : Loading O S)
      → Quiet net w s l
      → All (Delivered store n d s) rows
      → Settled w s (pending_rows net store r n d rows l)
  unfolding pending_rows
  pending-Settled [] w s l q h = (q, refl)
  pending-Settled (row ∷ rows) w s l (a, b, c, e, p) (g, h) = elim (Option-cases (poll net l).1) [
    | inr (x, z) ↦ rw (z, pending_rows) (a, b, c, e, Polled-snoc net p)
    | inl z ↦
        rw (z, a, g, pending_rows)
          (pending-Settled rows w s (skip_row (poll net l).0) (a, b, c, e, Polled-snoc net p) h)
  ]

  send-Quiet :
      (order : List Row → List Row) (w : Wire O) (s : S) (p : Loading O S × Result (List Row))
      → Settled w s p
      → Quiet net w s (send_pending net store r n d order p).0
  unfolding send_pending
  send-Quiet order w s (l, err e) h = h
  send-Quiet order w s (l, ok []) (h, z) = h
  send-Quiet order w s (l, ok (row ∷ rows)) (h, z) = absurd (ground arith)

-- Where every row has been delivered before, Load sends nothing: it only asks for the context's error,
-- counts no row as loaded, finds no error in one, and leaves the store and the circuit breaker alone.
pub load-Delivered :
    {O S : Type 0} (net : Network O) (store : StateStore S) (r : RestApi) (n d : String)
    (order : List Row → List Row) (rows : List Row) (w : Wire O) (s : S)
    → All (Delivered store n d s) rows
    → Quiet net w s (load net store r n d order rows w s).0
load-Delivered net store r n d order rows w s h =
    let l = (poll net (start w s)).0 in
    elim (Option-cases (poll net (start w s)).1) [
      | inr (e, z) ↦
          rw (load-stopped net store r n d order rows w s e z)
            (refl, refl, refl, refl, asked not_asked)
      | inl z ↦ rw (load-started net store r n d order rows w s z) (
          send-Quiet net store r n d order w s (pending_rows net store r n d rows l) (
            pending-Settled net store r n d rows w s l (refl, refl, refl, refl, asked not_asked) h))
    ]

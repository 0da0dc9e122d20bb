-- ===== src/Destinations/RestApi/Load/Marks.antt =====
-- A row that Load counts as loaded is marked in the store, so the next Load does not send it.
use vortara.Base.{
  String, true, [], ◌∷◌, Option, none, some, ◌≡◌, refl, arith, ◌∙◌, Option-cases, Bool-cases, inl,
  inr, ◌⊎◌,
}
use vortara.Destinations.RestApi.{Network, RestApi, Wire, send_with_retry}
use vortara.Destinations.Loading.Marks.{Quiet, RemembersMarks, Marked, mark-Marked}
use vortara.Destinations.Loading.{Loading, poll, start}
use vortara.Destinations.RestApi.Load.{
  pending_rows, sent_row, load_row, load_rows, send_pending, load,
}
use vortara.Destinations.RestApi.Load.Ledger.{load-stopped, load-started}
use vortara.Destinations.RestApi.Load.Once.{load-Delivered}
use vortara.Errors.{GoError, ok, Result-cases, is_cancellation}
use vortara.Row.{Row}
use vortara.State.{StateStore}

module _ {O S : Type 0} (net : Network O) (store : StateStore S) (r : RestApi) (n d : String)
    (marks : RemembersMarks store) where
  sent-Marked :
      (row : Row) (l : Loading O S) (e : Option GoError)
      → Marked store n d row l (sent_row net store r n d row l e)
  unfolding sent_row
  sent-Marked row l none = mark-Marked store n d marks row l
  sent-Marked row l (some e) = elim (Bool-cases (is_cancellation e)) [
    | inl g ↦ rw g (inl refl)
    | inr g ↦ rw g (inl refl)
  ]

  row-Marked :
      (row : Row) (l : Loading O S) → Marked store n d row l (load_row net store r n d row l)
  unfolding load_row
  row-Marked row l = elim (Result-cases (net.marshal row.fields)) [
    | inl (e, g) ↦ rw (g, load_row) (inl refl)
    | inr (body, g) ↦
        let (w, e) = send_with_retry net r row.id body l.wire in
        rw (g, load_row) (sent-Marked row (record l { wire = w }) e)
  ]

  -- The same of the whole call on one row.
  abbrev Told : Row → Loading O S → Type 0
  Told row l = (l.result.loaded ≡ 0) ⊎ (store.is_delivered l.store row.id n d ≡ ok true)

  send-Told :
      (row : Row) (l : Loading O S)
      → l.result.loaded ≡ 0
      → Told row
          (send_pending net store r n d
            (λ rows. rows)
            (pending_rows net store r n d (row ∷ []) l)).0
  unfolding send_pending pending_rows load_rows
  send-Told row l z =
      let l' = (poll net l).0 in
      elim (Option-cases (poll net l).1) [
        | inr (e, g) ↦ rw (g, pending_rows) (inl z)
        | inl g ↦ elim (Result-cases (store.is_delivered l'.store row.id n d)) [
          | inl (e, h) ↦ rw (g, h, pending_rows) (inl z)
          | inr (delivered, h) ↦ elim (Bool-cases delivered) [
            | inl y ↦ rw (g, h, y, pending_rows) (inl z)
            | inr y ↦
                rw (g, h, y, pending_rows)
                  (elim (row-Marked row l') [ inl m ↦ inl (m ∙ z) | inr m ↦ inr m ])
          ]
        ]
      ]

  load-Told :
      (row : Row) (w : Wire O) (s : S)
      → Told row (load net store r n d (λ rows. rows) (row ∷ []) w s).0
  load-Told row w s = elim (Option-cases (poll net (start w s)).1) [
    | inr (e, z) ↦ rw (load-stopped net store r n d (λ rows. rows) (row ∷ []) w s e z) (inl refl)
    | inl z ↦
        rw (load-started net store r n d (λ rows. rows) (row ∷ []) w s z)
          (send-Told row (poll net (start w s)).0 refl)
  ]

-- A row that one Load counts as loaded is not sent by the next: over the store that the first one
-- left, Load with the same row only asks for the context's error and changes neither the store nor the
-- circuit breaker. The store is to remember the marks that it makes.
pub load-again :
    {O S : Type 0} (net : Network O) (store : StateStore S) (r : RestApi) (n d : String)
    → RemembersMarks store
    → (row : Row) (w w' : Wire O) (s : S)
    → (load net store r n d (λ rows. rows) (row ∷ []) w s).0.result.loaded ≡ 1
    → let s' = (load net store r n d (λ rows. rows) (row ∷ []) w s).0.store in
      Quiet net w' s' (load net store r n d (λ rows. rows) (row ∷ []) w' s').0
load-again net store r n d marks row w w' s h =
    let l = (load net store r n d (λ rows. rows) (row ∷ []) w s).0 in
    load-Delivered net store r n d (λ rows. rows) (row ∷ []) w' l.store
      (marked (load-Told net store r n d marks row w s), tt)
  where
    marked :
        Told net store r n d marks row (load net store r n d (λ rows. rows) (row ∷ []) w s).0
        → store.is_delivered (load net store r n d (λ rows. rows) (row ∷ []) w s).0.store row.id n d
          ≡ ok true
    marked (inl z) = absurd (omega arith)
    marked (inr m) = m

-- ===== src/Destinations/Upserts/Once.antt =====
-- A row that was delivered is not sent again, and what Load does to the store.
use vortara.Base.{
  String, List, [], ◌∷◌, All, ◌≡◌, refl, arith, Option, none, some, ◌∙◌, Option-cases, Bool-cases,
  inl, inr, ◌⊎◌,
}
use vortara.Destinations.Loading.Marks.{
  Delivered, not_asked, asked, Quiet, RemembersMarks, Marked, mark-Marked,
}
use vortara.Destinations.Loading.{Loading, poll, start, skip_row}
use vortara.Destinations.RestApi.{Network, Wire}
use vortara.Destinations.Upserts.{
  Upserts, pending_rows, load_row, load_rows, send_pending, load_polled, load,
}
use vortara.Errors.{GoError, Result-cases}
use vortara.Row.{Row}
use vortara.State.{StateStore}

module _ {O S : Type 0} (store : StateStore S) (n d : String) where
  pending-Delivered :
      (check : Row → Option GoError) (rows : List Row) (net : Network O) (w : Wire O) (s : S)
      (l : Loading O S)
      → Quiet net w s l
      → All (Delivered store n d s) rows
      → Quiet net w s (pending_rows store n d check rows l).0
        × ((pending_rows store n d check rows l).1 ≡ [])
  unfolding pending_rows
  pending-Delivered check [] net w s l q h = (q, refl)
  pending-Delivered check (row ∷ rows) net w s l (a, b, c, e, p) (g, h) =
      rw (a, g, pending_rows) (pending-Delivered check rows net w s (skip_row l) (a, b, c, e, p) h)

  send-Quiet :
      (net : Network O) (u : Upserts O) (order : List Row → List Row) (w : Wire O) (s : S)
      (p : Loading O S × List Row)
      → Quiet net w s p.0
      → p.1 ≡ []
      → Quiet net w s (send_pending store n d net u order p).0
  unfolding send_pending
  send-Quiet net u order w s (l, []) q h = q
  send-Quiet net u order w s (l, row ∷ rows) q h = absurd (ground arith)

  polled-Quiet :
      (net : Network O) (u : Upserts O) (order : List Row → List Row) (rows : List Row) (w : Wire O)
      (s : S) (l : Loading O S) (e : Option GoError)
      → Quiet net w s l
      → All (Delivered store n d s) rows
      → Quiet net w s (load_polled store n d net u order rows (l, e)).0
  polled-Quiet net u order rows w s l (some e) q h = q
  polled-Quiet net u order [] w s l none q h = q
  polled-Quiet net u order (row ∷ rows) w s l none q h =
      let (a, b) = pending-Delivered u.check (row ∷ rows) net w s l q h in
      send-Quiet net u order w s (pending_rows store n d u.check (row ∷ rows) l) a b

  pub upserts-Quiet :
      (net : Network O) (u : Upserts O) (order : List Row → List Row) (rows : List Row) (w : Wire O)
      (s : S)
      → All (Delivered store n d s) rows
      → Quiet net w s (load store n d net u order rows w s).0
  unfolding load
  upserts-Quiet net u order rows w s h =
      polled-Quiet net u order rows w s (poll net (start w s)).0 (net.poll w.outside).1
        (refl, refl, refl, refl, asked not_asked) h

  module _ (u : Upserts O) where
    row-Marked :
        RemembersMarks store
        → (row : Row) (l : Loading O S) → Marked store n d row l (load_row store n d u row l)
    unfolding load_row
    row-Marked marks row l = elim (Option-cases (u.upsert_one row l.wire).1) [
      | inl g ↦
          rw (g, load_row)
            (mark-Marked store n d marks row (record l { wire = (u.upsert_one row l.wire).0 }))
      | inr (e, g) ↦ rw (g, load_row) (inl refl)
    ]

    -- Load of one row counts it as loaded only if the store then has its mark.
    abbrev Told : Row → Loading O S → Type 0
    Told row l = (l.result.loaded ≡ 0) ⊎ Delivered store n d l.store row

    pending-Told :
        RemembersMarks store
        → (net : Network O) (row : Row) (l : Loading O S) → l.result.loaded ≡ 0
        → Told row
            (send_pending store n d net u
              (λ rows. rows)
              (pending_rows store n d u.check (row ∷ []) l)).0
    unfolding send_pending pending_rows load_rows
    pending-Told marks net row l z = elim (Result-cases (store.is_delivered l.store row.id n d)) [
      | inl (e, h) ↦ rw (h, pending_rows) (inl z)
      | inr (delivered, h) ↦ elim (Bool-cases delivered) [
        | inl y ↦ rw (h, y, pending_rows) (inl z)
        | inr y ↦ elim (Option-cases (u.check row)) [
          | inr (e, c) ↦ rw (h, y, c, pending_rows) (inl z)
          | inl c ↦
              rw (h, y, c, pending_rows)
                (elim (row-Marked marks row l) [ inl m ↦ inl (m ∙ z) | inr m ↦ inr m ])
        ]
      ]
    ]

    polled-Told :
        RemembersMarks store
        → (net : Network O) (row : Row) (l : Loading O S) (e : Option GoError) → l.result.loaded ≡ 0
        → Told row (load_polled store n d net u (λ rows. rows) (row ∷ []) (l, e)).0
    polled-Told marks net row l (some e) z = inl z
    polled-Told marks net row l none z = pending-Told marks net row l z

    pub upserts-Told :
        RemembersMarks store
        → (net : Network O) (row : Row) (w : Wire O) (s : S)
        → Told row (load store n d net u (λ rows. rows) (row ∷ []) w s).0
    unfolding load
    upserts-Told marks net row w s =
        polled-Told marks net row (poll net (start w s)).0 (net.poll w.outside).1 refl

-- A row that one Load of Zendesk, Intercom or Pipedrive counts as loaded is not sent by the next: over the
-- store that the first one left, Load with the same row only asks for the context's error and changes
-- neither the store nor the circuit breaker. The store is to remember the marks that it makes.
pub upserts-again :
    {O S : Type 0} (net : Network O) (store : StateStore S) (u : Upserts O) (n d : String)
    → RemembersMarks store
    → (row : Row) (w w' : Wire O) (s : S)
    → (load store n d net u (λ rows. rows) (row ∷ []) w s).0.result.loaded ≡ 1
    → let s' = (load store n d net u (λ rows. rows) (row ∷ []) w s).0.store in
      Quiet net w' s' (load store n d net u (λ rows. rows) (row ∷ []) w' s').0
upserts-again net store u n d marks row w w' s h =
    let s' = (load store n d net u (λ rows. rows) (row ∷ []) w s).0.store in
    elim (upserts-Told store n d u marks net row w s) [
      | inl z ↦ absurd (omega arith)
      | inr m ↦ upserts-Quiet store n d net u (λ rows. rows) (row ∷ []) w' s' (m, tt)
    ]

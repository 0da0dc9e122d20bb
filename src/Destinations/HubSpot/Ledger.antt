-- ===== src/Destinations/HubSpot/Ledger.antt =====
-- How HubSpot's Load ends.
use vortara.Base.{
  ℕ, suc, ◌+◌, String, true, false, List, [], ◌∷◌, length, Option, none, some, ◌≡◌, arith, ◌∙◌,
  Option-cases, inl, inr, ◌⊎◌, subst,
}
use vortara.Destinations.Client.{Web}
use vortara.Destinations.HubSpot.{
  HubSpot, Outcome, delivered_as, row_failed, fatal, is_auth, stored_id_of,
}
use vortara.Destinations.HubSpot.Outcomes.{Fair, deliver-Fair}
use vortara.Destinations.HubSpot.Refusals.{Cause}
use vortara.Destinations.HubSpot.Load.{
  mark_contact, after_row, deliver, deliver_row, load_rows, load,
}
use vortara.Destinations.Loading.{Loading, failed_row, skip_row, poll, start}
use vortara.Destinations.Loading.Counts.{accounted, failed-accounted}
use vortara.Destinations.RestApi.{Wire}
use vortara.Errors.{GoError, Result, Result-cases}
use vortara.Row.{Row}
use vortara.Runtime.{Runtime}
use vortara.State.{StateStore}

-- An error that ends a run: one of the class auth_failed with its cause, or an error of the context.
abbrev pub Stops : {O : Type 0} → Web O → GoError → Type 0
Stops {O} web e = ((is_auth e ≡ true) × Cause web e) ⊎ ((o : O) × ((web.net.poll o).1 ≡ some e))

-- Load has accounted for so many rows, or was stopped.
abbrev pub Ends : {O S : Type 0} → Web O → ℕ → Loading O S × Option GoError → Type 0
Ends web m (l, none) = accounted l.result ≡ m
Ends web m (l, some e) = Stops web e

module _ {O S : Type 0} (rt : Runtime) (web : Web O)
    (decode_error : String → Option (String × String)) (decode_ids : String → Result (List String))
    (decode_id : String → Result String) (h : HubSpot) (store : StateStore S) (n d : String) where
  contact-accounted :
      (row : Row) (id : String) (l : Loading O S)
      → accounted
          (mark_contact rt web decode_error decode_ids decode_id h store n d row id l).result
        ≡ suc (accounted l.result)
  unfolding mark_contact
  contact-accounted row id l =
      let (s, e) = store.mark_delivered l.store row.id n d in
      elim (Option-cases e) [
        | inl g ↦ rw (g, mark_contact) (omega arith)
        | inr (cause, g) ↦
            rw (g, mark_contact) (failed-accounted row cause (record l { store = s }))
      ]

  next-Ends :
      (m : ℕ) (l l' : Loading O S) (p : Loading O S × Option GoError)
      → Ends web (m + accounted l'.result) p
      → accounted l'.result ≡ suc (accounted l.result)
      → Ends web (suc m + accounted l.result) p
  next-Ends m l l' (end, none) done z = done ∙ omega arith
  next-Ends m l l' (end, some e) done z = done

  after-Ends :
      (m : ℕ) (row : Row) (l : Loading O S) (out : Outcome)
      (next : Loading O S → Loading O S × Option GoError)
      → Fair web out
      → ((l' : Loading O S) → accounted l'.result ≡ suc (accounted l.result) → Ends web m (next l'))
      → Ends web m (after_row rt web decode_error decode_ids decode_id h store n d row l out next)
  after-Ends m row l (fatal e) next fair more = inl fair
  after-Ends m row l (row_failed e) next fair more =
      more (failed_row row e l) (failed-accounted row e l)
  after-Ends m row l (delivered_as id) next fair more =
      more (mark_contact rt web decode_error decode_ids decode_id h store n d row id l)
        (contact-accounted row id l)

  rows-Ends :
      (rows : List Row) (l : Loading O S)
      → Ends web
          (length rows + accounted l.result)
          (load_rows rt web decode_error decode_ids decode_id h store n d rows l)
  unfolding load_rows deliver_row
  rows-Ends [] l = omega arith
  rows-Ends (row ∷ rows) l =
      let l1 = (poll web.net l).0 in
      let next = λ (l' : Loading O S).
        load_rows rt web decode_error decode_ids decode_id h store n d rows l' in
      let more = λ (l' : Loading O S). next-Ends (length rows) l l' (next l') (rows-Ends rows l') in
      elim (Option-cases (poll web.net l).1) [
        | inr (e, g) ↦ rw (g, load_rows) (inr (l.wire.outside, g))
        | inl g ↦ elim (Result-cases (store.is_delivered l1.store row.id n d)) [
          | inl (e, z) ↦
              rw (g, z, load_rows) (more (failed_row row e l1) (failed-accounted row e l1))
          | inr (true, z) ↦ rw (g, z, load_rows) (more (skip_row l1) (omega arith))
          | inr (false, z) ↦
              let (o, out) =
                deliver rt web decode_error decode_ids decode_id h store n d row l1.wire.outside
                  l1.store in
              rw (g, z, load_rows)
                (after-Ends (length (row ∷ rows) + accounted l.result) row
                  (record l1 { wire = record (l1.wire) { outside = o } }) out next
                  (deliver-Fair rt web decode_error decode_ids decode_id h row
                    (stored_id_of (store.get_entity_state l1.store n d row.primary_key))
                    l1.wire.outside)
                  more)
        ]
      ]

-- Load of HubSpot either returns no error and has counted every row once, as loaded, as skipped or in its
-- errors, or it returns an error of the context or one of the class auth_failed. The latter is the error of an
-- answer 401 or 403 to a request, with that code, or one that kept a request from being made or authenticated.
pub hubspot-Ends :
    {O S : Type 0} (rt : Runtime) (web : Web O) (decode_error : String → Option (String × String))
    (decode_ids : String → Result (List String)) (decode_id : String → Result String) (h : HubSpot)
    (store : StateStore S) (n d : String) (rows : List Row) (w : Wire O) (s : S)
    → Ends web (length rows) (load rt web decode_error decode_ids decode_id h store n d rows w s)
unfolding load
hubspot-Ends rt web decode_error decode_ids decode_id h store n d rows w s =
    elim (Option-cases (web.net.poll w.outside).1) [
      | inr (e, g) ↦ rw g (inr (w.outside, g))
      | inl g ↦
          let l = (poll web.net (start w s)).0 in
          rw g (
            subst
              (λ m.
                Ends web m (load_rows rt web decode_error decode_ids decode_id h store n d rows l))
              (omega arith) (rows-Ends rt web decode_error decode_ids decode_id h store n d rows l))
    ]

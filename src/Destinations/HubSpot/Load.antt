-- ===== src/Destinations/HubSpot/Load.antt =====
-- internal/connector/destination/hubspot.go: Load.
use vortara.Base.{
  suc, String, true, false, List, [], ◌∷◌, Option, none, some, insert, ◌==◌, if◌then◌else◌,
}
use vortara.Destinations.Client.{Web}
use vortara.Destinations.HubSpot.{
  HubSpot, Outcome, delivered_as, row_failed, fatal, stored_id_of, deliver_to,
}
use vortara.Destinations.Loading.{Loading, failed_row, skip_row, poll, start}
use vortara.Destinations.RestApi.{Wire}
use vortara.Errors.{GoError, Result, ok, err}
use vortara.Row.{Row}
use vortara.Runtime.{Runtime}
use vortara.State.{StateStore}

module _ {O S : Type 0} (rt : Runtime) (web : Web O)
    (decode_error : String → Option (String × String)) (decode_ids : String → Result (List String))
    (decode_id : String → Result String) (h : HubSpot) (store : StateStore S)
    (pipeline destination : String) where
  -- deliver
  abbrev pub deliver : Row → O → S → O × Outcome
  deliver row o s =
      deliver_to rt web decode_error decode_ids decode_id h row
        (stored_id_of (store.get_entity_state s pipeline destination row.primary_key)) o

  -- MarkDelivered, the count of the row and the id of its contact
  unfoldable pub mark_contact : Row → String → Loading O S → Loading O S
  mark_contact row id l =
      let (s, e) = store.mark_delivered l.store row.id pipeline destination in
      let l' = record l { store = s } in
      let ids =
        if id == "" then l.result.destination_ids else insert row.id id l.result.destination_ids in
      elim e [
        | some cause ↦ failed_row row cause l'
        | none ↦ record l' {
          result = record (l'.result) { loaded = suc l.result.loaded; destination_ids = ids };
        }
      ]

  -- What the loop does with the outcome of a row, and its rest.
  abbrev pub after_row :
      Row
      → Loading O S
      → Outcome
      → (Loading O S → Loading O S × Option GoError)
      → Loading O S × Option GoError
  after_row row l (fatal e) next = (l, some e)
  after_row row l (row_failed e) next = next (failed_row row e l)
  after_row row l (delivered_as id) next = next (mark_contact row id l)

  unfoldable pub deliver_row :
      Row
      → Loading O S
      → (Loading O S → Loading O S × Option GoError)
      → Loading O S × Option GoError
  unfolding deliver_to mark_contact
  deliver_row row l next =
      let (o, outcome) = deliver row l.wire.outside l.store in
      after_row row (record l { wire = record (l.wire) { outside = o } }) outcome next

  -- The loop of Load.
  unfoldable pub load_rows : List Row → Loading O S → Loading O S × Option GoError
  unfolding deliver_row
  load_rows [] l = (l, none)
  load_rows (row ∷ rows) l =
      let next = λ (l' : Loading O S). load_rows rows l' in
      let (l1, stop) = poll web.net l in
      elim stop [
        | some e ↦ (l1, some e)
        | none ↦ elim (store.is_delivered l1.store row.id pipeline destination) [
          | err e ↦ next (failed_row row e l1)
          | ok delivered ↦ elim delivered [
            | true ↦ next (skip_row l1)
            | false ↦ deliver_row row l1 next
          ]
        ]
      ]

  abbrev pub load_polled : List Row → Loading O S × Option GoError → Loading O S × Option GoError
  load_polled rows (l, some e) = (l, some e)
  load_polled rows (l, none) = load_rows rows l

  -- Load
  unfoldable pub load : List Row → Wire O → S → Loading O S × Option GoError
  unfolding load_rows
  load rows w s = load_polled rows (poll web.net (start w s))

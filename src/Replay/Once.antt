-- ===== src/Replay/Once.antt =====
-- What a replay does to records whose rows have a mark.
use vortara.Base.{
  ℕ, String, List, [], ◌∷◌, ◌++◌, All, ◌≡◌, refl, ◌∙◌, arith, Option-cases, inl, inr,
}
use vortara.Destinations.Loading.Marks.{Delivered, Polled, not_asked, asked}
use vortara.Destinations.RestApi.{Network, RestApi, Wire}
use vortara.Destinations.RestApi.Load.{load}
use vortara.Destinations.RestApi.Load.Once.{load-Delivered}
use vortara.Engine.{Destination, DlqRecord}
use vortara.Replay.{Replay, replay_row, count_load, replay_record, replay_records}
use vortara.Row.{Row}
use vortara.Runtime.{Runtime}
use vortara.State.{StateStore}

-- A REST API as the destination of a replay.
abbrev pub rest_destination :
    {O S : Type 0}
    → StateStore S
    → Network O
    → RestApi
    → (List Row → List Row)
    → Destination S (Wire O)
rest_destination store net api order = record {
  load = λ rows n d w s.
      let (l, e) = load net store api n d order rows w s in (l.wire, l.store, l.result, e);
}

Polled-trans :
    {O : Type 0} {net : Network O} {a b c : O} → Polled net a b → Polled net b c → Polled net a c
Polled-trans not_asked q = q
Polled-trans (asked p) q = asked (Polled-trans p q)

module _ {O S : Type 0} (rt : Runtime) (store : StateStore S) (net : Network O) (api : RestApi)
    (order : List Row → List Row) (now : ℕ) (sync dest_type : String) where
  abbrev dest : Destination S (Wire O)
  dest = rest_destination store net api order

  abbrev pub Marked : S → DlqRecord → Type 0
  Marked s rec = Delivered store sync dest_type s (replay_row rt store dest now sync dest_type rec)

  -- Since the first point of a replay nothing was sent, written or loaded.
  abbrev pub Quiet : Replay S (Wire O) → Replay S (Wire O) → Type 0
  Quiet r r' =
      (r'.store ≡ r.store)
      × (r'.loaded ≡ r.loaded)
      × (r'.dest.breaker ≡ r.dest.breaker)
      × Polled net r.dest.outside r'.dest.outside

  record-Quiet :
      (rec : DlqRecord) (r : Replay S (Wire O))
      → Marked r.store rec
      → Quiet r (replay_record rt store dest now sync dest_type rec r)
  unfolding replay_record count_load
  record-Quiet rec r h =
      let row = replay_row rt store dest now sync dest_type rec in
      let (a, b, c, d, p) =
        load-Delivered net store api sync dest_type order (row ∷ []) r.dest r.store (h, tt) in
      elim (Option-cases (load net store api sync dest_type order (row ∷ []) r.dest r.store).1) [
        | inl e ↦ rw (e, b, c) (a, omega arith, d, p)
        | inr (cause, e) ↦ rw (e, b) (a, omega arith, d, p)
      ]

  records-Quiet :
      (recs : List DlqRecord) (r : Replay S (Wire O))
      → All (Marked r.store) recs
      → Quiet r (replay_records rt store dest now sync dest_type recs r)
  unfolding replay_records
  records-Quiet [] r h = (refl, refl, refl, not_asked)
  records-Quiet (rec ∷ recs) r (h, hs) =
      let r' = replay_record rt store dest now sync dest_type rec r in
      let (a, b, d, p) = record-Quiet rec r h in
      let (a', b', d', p') = records-Quiet recs r' (rw a hs) in
      (a' ∙ a, b' ∙ b, d' ∙ d, Polled-trans p p')

  records-append :
      (before recs : List DlqRecord) (r : Replay S (Wire O))
      → replay_records rt store dest now sync dest_type (before ++ recs) r
        ≡ replay_records rt store dest now sync dest_type recs
            (replay_records rt store dest now sync dest_type before r)
  unfolding replay_records
  records-append [] recs r = refl
  records-append (rec ∷ before) recs r =
      records-append before recs (replay_record rt store dest now sync dest_type rec r)

-- Where the rows of the last records of a replay to a REST API have the mark of a delivery
-- when their turn comes, behind whatever records, the replay sends nothing for them: it only asks for the
-- context's error, and leaves the store, the circuit breaker and the count of the records loaded as they were.
pub replay_records-again :
    {O S : Type 0} (rt : Runtime) (store : StateStore S) (net : Network O) (api : RestApi)
    (order : List Row → List Row) (now : ℕ) (sync dest_type : String) (before recs : List DlqRecord)
    (r0 : Replay S (Wire O))
    → let dest = rest_destination store net api order in
      let r = replay_records rt store dest now sync dest_type before r0 in
      All (Marked rt store net api order now sync dest_type r.store) recs
      → Quiet rt store net api order now sync dest_type r
          (replay_records rt store dest now sync dest_type (before ++ recs) r0)
replay_records-again rt store net api order now sync dest_type before recs r0 h =
    rw (records-append rt store net api order now sync dest_type before recs r0) (
      records-Quiet rt store net api order now sync dest_type recs
        (replay_records rt store (rest_destination store net api order) now sync dest_type before
          r0)
        h)

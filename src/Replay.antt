-- ===== src/Replay.antt =====
-- cmd/vortara/cmd/replay.go: the records are chosen, and each is delivered again. Flags and files are
-- arguments; what is printed is the counts that are left.
pub mod Once
pub mod Tests
use vortara.Base.{
  ℕ, zero, suc, ◌+◌, String, Bool, true, false, ◌&&◌, List, [], ◌∷◌, length, Option, none, some,
  ltb, eqb, if◌then◌else◌,
}
use vortara.Engine.{Destination, DlqRecord, LoadResult}
use vortara.Engine.Mapping.{delivery_op_key}
use vortara.Errors.{GoError, Result, ok, err, entity_not_found, entity_state_failed, external}
use vortara.Fingerprint.{fingerprint_of, normalize_payload}
use vortara.Row.{Row}
use vortara.Runtime.{Runtime}
use vortara.State.{StateStore, EntityState}
use vortara.Value.{Payload}

-- The destination, the store and the counts of a replay.
pub record Replay (S D : Type 0) : Type 0 where
  pub dest : D
  pub store : S
  pub loaded : ℕ
  pub errored : ℕ

abbrev es_text : (EntityState → String) → Option EntityState → String
es_text f none = ""
es_text f (some es) = f es

abbrev es_payload : (EntityState → Payload) → Option EntityState → Payload
es_payload f none = []
es_payload f (some es) = f es

abbrev es_version : Option EntityState → ℕ
es_version none = 0
es_version (some es) = es.version

-- `es, _ :=`
abbrev found : Result (Option EntityState) → Option EntityState
found (ok es) = es
found (err e) = none

-- The record of an entity's stored payload.
abbrev stored_record : String → String → EntityState → DlqRecord
stored_record sync key es = record {
  row_id = "";
  sync_name = sync;
  entity_key = key;
  error = external "";
  failed_at = 0;
  fields = es.current_payload;
}

module _ {S D : Type 0} (rt : Runtime) (store : StateStore S) (dest : Destination S D) (now : ℕ)
    (sync dest_type : String) where
  -- The records of `--key`
  unfoldable pub key_records : String → S → Result (List DlqRecord)
  key_records key s = elim (store.get_entity_state s sync dest_type key) [
    | err e ↦ err (entity_state_failed e)
    | ok none ↦ err (entity_not_found key sync)
    | ok (some es) ↦ ok (stored_record sync key es ∷ [])
  ]

  -- `curFP` and the row of a record
  unfoldable pub replay_fingerprint : DlqRecord → String
  unfolding fingerprint_of normalize_payload
  replay_fingerprint rec = fingerprint_of rt (normalize_payload rt rec.fields) []

  unfoldable pub replay_row : DlqRecord → Row
  unfolding delivery_op_key replay_fingerprint normalize_payload
  replay_row rec = record {
    id =
        delivery_op_key rt rec.sync_name dest_type rec.entity_key "replay" (replay_fingerprint rec);
    primary_key = rec.entity_key;
    fields = normalize_payload rt rec.fields;
    watermark = 0;
    metadata = [];
  }

  -- The state of an entity that was delivered again.
  unfoldable pub replayed_state : DlqRecord → Option EntityState → EntityState
  unfolding replay_fingerprint normalize_payload
  replayed_state rec es = record {
    sync_name = sync;
    destination = dest_type;
    entity_key = rec.entity_key;
    destination_id = es_text (λ e. e.destination_id) es;
    current_fingerprint = replay_fingerprint rec;
    previous_fingerprint = es_text (λ e. e.current_fingerprint) es;
    current_payload = normalize_payload rt rec.fields;
    previous_payload = es_payload (λ e. e.current_payload) es;
    remembered_state = es_payload (λ e. e.remembered_state) es;
    last_decision = "replay";
    last_status = "success";
    consecutive_missing = 0;
    version = es_version es + 1;
    updated_at = now;
  }

  unfoldable pub save_replayed : DlqRecord → Replay S D → Replay S D
  unfolding replayed_state
  save_replayed rec r =
      let es = found (store.get_entity_state r.store sync dest_type rec.entity_key) in
      record r { store = (store.save_entity_state r.store (replayed_state rec es)).0 }

  -- What follows a Load of the record.
  unfoldable pub count_load : DlqRecord → LoadResult → Option GoError → Replay S D → Replay S D
  unfolding save_replayed
  count_load rec res (some e) r = record r {
    loaded = r.loaded + res.loaded;
    errored = suc r.errored;
  }
  count_load rec res none r =
      let r' = record r {
        loaded = r.loaded + res.loaded;
        errored = r.errored + length res.errors;
      } in
      let saved = save_replayed rec r' in
      if ltb 0 res.loaded && eqb (length res.errors) 0 then saved else r'

  unfoldable pub replay_record : DlqRecord → Replay S D → Replay S D
  unfolding replay_row count_load
  replay_record rec r =
      let (d, s, res, e) = dest.load (replay_row rec ∷ []) sync dest_type r.dest r.store in
      count_load rec res e (record r { dest = d; store = s })

  unfoldable pub replay_records : List DlqRecord → Replay S D → Replay S D
  unfolding replay_record
  replay_records [] r = r
  replay_records (rec ∷ recs) r = replay_records recs (replay_record rec r)

  abbrev committed : Replay S D → S × Option GoError → Replay S D × Option GoError
  committed r (s, none) = (record r { store = s }, none)
  committed r (s, some e) = (record r { store = (store.rollback_batch s).0 }, some e)

  abbrev begun : List DlqRecord → D → S × Option GoError → Replay S D × Option GoError
  begun recs d (s, some e) = (record { dest = d; store = s; loaded = 0; errored = 0 }, some e)
  begun recs d (s, none) =
      let r = replay_records recs (record { dest = d; store = s; loaded = 0; errored = 0 }) in
      committed r (store.commit_batch r.store)

  -- runReplay behind the connected destination
  unfoldable pub replay : List DlqRecord → D → S → Replay S D × Option GoError
  unfolding replay_records
  replay recs d s = begun recs d (store.begin_batch s)

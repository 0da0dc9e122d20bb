-- ===== src/Destinations/Klaviyo/Unsent.antt =====
-- The rows that Klaviyo's Load does not send.
use vortara.Base.{String, false, ◌∷◌, [], none, ◌≡◌, refl, has, List}
use vortara.Destinations.Batches.{load, load_chunks, mark_rows}
use vortara.Destinations.Client.{Web}
use vortara.Destinations.Klaviyo.{Klaviyo, upsert_chunk, build_payload, profiles, load_rows}
use vortara.Destinations.Loading.{mark_row}
use vortara.Destinations.RestApi.{Wire}
use vortara.Destinations.Upserts.{pending_rows}
use vortara.Errors.{ok}
use vortara.Row.{Row}
use vortara.State.{StateStore}

-- A row without the match field is not in the payload.
pub build_payload-unsent :
    (match_field : String) (row : Row) (rows : List Row)
    → has row.fields match_field ≡ false
    → build_payload match_field (row ∷ rows) ≡ build_payload match_field rows
unfolding build_payload profiles
build_payload-unsent match_field row rows h = rw (h, profiles) refl

chunk_unsent :
    {O : Type 0} (web : Web O) (k : Klaviyo) (row : Row) (w : Wire O)
    → has row.fields k.match_field ≡ false
    → upsert_chunk web k (row ∷ []) w ≡ upsert_chunk web k [] w
unfolding upsert_chunk
chunk_unsent web k row w h = rw (build_payload-unsent k.match_field row [] h, upsert_chunk) refl

-- Load of a row without the match field sends a request that has nothing of it, and where that request
-- succeeds, the row is marked as delivered and counted as loaded.
pub unsent-loaded :
    {O S : Type 0} (web : Web O) (k : Klaviyo) (store : StateStore S) (n d : String) (row : Row)
    (w : Wire O) (s : S)
    → has row.fields k.match_field ≡ false
    → (web.net.poll w.outside).1 ≡ none
    → store.is_delivered s row.id n d ≡ ok false
    → let asked = record w { outside = (web.net.poll w.outside).0 } in
      (upsert_chunk web k [] asked).1 ≡ none
      → (store.mark_delivered s row.id n d).1 ≡ none
      → (load_rows web k store n d (row ∷ []) w s) ≡ (
        record {
          wire = (upsert_chunk web k [] asked).0;
          store = (store.mark_delivered s row.id n d).0;
          result = record { loaded = 1; skipped = 0; errors = []; destination_ids = [] };
        },
        none,
      )
unfolding load load_chunks pending_rows mark_rows mark_row
unsent-loaded web k store n d row w s h p z c m =
    rw
      (
        p,
        z,
        pending_rows,
        load_chunks,
        mark_rows,
        chunk_unsent web k row (record w { outside = (web.net.poll w.outside).0 }) h,
        c,
        mark_row,
        m,
      )
      refl

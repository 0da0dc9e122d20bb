-- ===== src/Destinations/GoogleSheets.antt =====
-- internal/connector/destination/googlesheets.go. The Sheets API is a parameter: the append of rows of
-- cells to a sheet. Load is that of a connected destination.
pub mod Ledger
use vortara.Base.{
  ℕ, String, Bool, true, false, List, [], ◌∷◌, map, Option, none, some, Assoc, insert, ◌==◌,
  if◌then◌else◌,
}
use vortara.Base.Sort.{sort_entries}
use vortara.Destinations.Batches.{fail_rows, mark_rows}
use vortara.Destinations.Connect.{DestinationConfig, option_of, or_text}
use vortara.Destinations.Intercom.{data_at}
use vortara.Destinations.Loading.{Loading, poll, start}
use vortara.Destinations.RestApi.{Network, Wire}
use vortara.Destinations.Upserts.{pending_rows}
use vortara.Errors.{GoError, Result, ok, err, connect_required}
use vortara.Row.{Row}
use vortara.Runtime.{Runtime}
use vortara.State.{StateStore}
use vortara.Text.{trim_space, split_commas}
use vortara.Value.{Value, Payload, null, bool, int, float64, str, time, arr, obj, sprint}

pub record GoogleSheets : Type 0 where
  pub spreadsheet_id : String
  pub sheet_name : String
  pub columns : List String

-- The columns that are configured, from the parts of the option between its commas
unfoldable pub columns_of : List String → List String
unfolding trim_space
columns_of [] = []
columns_of (c ∷ cs) =
    let rest = columns_of cs in if trim_space c == "" then rest else trim_space c ∷ rest

-- Connect, from the error of the client
unfoldable pub connect : Option GoError → DestinationConfig → Result GoogleSheets
unfolding trim_space columns_of split_commas
connect refused cfg =
    let id = trim_space (option_of cfg "spreadsheet_id") in
    if id == "" then err (connect_required "googlesheets" "spreadsheet_id") else elim refused [
      | some e ↦ err e
      | none ↦ ok (record {
        spreadsheet_id = id;
        sheet_name = or_text (trim_space (option_of cfg "sheet")) "Sheet1";
        columns = columns_of (split_commas (option_of cfg "columns"));
      })
    ]

unfoldable pub seen_fields : Payload → Assoc Bool → Assoc Bool
seen_fields [] seen = seen
seen_fields ((k, v) ∷ rest) seen = seen_fields rest (insert k true seen)

unfoldable pub seen_rows : List Row → Assoc Bool → Assoc Bool
unfolding seen_fields
seen_rows [] seen = seen
seen_rows (row ∷ rows) seen = seen_rows rows (seen_fields row.fields seen)

-- unionColumns
unfoldable pub union_columns : List Row → List String
unfolding seen_rows
union_columns rows = map (λ e. e.0) (sort_entries (seen_rows rows []))

-- sheetCell
unfoldable pub sheet_cell : Runtime → Value → Value
unfolding sprint
sheet_cell rt null = str ""
sheet_cell rt (time t) = str (rt.rfc3339 t)
sheet_cell rt (arr xs) = str (sprint rt (arr xs))
sheet_cell rt (obj fs) = str (sprint rt (obj fs))
sheet_cell rt v = v

abbrev columns_or : List String → List Row → List String
columns_or [] rows = union_columns rows
columns_or (c ∷ cs) rows = c ∷ cs

-- The cells of the rows.
unfoldable pub cells : Runtime → List String → List Row → List (List Value)
unfolding sheet_cell
cells rt cols rows = map (λ (row : Row). map (λ c. sheet_cell rt (data_at row.fields c)) cols) rows

module _ {O S : Type 0} (rt : Runtime) (net : Network O)
    (append : String → String → List (List Value) → O → O × Option GoError) (g : GoogleSheets)
    (store : StateStore S) (pipeline destination : String) where
  abbrev pub after_append : List Row → Loading O S → Option GoError → Loading O S
  after_append rows l none = mark_rows store pipeline destination rows l
  after_append rows l (some e) = fail_rows e rows l

  -- Load behind its first loop.
  unfoldable pub append_pending : Loading O S × List Row → Loading O S
  unfolding cells union_columns mark_rows fail_rows
  append_pending (l, []) = l
  append_pending (l, row ∷ rows) =
      let values = cells rt (columns_or g.columns (row ∷ rows)) (row ∷ rows) in
      let (o, e) = append g.spreadsheet_id g.sheet_name values l.wire.outside in
      after_append (row ∷ rows) (record l { wire = record (l.wire) { outside = o } }) e

  abbrev pub load_polled : List Row → Loading O S × Option GoError → Loading O S × Option GoError
  load_polled rows (l, some e) = (l, some e)
  load_polled rows (l, none) =
      (append_pending (pending_rows store pipeline destination (λ row. none) rows l), none)

  -- Load
  unfoldable pub load : List Row → Wire O → S → Loading O S × Option GoError
  unfolding pending_rows append_pending
  load rows w s = load_polled rows (poll net (start w s))

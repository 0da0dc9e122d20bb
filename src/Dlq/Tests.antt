-- ===== src/Dlq/Tests.antt =====
-- Two dead letters whose number comes back as a float.
use vortara.Base.{
  String, concat, List, [], ◌∷◌, Option, none, some, pos, ◌==◌, if◌then◌else◌, ◌≡◌, refl, map,
}
use vortara.Config.{ErrorsConfig}
use vortara.Dlq.{list_path, replay_path, resolve_dlq_path, split_lines}
use vortara.Config.{resolved_dlq_path}
use vortara.Dlq.{load_dlq_records}
use vortara.Dlq.Lines.{write_lines, load_dlq_records-write, one_line}
use vortara.Engine.{DlqRecord}
use vortara.Errors.{external}
use vortara.Value.{Value, int, float64}
use mathlib.Core.Option

-- `dlq.path` is where a run writes and a replay reads, and the list looks elsewhere.
abbrev new_path : ErrorsConfig
new_path = record {
  on_error = "";
  dlq_path = "";
  dlq_path_new = "/var/dead.jsonl";
  failure_webhook_url = "";
}

listed_elsewhere :
    (replay_path "" "crm" new_path ≡ "/var/dead.jsonl")
    × (list_path "" "crm" new_path ≡ "./dlq/crm.dlq.jsonl")
unfolding replay_path list_path resolve_dlq_path resolved_dlq_path
listed_elsewhere = (refl, refl)

three_lines : split_lines "a\n\nb" ≡ "a" ∷ "" ∷ "b" ∷ []
unfolding split_lines
three_lines = refl

abbrev letter : String → Value → DlqRecord
letter key seats = record {
  row_id = "r";
  sync_name = "crm";
  entity_key = key;
  error = external "EOF";
  failed_at = 0;
  fields = ("seats", seats) ∷ [];
}

-- A line as encoding/json writes it for such a record with the number 1.
abbrev line_of : DlqRecord → String
line_of r = concat "{\"row_id\":\"r\",\"sync_name\":\"crm\",\"entity_key\":\"" (
    concat r.entity_key
      "\",\"error\":\"EOF\",\"failed_at\":\"1970-01-01T00:00:00Z\",\"data\":{\"seats\":1}}")

-- The bits of the float 1
abbrev float_one : Value
float_one = float64 4607182418800017408

-- What it decodes to: the number is a float.
abbrev decoded_line : String → Option DlqRecord
decoded_line line =
    if line == line_of (letter "ada" float_one)
    then some (letter "ada" float_one)
    else if line == line_of (letter "bob" float_one)
    then some (letter "bob" float_one)
    else none

abbrev two_letters : List DlqRecord
two_letters = letter "ada" (int (pos 1)) ∷ letter "bob" (int (pos 1)) ∷ []

abbrev read_float : DlqRecord → DlqRecord
read_float r = record r { fields = ("seats", float_one) ∷ [] }

load_dlq_records-write_example :
    Option.map
      (λ w. load_dlq_records decoded_line w.contents)
      (write_lines (map line_of two_letters) (some (record { contents = ""; count = 0 })))
    ≡ some (letter "ada" float_one ∷ letter "bob" float_one ∷ [])
unfolding one_line
load_dlq_records-write_example =
    load_dlq_records-write decoded_line line_of read_float two_letters
      ((refl, refl, refl), ((refl, refl, refl), tt))

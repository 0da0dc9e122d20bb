-- ===== src/Dlq.antt =====
-- internal/engine/dlq.go and cmd/vortara/cmd/dlq.go: where the dead letters of a sync are, and the lines of
-- the file, on texts of ASCII bytes. The directories and the file handle are not modelled.
pub mod Lines
pub mod Tests
use Prim.Native.Char.{Char, code}
use vortara.Base.{
  ℕ, zero, suc, ◌+◌, String, concat, Bool, true, false, not, ◌&&◌, List, [], ◌∷◌, Option, none,
  some, eqb, ◌==◌, if◌then◌else◌,
}
use vortara.Config.{ErrorsConfig, resolved_dlq_path}
use vortara.Engine.{DlqRecord}
use vortara.Errors.{GoError}

-- ResolveDLQPath
unfoldable pub resolve_dlq_path : String → String → String
resolve_dlq_path sync_name dlq_path =
    if dlq_path == "" then concat "./dlq/" (concat sync_name ".dlq.jsonl") else dlq_path

-- The file that a run writes to: none is written if the path is empty.
unfoldable pub run_path : ErrorsConfig → Option String
unfolding resolved_dlq_path
run_path e = if resolved_dlq_path e == "" then none else some (resolved_dlq_path e)

-- The file that runReplay and runDLQShow read, with the flag that names one.
unfoldable pub replay_path : String → String → ErrorsConfig → String
unfolding resolve_dlq_path resolved_dlq_path
replay_path flag sync_name e =
    if flag == "" then resolve_dlq_path sync_name (resolved_dlq_path e) else flag

unfoldable pub list_path : String → String → ErrorsConfig → String
unfolding resolve_dlq_path
list_path flag sync_name e = if flag == "" then resolve_dlq_path sync_name e.dlq_path else flag

-- dlqWriter of a non-empty path, with the text of its file
pub record DlqWriter : Type 0 where
  pub contents : String
  pub count : ℕ

abbrev newline : String
newline = "\n"

-- Write, from the line that json.Marshal makes and the error of writing it.
unfoldable pub write :
    String → Option GoError → Option DlqWriter → Option DlqWriter × Option GoError
write line e none = (none, none)
write line none (some w) = (
  some (record { contents = concat w.contents (concat line newline); count = w.count + 1 }),
  none,
)
write line (some e) (some w) = (some w, some e)

-- A byte before the first of some lines.
abbrev pub before_line : Char → List String → List String
before_line c [] = String.◌∷◌ c String.[] ∷ []
before_line c (line ∷ lines) = String.◌∷◌ c line ∷ lines

-- splitLines
unfoldable pub split_lines : String → List String
split_lines String.[] = []
split_lines (String.◌∷◌ c s) =
    let rest = split_lines s in if eqb (code c) b'\n' then "" ∷ rest else before_line c rest

abbrev decoded : Option DlqRecord → List DlqRecord → List DlqRecord
decoded none records = records
decoded (some r) records = r ∷ records

-- The loop of loadDLQRecords, with json.Unmarshal.
unfoldable pub read_records : (String → Option DlqRecord) → List String → List DlqRecord
read_records parse [] = []
read_records parse (line ∷ lines) =
    let rest = read_records parse lines in if line == "" then rest else decoded (parse line) rest

-- loadDLQRecords, of a file that is there
unfoldable pub load_dlq_records : (String → Option DlqRecord) → String → List DlqRecord
unfolding split_lines read_records
load_dlq_records parse s = read_records parse (split_lines s)

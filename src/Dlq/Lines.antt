-- ===== src/Dlq/Lines.antt =====
-- What is written to the dead letters is read again.
use Prim.Native.Char.{Char, code}
use Prim.Native.String.append
use mathlib.Core.Option
use text.Mathlib.TextLemmas.{append-nil, append_assoc}
use vortara.Base.{
  ℕ, ◌+◌, String, concat, Bool, true, false, List, [], ◌∷◌, map, All, Option, none, some, eqb,
  length, ◌==◌, ◌≡◌, refl, ap, sym, ◌∙◌, arith, Bool-cases, inl, inr, if◌then◌else◌,
}
use vortara.Dlq.{DlqWriter, write, split_lines, newline, read_records, load_dlq_records}
use vortara.Engine.{DlqRecord}

-- A text without a line break.
unfoldable pub one_line : String → Bool
one_line String.[] = true
one_line (String.◌∷◌ c s) = let rest = one_line s in if eqb (code c) b'\n' then false else rest

-- The text of a file of such lines.
unfoldable pub file_of : List String → String
file_of [] = ""
file_of (line ∷ lines) = concat line (concat newline (file_of lines))

abbrev line_break : Char
line_break = "\n"

line_end : (rest : String) → concat newline rest ≡ String.◌∷◌ line_break rest
line_end rest =
    append.cons line_break String.[] rest ∙ ap (λ s. String.◌∷◌ line_break s) (append.nil rest)

split_lines-concat :
    (line rest : String)
    → one_line line ≡ true
    → split_lines (concat line (concat newline rest)) ≡ line ∷ split_lines rest
unfolding split_lines one_line
split_lines-concat String.[] rest h =
    ap split_lines (append.nil (concat newline rest) ∙ line_end rest)
split_lines-concat (String.◌∷◌ c s) rest h = elim (Bool-cases (eqb (code c) b'\n')) [
  | inl g ↦ absurd (ground arith)
  | inr g ↦
      rw
        (
          append.cons c s (concat newline rest),
          g,
          split_lines-concat s rest (sym (rw (g, one_line) refl) ∙ h),
        )
        refl
]

-- The lines of a file of dead letters are the lines that were written to it.
pub split_lines-file_of :
    (lines : List String)
    → All (λ line. one_line line ≡ true) lines
    → split_lines (file_of lines) ≡ lines
unfolding file_of split_lines
split_lines-file_of [] h = refl
split_lines-file_of (line ∷ lines) (h, hs) =
    split_lines-concat line (file_of lines) h ∙ ap (λ ls. line ∷ ls) (split_lines-file_of lines hs)

-- What the writer is after some lines were written without an error.
unfoldable pub write_lines : List String → Option DlqWriter → Option DlqWriter
write_lines [] w = w
write_lines (line ∷ lines) w = write_lines lines (write line none w).0

writer_eq :
    {a b : String} {m n : ℕ}
    → a ≡ b
    → m ≡ n
    → ◌≡◌ {A = Option DlqWriter}
        (some (record { contents = a; count = m }))
        (some (record { contents = b; count = n }))
writer_eq p q = rw (p, q) refl

write_lines-file_of :
    (lines : List String) (w : DlqWriter)
    → write_lines lines (some w)
      ≡ some
          (record { contents = concat w.contents (file_of lines); count = w.count + length lines })
unfolding write_lines write file_of
write_lines-file_of [] w = writer_eq (sym (append-nil w.contents)) (omega arith)
write_lines-file_of (line ∷ lines) w =
    write_lines-file_of lines
      (record { contents = concat w.contents (concat line newline); count = w.count + 1 })
    ∙ writer_eq
        (append_assoc w.contents (concat line newline) (file_of lines)
          ∙ ap (λ t. concat w.contents t) (append_assoc line newline (file_of lines)))
        (omega arith)

-- A line for a record, of which the decoding makes a record.
abbrev pub IsLine :
    (String → Option DlqRecord)
    → (DlqRecord → String)
    → (DlqRecord → DlqRecord)
    → DlqRecord
    → Type 0
IsLine parse render read r =
    (parse (render r) ≡ some (read r)) × ((render r == "") ≡ false) × (one_line (render r) ≡ true)

read_records-map :
    (parse : String → Option DlqRecord) (render : DlqRecord → String) (read : DlqRecord → DlqRecord)
    (recs : List DlqRecord)
    → All (IsLine parse render read) recs
    → read_records parse (map render recs) ≡ map read recs
unfolding read_records
read_records-map parse render read [] h = refl
read_records-map parse render read (r ∷ recs) ((same, full, one), h) =
    rw (full, same) (ap (λ rs. read r ∷ rs) (read_records-map parse render read recs h))

one_lines :
    (parse : String → Option DlqRecord) (render : DlqRecord → String) (read : DlqRecord → DlqRecord)
    (recs : List DlqRecord)
    → All (IsLine parse render read) recs
    → All (λ line. one_line line ≡ true) (map render recs)
one_lines parse render read [] h = tt
one_lines parse render read (r ∷ recs) ((same, full, one), h) =
    (one, one_lines parse render read recs h)

-- The records that a replay loads from a file of dead letters are what the decoding makes of each record that
-- was written to it, `read`, such as a float where the record has an integer: none is lost, doubled or moved.
-- The encoding of each is to be one line that is not empty and that the decoding reads without an error, and no
-- write is to fail.
pub load_dlq_records-write :
    (parse : String → Option DlqRecord) (render : DlqRecord → String) (read : DlqRecord → DlqRecord)
    (recs : List DlqRecord)
    → All (IsLine parse render read) recs
    → Option.map
        (λ w. load_dlq_records parse w.contents)
        (write_lines (map render recs) (some (record { contents = ""; count = 0 })))
      ≡ some (map read recs)
unfolding load_dlq_records
load_dlq_records-write parse render read recs h =
    rw (write_lines-file_of (map render recs) (record { contents = ""; count = 0 })) (
      ap some (
        ap (load_dlq_records parse) (append.nil (file_of (map render recs)))
        ∙ ap (read_records parse)
            (split_lines-file_of (map render recs) (one_lines parse render read recs h))
        ∙ read_records-map parse render read recs h))

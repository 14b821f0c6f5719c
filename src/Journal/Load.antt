-- ===== src/Journal/Load.antt =====
-- src/journal.rs, `read_state` and `Journal::replay`: the loop over the lines of the file.
use whaletracker.Prelude.{
  ℕ, zero, suc, ◌+◌, ◌*◌, List, [], ◌∷◌, ◌++◌, Bool, true, false, not, Option, none, some, ltb,
  if◌then◌else◌, length, all, take, drop, position, saturating_add, Text,
}
use whaletracker.Ascii.{is_ascii_whitespace}
use whaletracker.Reader.Line.{is_newline}
use whaletracker.Reader.{Source, eof, failed, chunk, put_back, bytes_of}
use whaletracker.Journal.{
  Codec, StoredWrite, cannot_read, out_of_fuel, line_too_long, torn_line, corrupt_line, Result, ok,
  err, Entry, Loading, Limits, no_records, apply_record,
}

abbrev pub max_journal_line : ℕ
max_journal_line = 4 * 1024 * 1024

pub data LineRead : Type 0 where
  line : Text → Source → LineRead
  io_error over_limit : LineRead

-- The inner loop: up to and with the newline, or to the end of the file.
unfoldable pub read_line : Text → Source → LineRead
read_line out eof = line out eof
read_line out failed = io_error
read_line out (chunk b bs rest) = elim (position is_newline (b ∷ bs)) [
  | some at ↦
      if ltb max_journal_line (saturating_add (length out) (at + 1))
      then over_limit
      else line (out ++ take (at + 1) (b ∷ bs)) (put_back (drop (at + 1) (b ∷ bs)) rest)
  | none ↦ elim (ltb max_journal_line (saturating_add (length out) (length (b ∷ bs)))) [
    | true ↦ over_limit
    | false ↦ read_line (out ++ b ∷ bs) rest
  ]
]

-- `line.last() == Some(&b'\n')`.
unfoldable pub ends_line : Text → Bool
ends_line [] = false
ends_line (b ∷ []) = is_newline b
ends_line (b ∷ c ∷ rest) = ends_line (c ∷ rest)

-- What the body of the outer loop does with a line that has a byte.
unfoldable pub apply_line : Codec → Limits → ℕ → Text → Loading → Result Loading
apply_line codec l ordinal text s =
    if not (ends_line text)
    then err (torn_line ordinal)
    else if all is_ascii_whitespace text
    then ok s
    else elim (codec.decode text) [
      | none ↦ err (corrupt_line ordinal)
      | some r ↦ apply_record l ordinal r s
    ]

-- The outer loop on fuel; it reads a byte in each round but the last.
unfoldable pub read_lines : ℕ → Codec → Limits → ℕ → Source → Loading → Result Loading
read_lines zero codec l ordinal src s = err out_of_fuel
read_lines (suc fuel) codec l ordinal src s = elim (read_line [] src) [
  | io_error ↦ err cannot_read
  | over_limit ↦ err (line_too_long (ordinal + 1))
  | line [] rest ↦ ok s
  | line (b ∷ bs) rest ↦ elim (apply_line codec l (ordinal + 1) (b ∷ bs) s) [
    | err e ↦ err e
    | ok t ↦ read_lines fuel codec l (ordinal + 1) rest t
  ]
]

-- `sort_unstable_by_key(|(ordinal, _)| *ordinal)`, as an insertion sort.
unfoldable pub insert_by_ordinal : Entry → List Entry → List Entry
insert_by_ordinal e [] = e ∷ []
insert_by_ordinal e (x ∷ xs) =
    let rest = insert_by_ordinal e xs in if ltb e.ordinal x.ordinal then e ∷ x ∷ xs else x ∷ rest

unfoldable pub sort_by_ordinal : List Entry → List Entry
sort_by_ordinal [] = []
sort_by_ordinal (e ∷ es) = insert_by_ordinal e (sort_by_ordinal es)

pub record Replay : Type 0 where
  pub pending : List StoredWrite
  pub done : List Text
  pub done_records : ℕ

unfoldable pub writes_of : List Entry → List StoredWrite
writes_of [] = []
writes_of (e ∷ es) = e.write ∷ writes_of es

unfoldable pub to_replay : Loading → Replay
to_replay s = record {
  pending = writes_of (sort_by_ordinal s.pending);
  done = s.done;
  done_records = s.done_records;
}

-- `read_state` on the contents of the file, `none` where it cannot be opened.
unfoldable pub read_state : Codec → Limits → Option Source → Result Replay
read_state codec l none = err cannot_read
read_state codec l (some src) =
    elim (read_lines (suc (length (bytes_of src))) codec l 0 src no_records) [
      | err e ↦ err e
      | ok s ↦ ok (to_replay s)
    ]

-- ===== src/Journal/File.antt =====
-- src/journal.rs, `Journal`: the file behind the mutex, with what the operating system makes of
-- each call as an argument. The lock file of Journal.Lock keeps other processes off the file.
use whaletracker.Prelude.{
  ℕ, List, [], ◌∷◌, ◌++◌, Bool, true, false, ◌||◌, Option, none, some, ◌==◌, ltb, if◌then◌else◌,
  length, take, Text,
}
use whaletracker.Reader.{Source}
use whaletracker.Journal.{Codec, StoredWrite, Limits, Result, ok, err}
use whaletracker.Journal.Load.{Replay, read_state}
use whaletracker.Journal.Encoded.{encode_all}
use whaletracker.Journal.Phases.{pendings, dones}

-- `file` holds the bytes of the file at `path`; both are `none` where journaling is off.
pub record Journal : Type 0 where
  pub path : Option Text
  pub file : Option Text

-- What the calls of `append_bytes` meet. A write that fails has put some bytes into the file.
pub data AppendIo : Type 0 where
  written : AppendIo
  metadata_fails : AppendIo
  torn : ℕ → AppendIo
  torn_for_good : ℕ → AppendIo

-- `aborted` is the end of the process, with the file that it leaves.
pub data Appended : Type 0 where
  appended : Journal → Appended
  append_failed : Journal → Appended
  aborted : Journal → Appended

abbrev with_file : Journal → Text → Journal
with_file j bytes = record j { file = some bytes }

-- `set_len(before)`.
abbrev set_len : Text → ℕ → Text
set_len contents n = take n contents

unfoldable pub append_to : Journal → Text → Text → AppendIo → Appended
append_to j contents bytes written = appended (with_file j (contents ++ bytes))
append_to j contents bytes metadata_fails = append_failed j
append_to j contents bytes (torn n) =
    append_failed (with_file j (set_len (contents ++ take n bytes) (length contents)))
append_to j contents bytes (torn_for_good n) = aborted (with_file j (contents ++ take n bytes))

unfoldable pub append_bytes : Journal → Text → AppendIo → Appended
unfolding append_to
append_bytes j bytes io = elim j.file [
  | none ↦ appended j
  | some contents ↦ append_to j contents bytes io
]

abbrev is_off : Journal → Bool
is_off j = elim j.path [ none ↦ true | some p ↦ false ]

abbrev is_empty {ℓ} : {A : Type ℓ} → List A → Bool
is_empty [] = true
is_empty (x ∷ xs) = false

unfoldable pub append_pending : Codec → Journal → List StoredWrite → AppendIo → Appended
unfolding append_bytes
append_pending codec j writes io =
    if is_off j || is_empty writes
    then appended j
    else append_bytes j (encode_all codec (pendings writes)) io

abbrev stamped : ℕ → List Text → List (Text × ℕ)
stamped ts [] = []
stamped ts (id ∷ ids) = (id, ts) ∷ stamped ts ids

-- All the markers carry the time that is read once.
unfoldable pub append_done : Codec → Journal → List Text → ℕ → AppendIo → Appended
unfolding append_bytes
append_done codec j ids now io =
    if is_off j || is_empty ids
    then appended j
    else append_bytes j (encode_all codec (dones (stamped now ids))) io

-- Opening the file for reading: `none` where that fails.
abbrev pub Opener : Type 0
Opener = Text → Option Source

unfoldable pub replay : Codec → Opener → Journal → Limits → Result Replay
replay codec opener j l = elim j.path [
  | none ↦ ok (record { pending = []; done = []; done_records = 0 })
  | some path ↦ read_state codec l (elim j.file [ none ↦ none | some contents ↦ opener contents ])
]

-- What `compact` meets: the size of the file is not to be had, a step behind the reading and up to
-- the renaming fails, the renaming is done but the directory is not synchronised, or all goes well.
pub data CompactIo : Type 0 where
  size_unknown before_rename_fails sync_fails all_done : CompactIo

pub data Compacted : Type 0 where
  left : Journal → Compacted
  replaced : Journal → Compacted
  compact_failed : Journal → Compacted

-- The records of the replacement file, each completion with the time at which it is written.
unfoldable pub replacement : Codec → Replay → List (Text × ℕ) → Text
replacement codec state ds =
    encode_all codec (pendings state.pending) ++ encode_all codec (dones ds)

unfoldable pub replace_file : Codec → Journal → Replay → List (Text × ℕ) → CompactIo → Compacted
unfolding replacement
replace_file codec j state ds size_unknown = compact_failed j
replace_file codec j state ds before_rename_fails = compact_failed j
replace_file codec j state ds sync_fails = compact_failed (with_file j (replacement codec state ds))
replace_file codec j state ds all_done = replaced (with_file j (replacement codec state ds))

abbrev no_size : CompactIo → Bool
no_size size_unknown = true
no_size _ = false

-- `clock` gives the completions of the replay their times.
unfoldable pub compact :
    Codec → Opener → Journal → Limits → ℕ → (List Text → List (Text × ℕ)) → CompactIo → Compacted
unfolding replace_file
compact codec opener j l minimum_bytes clock io =
    if minimum_bytes == 0 || is_off j then left j else elim j.file [
      | none ↦ left j
      | some contents ↦
          if no_size io
          then compact_failed j
          else if ltb (length contents) minimum_bytes
          then left j
          else elim (read_state codec l (opener contents)) [
            | err e ↦ compact_failed j
            | ok state ↦ replace_file codec j state (clock state.done) io
          ]
    ]

-- ===== src/Tests/Restart.antt =====
-- src/journal.rs on small files.
use whaletracker.Prelude.{
  ℕ, ◌≡◌, ◌≢◌, refl, List, [], ◌∷◌, ◌++◌, none, some, arith, Text, append-nil, pos, contains,
  text_eq,
}
use whaletracker.Reader.{Source, eof, chunk, put_back, bytes_of, ends, ending}
use whaletracker.Admission.Dedupe.{remember, remember_all, new_dedupe, evict_order}
use whaletracker.Journal.{
  StoredWrite, pending, ok, err, out_of_fuel, Limits, Loading, no_records, apply_record, write_size,
  bad_id, add_pending, apply_pending, with_pending, get,
}
use whaletracker.Journal.Invariant.{IsLoading}
use whaletracker.Journal.Bounds.{no_records-IsLoading, apply_record-IsLoading}
use whaletracker.Journal.Load.{read_state, read_line, line, Replay, to_replay}
use whaletracker.Journal.Fuel.{read_state-ends}
use whaletracker.Journal.Order.{IsReplay, read_state-IsReplay}
use whaletracker.Journal.Encoded.{encode_all, LinesFit, read_state-encode_all, apply_records}
use whaletracker.Journal.Phases.{pendings, dones, done_ids}
use whaletracker.Journal.Finished.{unfinished, ValidDone}
use whaletracker.Journal.Recovery.{Holdable, due, read_state-due}
use whaletracker.Journal.File.{
  Journal, Opener, torn, append_pending, all_done, replaced, compact, replacement, replace_file,
}
use whaletracker.Journal.Compaction.{
  AllOrNothing, Opens, append_pending-AllOrNothing, compact_keeps,
}
use whaletracker.Tests.PlainCodec.{plain, plain-IsCodec}

abbrev first : StoredWrite
first = record {
  event_id = 1 ∷ [];
  sql = 2 ∷ [];
  user_id = some 1;
  batch_id = some (pos 1);
  ts_ms = 3;
}

abbrev second : StoredWrite
second = record { event_id = 2 ∷ []; sql = 2 ∷ []; user_id = none; batch_id = none; ts_ms = 3 }

abbrev limits : Limits
limits = record { dedupe_capacity = 2; max_rows = 2; max_bytes = 1000 }

abbrev accepted_writes : List StoredWrite
accepted_writes = first ∷ second ∷ []

abbrev completions : List (Text × ℕ)
completions = (1 ∷ [], 7) ∷ []

abbrev contents : Text
contents = encode_all plain (pendings accepted_writes ++ dones completions)

abbrev in_memory : Opener
in_memory t = some (put_back t eof)

in_memory-Opens : Opens in_memory
unfolding put_back bytes_of ending
in_memory-Opens [] = (eof, refl, refl, refl)
in_memory-Opens (b ∷ bs) = (chunk b bs eof, refl, append-nil (b ∷ bs), refl)

accepted_writes-Holdable : Holdable limits accepted_writes
unfolding bad_id write_size contains text_eq
accepted_writes-Holdable = record {
  valid = (refl, (refl, tt));
  once = (refl, (refl, tt));
  rows = omega arith;
  bytes = omega arith;
}

all-LinesFit : LinesFit plain (pendings accepted_writes ++ dones completions)
unfolding plain
all-LinesFit = (omega arith, (omega arith, (omega arith, tt)))

completions-ValidDone : ValidDone completions
unfolding bad_id
completions-ValidDone = (refl, tt)

abbrev journal_file : Source
journal_file = put_back contents eof

same_bytes : bytes_of journal_file ≡ contents
unfolding bytes_of put_back plain encode_all
same_bytes = refl

same_end : ending journal_file ≡ ends
unfolding ending put_back plain encode_all
same_end = refl

read_state-due_example :
    read_state plain limits (some journal_file) ≡ ok (due limits accepted_writes completions)
read_state-due_example =
    read_state-due plain plain-IsCodec limits accepted_writes completions journal_file (omega arith)
      accepted_writes-Holdable completions-ValidDone all-LinesFit same_bytes same_end

read_state-encode_all_example :
    read_state plain limits (some journal_file)
    ≡ elim (apply_records limits 0 no_records (pendings accepted_writes ++ dones completions)) [
      | err e ↦ err e
      | ok s ↦ ok (to_replay s)
    ]
read_state-encode_all_example =
    read_state-encode_all (pendings accepted_writes ++ dones completions) plain plain-IsCodec limits
      journal_file same_bytes same_end all-LinesFit

loaded : read_state plain limits (in_memory contents) ≡ ok (due limits accepted_writes completions)
loaded =
    read_state-due plain plain-IsCodec limits accepted_writes completions journal_file (omega arith)
      accepted_writes-Holdable completions-ValidDone all-LinesFit same_bytes same_end

read_state-IsReplay_example : IsReplay limits (due limits accepted_writes completions)
read_state-IsReplay_example =
    read_state-IsReplay plain limits (in_memory contents) (due limits accepted_writes completions)
      (omega arith) loaded

read_state-ends_example : read_state plain limits (some journal_file) ≢ err out_of_fuel
read_state-ends_example = read_state-ends plain limits (some journal_file)

at_nine : List Text → List (Text × ℕ)
at_nine [] = []
at_nine (id ∷ ids) = (id, 9) ∷ at_nine ids

abbrev old_journal : Journal
old_journal = record { path = some (1 ∷ []); file = some contents }

abbrev replay_due : Replay
replay_due = due limits accepted_writes completions

abbrev new_journal : Journal
new_journal = record old_journal {
  file = some (replacement plain replay_due (at_nine replay_due.done));
}

compacted : compact plain in_memory old_journal limits 1 at_nine all_done ≡ replaced new_journal
unfolding compact replace_file plain encode_all
compacted = ground (arith, loaded)

nothing_new : done_ids (at_nine replay_due.done) ≡ replay_due.done
unfolding at_nine due new_dedupe remember_all remember contains evict_order
nothing_new = refl

new-LinesFit : LinesFit plain (pendings replay_due.pending ++ dones (at_nine replay_due.done))
unfolding at_nine due new_dedupe remember_all remember unfinished plain contains text_eq evict_order
new-LinesFit = (omega arith, (omega arith, tt))

compact_keeps_example :
    (after : Text) × (q : Replay) × (new_journal.file ≡ some after)
    × (read_state plain limits (in_memory after) ≡ ok q)
    × (q.pending ≡ replay_due.pending)
    × (q.done ≡ replay_due.done)
compact_keeps_example =
    compact_keeps plain plain-IsCodec in_memory in_memory-Opens old_journal new_journal limits 1
      at_nine all_done contents replay_due (omega arith) refl loaded nothing_new new-LinesFit
      compacted

append_pending-AllOrNothing_example :
    AllOrNothing old_journal contents
      (encode_all plain (pendings accepted_writes))
      (append_pending plain old_journal accepted_writes (torn 3))
append_pending-AllOrNothing_example =
    append_pending-AllOrNothing plain old_journal (1 ∷ []) contents first (second ∷ []) (torn 3)
      refl refl

abbrev one_pending : Loading
one_pending = record no_records {
  pending = record { ordinal = 1; write = first } ∷ [];
  pending_bytes = 258;
}

taken : apply_record limits 1 (pending first) no_records ≡ ok one_pending
unfolding apply_record apply_pending add_pending with_pending bad_id write_size get contains
taken = ground arith

apply_record-IsLoading_example : IsLoading limits 2 one_pending
apply_record-IsLoading_example =
    apply_record-IsLoading limits 1 (pending first) no_records one_pending
      (no_records-IsLoading limits (omega arith)) taken

abbrev two_chunks : Source
two_chunks = chunk 5 (6 ∷ []) (chunk 7 (b'\n' ∷ 8 ∷ []) eof)

line_read : read_line [] two_chunks ≡ line (5 ∷ 6 ∷ 7 ∷ b'\n' ∷ []) (chunk 8 [] eof)
unfolding read_line put_back
line_read = ground arith

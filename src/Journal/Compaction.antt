-- ===== src/Journal/Compaction.antt =====
-- src/journal.rs: appending is all or nothing, and compacting does not change what is recovered.
use whaletracker.Prelude.{
  ℕ, ◌<◌, ◌≡◌, refl, sym, ap, ◌∙◌, List, [], ◌∷◌, ◌++◌, some, arith, take, Text, word_mod,
  append_assoc,
}
use whaletracker.Reader.Line.{take-append}
use whaletracker.Reader.{Source, bytes_of, ends, ending}
use whaletracker.Journal.{Codec, Record, StoredWrite, Limits, ok}
use whaletracker.Journal.Invariant.{ValidTexts}
use whaletracker.Journal.Load.{Replay, read_state}
use whaletracker.Journal.Order.{IsReplay, read_state-IsReplay}
use whaletracker.Journal.Encoded.{IsCodec, encode_all, LinesFit}
use whaletracker.Journal.Phases.{pendings, dones, done_ids}
use whaletracker.Journal.Finished.{ValidDone}
use whaletracker.Journal.Recovery.{due, read_state-due, due-replay}
use whaletracker.Journal.File.{
  Journal, AppendIo, written, metadata_fails, torn, torn_for_good, Appended, appended,
  append_failed, aborted, append_to, append_bytes, append_pending, Opener, replacement,
  replace_file, CompactIo, replaced, compact,
}

-- What an append of `lines` to a file with `contents` may come to: all of the lines, none of them
-- and an error, or the end of the process in the middle of them.
abbrev pub AllOrNothing : Journal → Text → Text → Appended → Type 0
AllOrNothing j contents lines (appended k) = k ≡ record j { file = some (contents ++ lines) }
AllOrNothing j contents lines (append_failed k) = k ≡ j
AllOrNothing j contents lines (aborted k) =
    (n : ℕ) × (k ≡ record j { file = some (contents ++ take n lines) })

append_bytes-AllOrNothing :
    (j : Journal) (contents lines : Text) (io : AppendIo)
    → j.file ≡ some contents
    → AllOrNothing j contents lines (append_bytes j lines io)
unfolding append_bytes append_to
append_bytes-AllOrNothing j contents lines written e = ground arith
append_bytes-AllOrNothing j contents lines metadata_fails e = ground arith
append_bytes-AllOrNothing j contents lines (torn n) e =
    ground (arith, take-append contents (take n lines))
append_bytes-AllOrNothing j contents lines (torn_for_good n) e = rw (e, append_bytes) (n, refl)

append_pending_on :
    (codec : Codec) (j : Journal) (path : Text) (w : StoredWrite) (ws : List StoredWrite)
    (io : AppendIo)
    → j.path ≡ some path
    → append_pending codec j (w ∷ ws) io ≡ append_bytes j (encode_all codec (pendings (w ∷ ws))) io
unfolding append_pending
append_pending_on codec j path w ws io p = ground (arith, p)

-- A batch of at least one write is appended to an open journal as a whole, or not at all: where the write or its
-- synchronisation fails, the bytes that came through are cut off again. Only where that too fails
-- can a part of the batch stay in the file, and then the process has ended.
pub append_pending-AllOrNothing :
    (codec : Codec) (j : Journal) (path contents : Text) (w : StoredWrite) (ws : List StoredWrite)
    (io : AppendIo)
    → j.path ≡ some path
    → j.file ≡ some contents
    → AllOrNothing j contents
        (encode_all codec (pendings (w ∷ ws)))
        (append_pending codec j (w ∷ ws) io)
append_pending-AllOrNothing codec j path contents w ws io p e =
    rw (append_pending_on codec j path w ws io p)
      (append_bytes-AllOrNothing j contents (encode_all codec (pendings (w ∷ ws))) io e)

-- Opening the journal for reading yields its bytes, in some chunks, up to their end.
abbrev pub Opens : Opener → Type 0
Opens opener =
    (contents : Text)
    → (src : Source) × (opener contents ≡ some src)
      × (bytes_of src ≡ contents)
      × (ending src ≡ ends)

encode_all-append :
    (codec : Codec) (rs qs : List Record)
    → encode_all codec (rs ++ qs) ≡ encode_all codec rs ++ encode_all codec qs
unfolding encode_all
encode_all-append codec [] qs = refl
encode_all-append codec (r ∷ rs) qs =
    ap (λ (t : Text). codec.encode r ++ b'\n' ∷ t) (encode_all-append codec rs qs)
    ∙ sym (append_assoc (codec.encode r) (b'\n' ∷ encode_all codec rs) (encode_all codec qs))

ValidTexts-ValidDone : (ds : List (Text × ℕ)) → ValidTexts (done_ids ds) → ValidDone ds
ValidTexts-ValidDone [] v = tt
ValidTexts-ValidDone ((id, ts) ∷ ds) v = (v.0, ValidTexts-ValidDone ds v.1)

-- The replacement file loads as the file that it replaces.
replacement-same :
    (codec : Codec) (c : IsCodec codec) (l : Limits) (r : Replay) (ds : List (Text × ℕ))
    (src : Source)
    → l.max_bytes < word_mod
    → IsReplay l r
    → done_ids ds ≡ r.done
    → LinesFit codec (pendings r.pending ++ dones ds)
    → bytes_of src ≡ replacement codec r ds
    → ending src ≡ ends
    → (q : Replay) × (read_state codec l (some src) ≡ ok q)
      × (q.pending ≡ r.pending)
      × (q.done ≡ r.done)
unfolding replacement
replacement-same codec c l r ds src fit v same lines b e =
    let (pending_same, done_same) = due-replay l r ds v same in
    (
      due l r.pending ds,
      read_state-due codec c l r.pending ds src fit
          (record { valid = v.valid; once = v.once; rows = v.rows_within; bytes = v.bytes_within })
          (ValidTexts-ValidDone ds (rw same v.done_valid)) lines
          (b ∙ sym (encode_all-append codec (pendings r.pending) (dones ds))) e,
      pending_same,
      done_same,
    )

compact-replaced :
    (codec : Codec) (opener : Opener) (j k : Journal) (l : Limits) (minimum : ℕ)
    (clock : List Text → List (Text × ℕ)) (io : CompactIo) (contents : Text) (r : Replay)
    → j.file ≡ some contents
    → read_state codec l (opener contents) ≡ ok r
    → compact codec opener j l minimum clock io ≡ replaced k
    → k ≡ record j { file = some (replacement codec r (clock r.done)) }
unfolding compact replace_file
compact-replaced codec opener j k l minimum clock io contents r f loaded e =
    ground (arith, f, loaded)

-- Let the codec write each record as a line that it reads back, the opened file yield its bytes,
-- and the limit on bytes fit in a word. A compaction that replaces the journal changes nothing that
-- a restart recovers: whatever `r` the file gave, the new file gives the same pending writes, in
-- the same order, and the same completed IDs, provided that the clock gives each completed ID a
-- time and the new lines are within the limit on lines.
pub compact_keeps :
    (codec : Codec) (c : IsCodec codec) (opener : Opener) (opens : Opens opener) (j k : Journal)
    (l : Limits) (minimum : ℕ) (clock : List Text → List (Text × ℕ)) (io : CompactIo)
    (contents : Text) (r : Replay)
    → l.max_bytes < word_mod
    → j.file ≡ some contents
    → read_state codec l (opener contents) ≡ ok r
    → done_ids (clock r.done) ≡ r.done
    → LinesFit codec (pendings r.pending ++ dones (clock r.done))
    → compact codec opener j l minimum clock io ≡ replaced k
    → (after : Text) × (q : Replay) × (k.file ≡ some after)
      × (read_state codec l (opener after) ≡ ok q)
      × (q.pending ≡ r.pending)
      × (q.done ≡ r.done)
compact_keeps codec c opener opens j k l minimum clock io contents r fit f loaded same lines e =
    let after = replacement codec r (clock r.done) in
    let (src, opened, bytes, end) = opens after in
    let (q, read_back, pending_same, done_same) =
      replacement-same codec c l r (clock r.done) src fit
        (read_state-IsReplay codec l (opener contents) r fit loaded) same lines bytes end in
    (
      after,
      q,
      ap (λ (x : Journal). x.file)
          (compact-replaced codec opener j k l minimum clock io contents r f loaded e),
      ap (read_state codec l) opened ∙ read_back,
      pending_same,
      done_same,
    )

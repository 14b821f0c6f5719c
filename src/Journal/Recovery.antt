-- ===== src/Journal/Recovery.antt =====
-- src/journal.rs: what a restart recovers from a journal of pending and completion records.
use whaletracker.Prelude.{
  ℕ, suc, ◌+◌, ◌≤◌, ◌<◌, ◌≡◌, refl, ap, ◌∙◌, List, [], ◌∷◌, ◌++◌, true, false, some, arith, length,
  Text, contains, contains-nil, contains-cons, text_eq_refl, Bool-cases, Distinct, word_mod,
}
use whaletracker.Reader.{Source, bytes_of, ends, ending}
use whaletracker.Admission.Dedupe.{Dedupe, new_dedupe, remember_all}
use whaletracker.Admission.Dedupe.Recent.{remember_all-fits, new-IsDedupe}
use whaletracker.Journal.{StoredWrite, Codec, Result, ok, err, Loading, Limits, no_records}
use whaletracker.Journal.Invariant.{dedupe_of, IsLoading}
use whaletracker.Journal.Bounds.{no_records-IsLoading}
use whaletracker.Journal.Load.{writes_of, Replay, to_replay, read_state}
use whaletracker.Journal.Order.{
  write_ids, sizes, ValidIds, in_order, IsReplay, sort_by_ordinal-reverse,
}
use whaletracker.Journal.Encoded.{
  IsCodec, encode_all, LinesFit, apply_records, apply_records-append, read_state-encode_all,
}
use whaletracker.Journal.Phases.{pendings, dones, done_ids, Room, pendings-Added}
use whaletracker.Journal.Finished.{unfinished, ValidDone, dones-Completed}

-- The writes of a batch that a journal with these limits can hold.
pub record Holdable (l : Limits) (ws : List StoredWrite) : Type 0 where
  pub valid : ValidIds ws
  pub once : Distinct (write_ids ws)
  pub rows : length ws ≤ l.max_rows
  pub bytes : sizes ws ≤ l.max_bytes

-- The replay that is due after `ws` were accepted and `ds` completed.
unfoldable pub due : Limits → List StoredWrite → List (Text × ℕ) → Replay
due l ws ds = record {
  pending = unfinished (done_ids ds) ws;
  done = (remember_all (new_dedupe l.dedupe_capacity) (done_ids ds)).order;
  done_records = length ds;
}

to_replay-due :
    (l : Limits) (n : ℕ) (ws : List StoredWrite) (ds : List (Text × ℕ)) (t : Loading)
    → IsLoading l n t
    → in_order t.pending ≡ unfinished (done_ids ds) ws
    → dedupe_of l.dedupe_capacity t ≡ remember_all (new_dedupe l.dedupe_capacity) (done_ids ds)
    → t.done_records ≡ length ds
    → to_replay t ≡ due l ws ds
unfolding to_replay due
to_replay-due l n ws ds t v writes completed counted = λ i. record {
  pending = (ap writes_of (sort_by_ordinal-reverse n t.pending v.map_fits.ordered) ∙ writes) i;
  done = (completed i).order;
  done_records = counted i;
}

-- Let the codec write each record as a line that it reads back, the limit on bytes fit in a word,
-- and the lines be within the limit on lines. A file to which `ws`, of valid and distinct IDs and
-- within the limits on rows and bytes, were appended as pending, and then `ds`, of valid IDs, as
-- completed, loads however it is cut into chunks; the replay holds exactly the writes that have no
-- completion record, in the order of the file, the last completed IDs as `remember` keeps them, and
-- the number of completion records.
pub read_state-due :
    (codec : Codec) (c : IsCodec codec) (l : Limits) (ws : List StoredWrite) (ds : List (Text × ℕ))
    (file : Source)
    → l.max_bytes < word_mod
    → Holdable l ws
    → ValidDone ds
    → LinesFit codec (pendings ws ++ dones ds)
    → bytes_of file ≡ encode_all codec (pendings ws ++ dones ds)
    → ending file ≡ ends
    → read_state codec l (some file) ≡ ok (due l ws ds)
unfolding writes_of new_dedupe
read_state-due codec c l ws ds file fit h valid lines b e =
    let room : Room l no_records ws = record {
      valid = h.valid;
      once = h.once;
      rows = h.rows;
      bytes = h.bytes;
      fresh = λ j k. cc (contains-nil j);
    } in
    let added = pendings-Added ws l 0 no_records (no_records-IsLoading l fit) room in
    let completed =
      dones-Completed ds l (0 + length (pendings ws)) added.state added.loading valid in
    let d₀ : dedupe_of l.dedupe_capacity added.state ≡ new_dedupe l.dedupe_capacity = λ i. record {
      known = added.done_set_same i;
      order = added.done_same i;
      capacity = l.dedupe_capacity;
    } in
    let loaded : apply_records l 0 no_records (pendings ws ++ dones ds) ≡ ok completed.state =
      apply_records-append (pendings ws) (dones ds) l 0 no_records added.state added.runs
      ∙ completed.runs in
    read_state-encode_all (pendings ws ++ dones ds) codec c l file b e lines
    ∙ ap (λ (x : Result Loading). elim x [ err e ↦ err e | ok s ↦ ok (to_replay s) ]) loaded
    ∙ ap ok (
        to_replay-due l (suc completed.last) ws ds completed.state completed.loading
          (completed.writes ∙ ap (unfinished (done_ids ds)) added.writes)
          (completed.completed ∙ ap (λ (d : Dedupe). remember_all d (done_ids ds)) d₀)
          (omega (arith, completed.counted, added.done_records_same)))

unfinished-apart :
    (ids : List Text) (ws : List StoredWrite)
    → ((j : Text) → contains j ids ≡ true → contains j (write_ids ws) ≡ false)
    → unfinished ids ws ≡ ws
unfolding unfinished
unfinished-apart ids [] h = refl
unfinished-apart ids (w ∷ ws) h = ground (
  arith,
  h w.event_id,
  contains-cons w.event_id w.event_id (write_ids ws),
  text_eq_refl w.event_id,
  Bool-cases (contains w.event_id ids),
  unfinished-apart ids ws (λ j k. ground (arith, h j k, contains-cons j w.event_id (write_ids ws))),
)

-- Replays that a compaction does not change.
pub due-replay :
    (l : Limits) (r : Replay) (ds : List (Text × ℕ))
    → IsReplay l r
    → done_ids ds ≡ r.done
    → ((due l r.pending ds).pending ≡ r.pending) × ((due l r.pending ds).done ≡ r.done)
unfolding due new_dedupe
due-replay l r ds v same = (
  unfinished-apart (done_ids ds) r.pending (λ j h. v.apart j (rw same at h)),
  remember_all-fits (done_ids ds) (new_dedupe l.dedupe_capacity) (new-IsDedupe l.dedupe_capacity)
        (rw same v.done_once) (rw same v.done_within)
      ∙ same,
)

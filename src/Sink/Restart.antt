-- ===== src/Sink/Restart.antt =====
-- src/sink.rs, `replay`: a journal that loads is queued again as a whole.
use whaletracker.Prelude.{
  ◌<◌, ◌≡◌, refl, ◌∙◌, List, [], ◌∷◌, ◌++◌, false, Option, none, some, arith, length, Text,
  contains, word_mod, append-nil,
}
use whaletracker.Sql.Lane.{Lane, online, stats, logs, at_lane}
use whaletracker.Sql.Classify.{Classification}
use whaletracker.Admission.{
  Admission, Permit, granted, new_admission, reserve, permits_of, admit_all,
}
use whaletracker.Admission.Reach.{new-Sound, reserve_complete}
use whaletracker.Admission.Completion.{new_completion}
use whaletracker.Admission.Dedupe.{new_dedupe, remember_all}
use whaletracker.Journal.{Limits, ok}
use whaletracker.Journal.Load.{Replay}
use whaletracker.Journal.Order.{IsReplay, read_state-IsReplay}
use whaletracker.Journal.File.{Journal, AppendIo}
use whaletracker.Journal.File
use whaletracker.Sink.{Sink, Job, Outside, Settings, new_sink, limits_of, each}
use whaletracker.Sink.Publish.{
  Classed, accepted, count_accepted, zip_writes, not_completed, specs_of, classes, classify_all,
  replayed, start_counts, count_replayed, publish_replay, publish_writes, publish_batch,
  publish_reserved, publish_jobs, push_jobs, replay,
}
use whaletracker.Sink.Pushed.{push_jobs_lane}
use whaletracker.Sink.Steps.{lane_jobs}
use whaletracker.Sink.Pending.{
  exceeds_queue-IsReplay, completed_known, length-classify_all, none_completed, zipped_ids,
}

-- The queues that a restart leaves.
abbrev pub Requeues : Replay → List Classification → Sink → Type 0
Requeues r cs s =
    (k : Lane)
    → at_lane s.queues k
      ≡ lane_jobs k (zip_writes r.pending cs) (permits_of (specs_of (zip_writes r.pending cs))) 0

batch_granted :
    (c : Settings) (r : Replay) (cs : List Classification)
    → c.max_queue_rows < word_mod
    → c.max_queue_bytes < word_mod
    → IsReplay (limits_of c) r
    → length cs ≡ length r.pending
    → reserve
        (new_admission c.max_queue_rows c.max_queue_bytes)
        (specs_of (zip_writes r.pending cs))
      ≡ granted
          (record (new_admission c.max_queue_rows c.max_queue_bytes) {
            state =
                admit_all
                  (new_admission c.max_queue_rows c.max_queue_bytes).state
                  (specs_of (zip_writes r.pending cs));
          })
          (permits_of (specs_of (zip_writes r.pending cs)))
unfolding limits_of new_admission
batch_granted c r cs rows bytes v e =
    let z = zipped_ids r.pending cs e in
    reserve_complete (new_admission c.max_queue_rows c.max_queue_bytes) []
      (specs_of (zip_writes r.pending cs)) (new-Sound c.max_queue_rows c.max_queue_bytes rows bytes)
      (ground (arith, z, v.rows_within)) (ground (arith, z, v.bytes_within))
      (rw (append-nil (permits_of (specs_of (zip_writes r.pending cs))), z.0) v.once)

publish_batch-granted :
    (o : Outside) (s : Sink) (batch : List Classed) (io : AppendIo) (a : Admission)
    (ps : List Permit)
    → reserve s.admission (specs_of batch) ≡ granted a ps
    → (t : Sink) × (publish_batch o s batch false io
        ≡ accepted t (length batch) (length s.completions))
      × (t.queues ≡ push_jobs s.queues batch ps (length s.completions))
unfolding publish_batch publish_reserved publish_jobs
publish_batch-granted o s batch io a ps g =
    let t : Sink = record s {
      admission = a;
      queues = push_jobs s.queues batch ps (length s.completions);
      completions = s.completions ++ new_completion (length batch) ∷ [];
      counters = count_accepted s.counters (length batch);
    } in
    (t, ground (arith, g), refl)

-- Nothing that is pending is known as completed.
nothing_filtered :
    (c : Settings) (j : Journal) (r : Replay) (cs : List Classification)
    → IsReplay (limits_of c) r
    → not_completed (start_counts (new_sink c j) r).dedupe (zip_writes r.pending cs)
      ≡ zip_writes r.pending cs
unfolding start_counts new_sink limits_of
nothing_filtered c j r cs v =
    none_completed r.pending cs (remember_all (new_dedupe c.dedupe_events) r.done) (λ k h.
      completed_known c.dedupe_events (limits_of c) r k refl v ∙ ground (arith, v.apart k, h))

empty_lane : (k : Lane) (jobs : List Job) → at_lane (each {A = List Job} []) k ++ jobs ≡ jobs
unfolding at_lane
empty_lane online jobs = refl
empty_lane stats jobs = refl
empty_lane logs jobs = refl

published :
    (o : Outside) (c : Settings) (j : Journal) (r : Replay) (cs : List Classification)
    (io : AppendIo)
    → c.max_queue_rows < word_mod
    → c.max_queue_bytes < word_mod
    → IsReplay (limits_of c) r
    → classify_all o.rate r.pending ≡ classes cs
    → (s : Sink) × (publish_replay o (new_sink c j) r io ≡ replayed s) × Requeues r cs s
unfolding publish_replay publish_writes start_counts new_sink
published o c j r cs io rows bytes v all =
    let batch = zip_writes r.pending cs in
    let same = length-classify_all o.rate r.pending cs all in
    let (t, done, queued) =
      publish_batch-granted o (start_counts (new_sink c j) r) batch io _
        (permits_of (specs_of batch)) (batch_granted c r cs rows bytes v same) in
    (
      count_replayed (length r.pending) t,
      ground (arith, all, same, nothing_filtered c j r cs v, done),
      λ k.
          rw queued
            (push_jobs_lane batch (permits_of (specs_of batch)) (each []) 0 k ∙ empty_lane k _),
    )

replay-IsReplay :
    (o : Outside) (j : Journal) (l : Limits) (path : Option Text) (r : Replay)
    → j.path ≡ path
    → l.max_bytes < word_mod
    → File.replay o.codec o.opener j l ≡ ok r
    → IsReplay l r
unfolding File.replay contains
replay-IsReplay o j l none r p fit e =
    let same : r ≡ record { pending = []; done = []; done_records = 0 } = ground (arith, p) in
    rw same (record {
      rows_within = omega arith;
      bytes_within = omega arith;
      once = tt;
      apart = λ k h. refl;
      done_once = tt;
      done_within = omega arith;
      valid = tt;
      done_valid = tt;
    })
replay-IsReplay o j l (some path) r p fit e =
    read_state-IsReplay o.codec l (elim j.file [ none ↦ none | some contents ↦ o.opener contents ])
      r fit (ground (arith, p))

-- With queue limits that fit in a word: where the journal loads and every pending write in it is
-- still accepted by the classification, `replay` on a new sink succeeds. No capacity check refuses
-- it, no pending write is taken for completed, and each lane holds exactly its pending writes, in
-- the order of the journal.
pub replay-Requeues :
    (o : Outside) (c : Settings) (j : Journal) (r : Replay) (cs : List Classification)
    (io : AppendIo)
    → c.max_queue_rows < word_mod
    → c.max_queue_bytes < word_mod
    → File.replay o.codec o.opener j (limits_of c) ≡ ok r
    → classify_all o.rate r.pending ≡ classes cs
    → (s : Sink) × (replay o (new_sink c j) io ≡ replayed s) × Requeues r cs s
unfolding replay new_sink limits_of
replay-Requeues o c j r cs io rows bytes loaded all =
    let v = replay-IsReplay o j (limits_of c) j.path r refl bytes loaded in
    let (s, done, queued) = published o c j r cs io rows bytes v all in
    (s, ground (arith, loaded, exceeds_queue-IsReplay (new_sink c j) r bytes v, done), queued)

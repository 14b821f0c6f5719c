-- ===== src/Sink/Publish.antt =====
-- src/sink.rs: `publish_writes`, `enqueue` and `replay`.
use whaletracker.Prelude.{
  ℕ, List, [], ◌∷◌, ◌++◌, Bool, true, false, ◌||◌, Option, none, some, ◌==◌, ltb, if◌then◌else◌,
  length, wrapping_add, checked_add,
}
use whaletracker.Sql.Lane.{PerLane, at_lane, set_lane}
use whaletracker.Sql.Statement.{SqlError}
use whaletracker.Sql.LogRate.{RateTest}
use whaletracker.Sql.Classify.{Classification, classified, rejected, validate_and_classify}
use whaletracker.Admission.{Spec, Permit, Refusal, granted, refused, reserve, retire_all}
use whaletracker.Admission.Completion.{new_completion}
use whaletracker.Admission.Dedupe.{Dedupe, dedupe_contains, remember_all}
use whaletracker.Journal.{StoredWrite, write_size, ok, err, JournalError}
use whaletracker.Journal.Load.{Replay}
use whaletracker.Journal.File.{
  Journal, AppendIo, Appended, appended, append_failed, aborted, append_pending,
}
use whaletracker.Journal.File
use whaletracker.Sink.{Sink, Job, Outside, Counters, invalid_write, limits_of}

-- The texts of the errors of `enqueue`.
pub data PublishError : Type 0 where
  invalid_batch journal_write_failed : PublishError
  not_reserved : Refusal → PublishError

-- The outcome, with the sink that is left: the number of jobs and the index of the completion, an
-- error, a panic, or the end of the process in the journal.
pub data Published : Type 0 where
  accepted : Sink → ℕ → ℕ → Published
  publish_failed : Sink → PublishError → Published
  panicked : Published
  process_ended : Sink → Published

abbrev pub Classed : Type 0
Classed = StoredWrite × Classification

unfoldable pub zip_writes : List StoredWrite → List Classification → List Classed
zip_writes (w ∷ ws) (c ∷ cs) = (w, c) ∷ zip_writes ws cs
zip_writes _ _ = []

-- `.filter(|(write, _)| !self.dedupe.contains(&write.event_id))`.
unfoldable pub not_completed : Dedupe → List Classed → List Classed
unfolding dedupe_contains
not_completed d [] = []
not_completed d ((w, c) ∷ rest) =
    let more = not_completed d rest in if dedupe_contains d w.event_id then more else (w, c) ∷ more

unfoldable pub specs_of : List Classed → List Spec
specs_of [] = []
specs_of ((w, c) ∷ rest) =
    record { id = w.event_id; bytes = write_size w; lane = c.lane } ∷ specs_of rest

abbrev pub writes_in : List Classed → List StoredWrite
writes_in [] = []
writes_in ((w, c) ∷ rest) = w ∷ writes_in rest

-- `push_back` on the lane of each job, in the order of the batch.
unfoldable pub push_jobs : PerLane (List Job) → List Classed → List Permit → ℕ → PerLane (List Job)
push_jobs queues ((w, c) ∷ rest) (p ∷ ps) i =
    push_jobs
      (set_lane queues c.lane (
        at_lane queues c.lane
        ++ record { write = w; classification = c; permit = p; completion = i } ∷ []))
      rest ps i
push_jobs queues _ _ i = queues

-- `fetch_add` on `accepted`.
abbrev pub count_accepted : Counters → ℕ → Counters
count_accepted c n = record c { accepted = wrapping_add c.accepted n }

-- The publication of a batch that has its permits and is in the journal.
unfoldable pub publish_jobs : Sink → List Classed → List Permit → Published
unfolding push_jobs new_completion
publish_jobs s batch permits =
    accepted
      (record s {
        queues = push_jobs s.queues batch permits (length s.completions);
        completions = s.completions ++ new_completion (length batch) ∷ [];
        counters = count_accepted s.counters (length batch);
      })
      (length batch) (length s.completions)

-- A journal error drops the permits.
unfoldable pub journal_then_publish :
    Outside → Sink → List Classed → List Permit → Appended → Published
unfolding publish_jobs retire_all
journal_then_publish o s batch permits (appended j) =
    publish_jobs (record s { journal = j }) batch permits
journal_then_publish o s batch permits (append_failed j) = elim (retire_all s.admission permits) [
  | none ↦ panicked
  | some a ↦ publish_failed (record s { journal = j; admission = a }) journal_write_failed
]
journal_then_publish o s batch permits (aborted j) = process_ended (record s { journal = j })

-- A batch with its permits.
unfoldable pub publish_reserved :
    Outside → Sink → List Classed → List Permit → Bool → AppendIo → Published
unfolding journal_then_publish publish_jobs
publish_reserved o s batch permits append io =
    if append
    then journal_then_publish o s batch permits
        (append_pending o.codec s.journal (writes_in batch) io)
    else publish_jobs s batch permits

-- Behind the filter.
unfoldable pub publish_batch : Outside → Sink → List Classed → Bool → AppendIo → Published
unfolding specs_of publish_reserved
publish_batch o s batch append io = elim (reserve s.admission (specs_of batch)) [
  | refused why ↦ publish_failed s (not_reserved why)
  | granted a permits ↦ publish_reserved o (record s { admission = a }) batch permits append io
]

unfoldable pub publish_writes :
    Outside → Sink → List StoredWrite → List Classification → Bool → AppendIo → Published
unfolding publish_batch not_completed zip_writes
publish_writes o s writes classes append io =
    if length writes == length classes
    then publish_batch o s (not_completed s.dedupe (zip_writes writes classes)) append io
    else panicked

-- The loop of `enqueue` over the batch: the classes, or the first write that is refused.
pub data AllClasses : Type 0 where
  classes : List Classification → AllClasses
  refuses : StoredWrite → SqlError → AllClasses

abbrev cons_class : Classification → AllClasses → AllClasses
cons_class c (classes cs) = classes (c ∷ cs)
cons_class c (refuses w e) = refuses w e

unfoldable pub classify_all : RateTest → List StoredWrite → AllClasses
classify_all rate [] = classes []
classify_all rate (w ∷ ws) = elim (validate_and_classify rate w.sql) [
  | rejected e ↦ refuses w e
  | classified c ↦ cons_class c (classify_all rate ws)
]

unfoldable pub enqueue : Outside → Sink → List StoredWrite → AppendIo → Published
unfolding classify_all
enqueue o s writes io = elim (classify_all o.rate writes) [
  | refuses w e ↦
      publish_failed (record s { dead_letters = s.dead_letters ++ invalid_write w ∷ [] })
        invalid_batch
  | classes cs ↦ publish_writes o s writes cs true io
]

-- The check of `replay` on the rows and the bytes.
unfoldable pub replay_bytes : ℕ → List StoredWrite → Option ℕ
replay_bytes sum [] = some sum
replay_bytes sum (w ∷ ws) = elim (checked_add sum (write_size w)) [
  | none ↦ none
  | some more ↦ replay_bytes more ws
]

unfoldable pub exceeds_queue : Sink → List StoredWrite → Bool
unfolding replay_bytes
exceeds_queue s ws =
    ltb s.settings.max_queue_rows (length ws)
    || elim (replay_bytes 0 ws) [ none ↦ true | some bytes ↦ ltb s.settings.max_queue_bytes bytes ]

pub data ReplayError : Type 0 where
  journal_error : JournalError → ReplayError
  exceeds_capacity : ReplayError
  invalid_record : SqlError → ReplayError
  not_published : PublishError → ReplayError
  replay_panicked : ReplayError

pub data Replayed : Type 0 where
  replayed : Sink → Replayed
  replay_failed : ReplayError → Replayed

-- `done` is remembered and the counters are stored before the records are validated.
unfoldable pub start_counts : Sink → Replay → Sink
start_counts s r = record s {
  dedupe = remember_all s.dedupe r.done;
  counters = record (s.counters) {
    journal_pending_startup = length r.pending;
    journal_done_startup = r.done_records;
  };
}

abbrev pub count_replayed : ℕ → Sink → Sink
count_replayed n s = record s { counters = record (s.counters) { journal_replayed_startup = n } }

abbrev pub after_publish : ℕ → Published → Replayed
after_publish n (accepted s count i) = replayed (count_replayed n s)
after_publish n (publish_failed s e) = replay_failed (not_published e)
after_publish n panicked = replay_failed replay_panicked
after_publish n (process_ended s) = replay_failed replay_panicked

unfoldable pub publish_replay : Outside → Sink → Replay → AppendIo → Replayed
unfolding classify_all start_counts publish_writes
publish_replay o s r io = elim (classify_all o.rate r.pending) [
  | refuses w e ↦ replay_failed (invalid_record e)
  | classes cs ↦
      after_publish (length r.pending) (publish_writes o (start_counts s r) r.pending cs false io)
]

-- No I/O is met where nothing is appended, so that `io` is not looked at.
unfoldable pub replay : Outside → Sink → AppendIo → Replayed
unfolding exceeds_queue publish_replay limits_of
replay o s io = elim (File.replay o.codec o.opener s.journal (limits_of s.settings)) [
  | err e ↦ replay_failed (journal_error e)
  | ok r ↦
      if exceeds_queue s r.pending then replay_failed exceeds_capacity else publish_replay o s r io
]

-- ===== src/Sink/Work.antt =====
-- src/sink.rs: the steps of `worker_loop` on one lane, in the order of its body: `take_batch`, a
-- connection, the statements of the batch, `confirm_committed`, and the retry of a failed head.
use whaletracker.Prelude.{
  ℕ, zero, suc, ◌/◌, List, [], ◌∷◌, ◌++◌, Bool, true, false, ◌||◌, Option, none, some, ◌==◌,
  if◌then◌else◌, length, min, take, drop, get_elem?, Text, text_eq, wrapping_add, saturating_add,
}
use whaletracker.Sql.Lane.{Lane, at_lane, set_lane}
use whaletracker.Admission.{retire}
use whaletracker.Admission.Completion.{Completion, finish}
use whaletracker.Admission.Dedupe.{dedupe_contains, remember}
use whaletracker.Journal.{Codec}
use whaletracker.Journal.File.{
  Journal, AppendIo, appended, append_failed, aborted, append_done, CompactIo, Compacted, left,
  replaced, compact_failed, compact,
}
use whaletracker.Sink.{
  Sink, Job, Worker, Outside, db_retry_not_discarded, limits_of, base_delay, back_off,
}

abbrev pub set_worker : Sink → Lane → Worker → Sink
set_worker s l w = record s { workers = set_lane s.workers l w }

-- `take_batch`, when it returns: at most `max_batch_rows` jobs off the front of the queue.
unfoldable pub take_batch : Sink → Lane → Sink
take_batch s l =
    let queue = at_lane s.queues l in
    let count = min (length queue) s.settings.max_batch_rows in
    record s {
      queues = set_lane s.queues l (drop count queue);
      workers = set_lane s.workers l (record {
        batch = take count queue;
        committed = [];
        reported_head = none;
        delay = base_delay;
      });
    }

abbrev count_error : Sink → Sink
count_error s = record s {
  counters = record (s.counters) { db_errors = wrapping_add s.counters.db_errors 1 };
}

-- No connection: the batch is kept.
unfoldable pub no_connection : Sink → Lane → Sink
no_connection s l =
    let w = at_lane s.workers l in
    set_worker (count_error s) l (record w { delay = back_off w.delay })

-- The head of the batch has succeeded: it moves to the committed jobs.
unfoldable pub succeed : Sink → Lane → Worker → Job → List Job → Sink
succeed s l w j rest = record s {
  workers = set_lane s.workers l (record w { batch = rest; committed = w.committed ++ j ∷ [] });
  cache_dirty = if j.classification.invalidates_points then true else s.cache_dirty;
  counters = record (s.counters) { executed = wrapping_add s.counters.executed 1 };
}

-- One round of the inner loop, with what the database answers to the statement: the sink, or
-- `none` where the statement failed. A completed ID is not sent to the database again.
unfoldable pub run_head : Sink → Lane → Worker → Job → List Job → Bool → Option Sink
unfolding succeed dedupe_contains
run_head s l w j rest answers =
    if dedupe_contains s.dedupe j.write.event_id || answers
    then some (succeed s l w j rest)
    else none

unfoldable pub execute : Sink → Lane → Bool → Option Sink
unfolding run_head
execute s l answers = elim (at_lane s.workers l).batch [
  | [] ↦ none
  | j ∷ rest ↦ run_head s l (at_lane s.workers l) j rest answers
]

unfoldable pub is_reported : Option Text → Text → Bool
is_reported none id = false
is_reported (some t) id = text_eq t id

-- The retry of a failed head, behind the confirmation of what went before it.
unfoldable pub keep_head : Sink → Lane → Job → Sink
unfolding is_reported back_off
keep_head s l head =
    let w = at_lane s.workers l in
    let old = is_reported w.reported_head head.write.event_id in
    let t = count_error s in
    record t {
      workers = set_lane s.workers l (record w {
        reported_head = if old then w.reported_head else some head.write.event_id;
        delay = back_off w.delay;
      });
      dead_letters =
          if old then s.dead_letters else s.dead_letters ++ db_retry_not_discarded head.write ∷ [];
    }

-- A round with no failure.
unfoldable pub reset_delay : Sink → Lane → Sink
reset_delay s l = set_worker s l (record (at_lane s.workers l) { delay = base_delay })

-- The list of completions with the one at `i` replaced.
unfoldable pub put : List Completion → ℕ → Completion → List Completion
put [] i c = []
put (x ∷ xs) zero c = c ∷ xs
put (x ∷ xs) (suc i) c = x ∷ put xs i c

-- The end of one job: its ID is remembered, its completion counts down and its permit is dropped.
-- `none` is a panic of one of the two.
unfoldable pub finish_job : Sink → Job → Option Sink
unfolding put
finish_job s j = elim (get_elem? s.completions j.completion) [
  | none ↦ none
  | some c ↦ elim (finish c) [
    | none ↦ none
    | some d ↦ elim (retire s.admission j.permit) [
      | none ↦ none
      | some a ↦ some (record s {
        dedupe = remember s.dedupe j.write.event_id;
        completions = put s.completions j.completion d;
        admission = a;
      })
    ]
  ]
]

unfoldable pub finish_jobs : Sink → List Job → Option Sink
unfolding finish_job
finish_jobs s [] = some s
finish_jobs s (j ∷ js) = elim (finish_job s j) [ none ↦ none | some t ↦ finish_jobs t js ]

abbrev pub job_ids : List Job → List Text
job_ids [] = []
job_ids (j ∷ js) = j.write.event_id ∷ job_ids js

-- The retries of the completion markers, with the time and the outcome of each.
pub data Marked : Type 0 where
  marked : Journal → Marked
  still_trying : Journal → Marked
  ended : Journal → Marked

unfoldable pub mark_done : Codec → Journal → List Text → List (ℕ × AppendIo) → Marked
mark_done codec j ids [] = still_trying j
mark_done codec j ids ((now, io) ∷ tries) = elim (append_done codec j ids now io) [
  | appended k ↦ marked k
  | append_failed k ↦ mark_done codec k ids tries
  | aborted k ↦ ended k
]

abbrev after_compact : Sink → Compacted → Sink
after_compact s (left j) = record s { journal = j }
after_compact s (replaced j) = record s {
  journal = j;
  counters = record (s.counters) { compactions = wrapping_add s.counters.compactions 1 };
}
after_compact s (compact_failed j) = record s { journal = j }

-- The counter of the confirmed jobs, and a compaction whenever it passes a multiple of 1024.
unfoldable pub count_completed :
    Outside → Sink → ℕ → (List Text → List (Text × ℕ)) → CompactIo → Sink
count_completed o s count clock io =
    let previous = s.counters.completed_since_check in
    let t : Sink = record s {
      counters = record (s.counters) { completed_since_check = wrapping_add previous count };
    } in
    if previous / 1024 == saturating_add previous count / 1024
    then t
    else after_compact t (
        compact o.codec o.opener s.journal (limits_of s.settings) s.settings.compact_bytes clock io)

-- The outcome of a confirmation: `waiting` where the markers are not in the journal yet.
pub data Confirmed : Type 0 where
  confirmed : Sink → Confirmed
  waiting : Sink → Confirmed
  confirm_panicked : Confirmed
  process_ended : Sink → Confirmed

abbrev clear_committed : Sink → Lane → Sink
clear_committed s l = set_worker s l (record (at_lane s.workers l) { committed = [] })

unfoldable pub finish_marked :
    Outside → Sink → Lane → List Job → (List Text → List (Text × ℕ)) → CompactIo → Confirmed
unfolding finish_jobs count_completed
finish_marked o s l jobs clock io = elim (finish_jobs s jobs) [
  | none ↦ confirm_panicked
  | some t ↦ confirmed (clear_committed (count_completed o t (length jobs) clock io) l)
]

unfoldable pub confirm_jobs :
    Outside
    → Sink
    → Lane
    → List Job
    → List (ℕ × AppendIo)
    → (List Text → List (Text × ℕ))
    → CompactIo
    → Confirmed
unfolding finish_marked mark_done
confirm_jobs o s l [] tries clock io = confirmed s
confirm_jobs o s l (j ∷ js) tries clock io =
    elim (mark_done o.codec s.journal (job_ids (j ∷ js)) tries) [
      | still_trying k ↦ waiting (record s { journal = k })
      | ended k ↦ process_ended (record s { journal = k })
      | marked k ↦ finish_marked o (record s { journal = k }) l (j ∷ js) clock io
    ]

-- `confirm_committed` on the committed jobs of a lane.
unfoldable pub confirm :
    Outside
    → Sink
    → Lane
    → List (ℕ × AppendIo)
    → (List Text → List (Text × ℕ))
    → CompactIo
    → Confirmed
unfolding confirm_jobs
confirm o s l tries clock io = confirm_jobs o s l (at_lane s.workers l).committed tries clock io

-- ===== src/Tests/Delivered.antt =====
-- src/sink.rs: a batch of two writes on its way to the database.
use whaletracker.Prelude.{
  ℕ, arith, Text, ◌≡◌, ◌≢◌, refl, List, [], ◌∷◌, ◌++◌, true, Option, none, some, contains, insert,
  text_eq,
}
use whaletracker.Reader.{eof, put_back}
use whaletracker.Sql.Lane.{Lane, stats, at_lane, set_lane}
use whaletracker.Sql.Classify.{Classification}
use whaletracker.Admission.{
  reserve, total_bytes, check_ids, exceeds, admit_all, admit, permits_of, new_admission, retire,
  retired,
}
use whaletracker.Admission.Completion.{finish, new_completion}
use whaletracker.Admission.Dedupe.{new_dedupe, dedupe_contains}
use whaletracker.Journal.{write_size}
use whaletracker.Journal.File.{
  AppendIo, CompactIo, Journal, written, all_done, append_pending, append_bytes, append_to,
  append_done,
}
use whaletracker.Sink.{Sink, Job, Settings, Outside, new_sink}
use whaletracker.Journal.{StoredWrite}
use whaletracker.Sink.Publish.{
  enqueue, panicked, Classed, Published, accepted, publish_batch, publish_reserved,
  journal_then_publish, publish_jobs, push_jobs, specs_of,
}
use whaletracker.Sink.Work.{
  confirm_panicked, take_batch, execute, run_head, succeed, Confirmed, confirmed, confirm,
  confirm_jobs, mark_done, finish_marked, finish_jobs, finish_job, put, count_completed,
}
use whaletracker.Sink.Steps.{
  Run, start, next, accepts, takes, executes, confirms, line_up, only_at, lane_jobs,
}
use whaletracker.Sink.Fifo.{Run-fifo}
use whaletracker.Sink.Held.{Held}
use whaletracker.Sink.Reachable.{Run-Held, Run-no_panic}
use whaletracker.Tests.PlainCodec.{plain}

abbrev pub outside : Outside
outside = record {
  codec = plain;
  opener = λ t. some (put_back t eof);
  rate = λ amount playtime. true;
}

abbrev settings : Settings
settings = record {
  max_batch_rows = 1;
  max_queue_rows = 4;
  max_queue_bytes = 4000;
  dedupe_events = 4;
  compact_bytes = 0;
}

abbrev journal : Journal
journal = record { path = some (1 ∷ []); file = some [] }

abbrev pub started : Sink
started = new_sink settings journal

abbrev class : Classification
class = record { lane = stats; invalidates_points = true }

abbrev batch : List Classed
batch =
    (record { event_id = 1 ∷ []; sql = 2 ∷ []; user_id = none; batch_id = none; ts_ms = 3 }, class)
    ∷ (
      record { event_id = 4 ∷ []; sql = 5 ∷ []; user_id = none; batch_id = none; ts_ms = 6 },
      class,
    )
    ∷ []

abbrev sink_of : Published → Sink
sink_of (accepted s n i) = s
sink_of _ = started

abbrev published : Sink
published = sink_of (publish_batch outside started batch true written)

is_published : publish_batch outside started batch true written ≡ accepted published 2 0
unfolding publish_batch publish_reserved journal_then_publish publish_jobs reserve total_bytes
    check_ids exceeds specs_of write_size new_sink new_admission contains insert text_eq permits_of
    append_pending append_bytes append_to
is_published = refl

abbrev taken : Sink
taken = take_batch published stats

abbrev some_sink : Option Sink → Sink
some_sink none = started
some_sink (some s) = s

abbrev executed : Sink
executed = some_sink (execute taken stats true)

is_executed : execute taken stats true ≡ some executed
unfolding execute run_head succeed take_batch publish_batch publish_reserved journal_then_publish
    publish_jobs push_jobs reserve total_bytes check_ids exceeds specs_of write_size new_sink
    new_admission contains insert text_eq permits_of append_pending append_bytes append_to at_lane
    set_lane
is_executed = refl

abbrev confirmed_sink : Confirmed → Sink
confirmed_sink (confirmed s) = s
confirmed_sink _ = started

abbrev finished : Sink
finished = confirmed_sink (confirm outside executed stats ((9, written) ∷ []) (λ ids. []) all_done)

is_finished :
    confirm outside executed stats ((9, written) ∷ []) (λ ids. []) all_done ≡ confirmed finished
unfolding confirm confirm_jobs mark_done finish_marked finish_jobs finish_job put finish retire
    retired append_done count_completed execute run_head succeed take_batch publish_batch
    publish_reserved journal_then_publish publish_jobs push_jobs new_completion reserve total_bytes
    check_ids exceeds specs_of write_size new_sink new_admission contains insert text_eq permits_of
    append_pending append_bytes append_to at_lane set_lane dedupe_contains new_dedupe admit_all
    admit
is_finished = refl

none_left : (at_lane published.workers stats).batch ≡ []
unfolding publish_batch publish_reserved journal_then_publish publish_jobs push_jobs new_completion
    reserve total_bytes check_ids exceeds specs_of write_size new_sink new_admission contains insert
    text_eq permits_of append_pending append_bytes append_to at_lane set_lane
none_left = refl

none_committed : (at_lane published.workers stats).committed ≡ []
unfolding publish_batch publish_reserved journal_then_publish publish_jobs push_jobs new_completion
    reserve total_bytes check_ids exceeds specs_of write_size new_sink new_admission contains insert
    text_eq permits_of append_pending append_bytes append_to at_lane set_lane
none_committed = refl

abbrev new_jobs : Lane → List Job
new_jobs k = ((lane_jobs k batch (permits_of (specs_of batch)) 0 ++ []) ++ []) ++ []

abbrev done_jobs : Lane → List Job
done_jobs k = only_at stats (at_lane executed.workers stats).committed k

delivered : Run outside started finished done_jobs new_jobs
delivered =
    next
      (next
        (next (next start (accepts batch true written 2 0 is_published))
          (takes stats none_left none_committed refl))
        (executes stats true is_executed))
      (confirms stats ((9, written) ∷ []) (λ ids. []) all_done is_finished)

Run-fifo_example :
    line_up started stats ++ new_jobs stats ≡ done_jobs stats ++ line_up finished stats
Run-fifo_example = Run-fifo delivered stats

Run-Held_example : Held finished
Run-Held_example = Run-Held settings journal (omega arith) (omega arith) delivered

Run-no_panic_example :
    ((writes : List StoredWrite) (io : AppendIo) → enqueue outside finished writes io ≢ panicked)
    × ((l : Lane) (tries : List (ℕ × AppendIo)) (clock : List Text → List (Text × ℕ))
          (io : CompactIo)
        → confirm outside finished l tries clock io ≢ confirm_panicked)
Run-no_panic_example = Run-no_panic settings journal (omega arith) (omega arith) delivered

-- ===== src/Protocol/Session.antt =====
-- src/protocol.rs, `handle_client`: the session of one client over the lines that `read_frame`
-- gives it. What a line meets outside of the handler comes with the line.
use whaletracker.Prelude.{
  ℕ, suc, List, [], ◌∷◌, Bool, true, false, not, ◌&&◌, Option, none, some, ◌==◌, ltb, if◌then◌else◌,
  length, all, get_elem?, Text, text_eq, ℤ, wrapping_add,
}
use whaletracker.Ascii.{is_ascii_whitespace}
use whaletracker.Admission.Completion.{
  finish_all, Wake, Waited, wait, timed_out, confirmed, asleep, panicked, Completion,
}
use whaletracker.Journal.{StoredWrite}
use whaletracker.Journal.File.{AppendIo}
use whaletracker.Sink.{Sink, Outside}
use whaletracker.Sink.Publish.{
  Published, accepted, publish_failed, process_ended, PublishError, enqueue,
}
use whaletracker.Sink.Publish
use whaletracker.Protocol.Message.{InboundWrite, stored, bad_write, MessageError, materialize}

pub data Inbound : Type 0 where
  -- The protocol version and the token; the other fields are for the log.
  hello : Option ℕ → Option Text → Inbound
  sql_batch : Option ℤ → List InboundWrite → Inbound
  health : Inbound

pub data Complaint : Type 0 where
  frame_too_large invalid_json unauthorized unsupported_version hello_required too_many_writes :
      Complaint
  bad_message : MessageError → Complaint
  not_enqueued : PublishError → Complaint
  ack_timed_out : Complaint

-- `ack` has the accepted and the executed jobs, `health_is` the rows and the bytes in use; the
-- other fields of the two are counters and times.
pub data Reply : Type 0 where
  hello_ack : Reply
  ack : Option ℤ → ℕ → ℕ → Reply
  health_is : ℕ → ℕ → Reply
  complaint : Option ℤ → Complaint → Reply

pub record Handler : Type 0 where
  pub auth_token : Text
  pub max_inbound_writes : ℕ
  pub max_sql_bytes : ℕ

-- The parser of JSON, the event IDs and times for the writes of the batch, the journal's file, how
-- many jobs are finished before the handler waits, its deadline, and its wake-ups.
pub record Meets : Type 0 where
  pub parse : Text → Option Inbound
  pub made : ℕ → Text × ℕ
  pub append : AppendIo
  pub early : ℕ
  pub deadline : ℕ
  pub wakes : List Wake

-- A line is answered and the session goes on, or it is closed; or the list of wake-ups ended while
-- the handler sleeps; or the thread panics or the process ends.
pub data Handled : Type 0 where
  answers : Bool → Sink → Reply → Handled
  silent : Bool → Sink → Handled
  closes : Sink → Reply → Handled
  sleeps : Handled
  dies : Handled

pub data AllStored : Type 0 where
  all_stored : List StoredWrite → AllStored
  one_bad : MessageError → AllStored

abbrev cons_stored : StoredWrite → AllStored → AllStored
cons_stored w (all_stored ws) = all_stored (w ∷ ws)
cons_stored w (one_bad e) = one_bad e

unfoldable pub materialize_all : Option ℤ → ℕ → (ℕ → Text × ℕ) → ℕ → List InboundWrite → AllStored
unfolding materialize
materialize_all b max made k [] = all_stored []
materialize_all b max made k (w ∷ ws) = elim (materialize w b max (made k).0 (made k).1) [
  | bad_write e ↦ one_bad e
  | stored s ↦ cons_stored s (materialize_all b max made (suc k) ws)
]

abbrev pub count_rejected : Sink → ℕ → Sink
count_rejected s n = record s {
  counters = record (s.counters) { rejected = wrapping_add s.counters.rejected n };
}

abbrev pub count_parse_error : Sink → Sink
count_parse_error s = record s {
  counters = record (s.counters) { parse_errors = wrapping_add s.counters.parse_errors 1 };
}

abbrev pub after_wait : Sink → Option ℤ → ℕ → Waited → Handled
after_wait s b n timed_out = closes s (complaint b ack_timed_out)
after_wait s b n (confirmed executed) = answers true s (ack b n executed)
after_wait s b n asleep = sleeps
after_wait s b n panicked = dies

-- `accepted.completion.wait`, behind the jobs that other threads have finished by then.
unfoldable pub await_completion : Meets → Sink → Option ℤ → ℕ → Completion → Handled
unfolding finish_all wait
await_completion m s b n c = elim (finish_all m.early c) [
  | none ↦ dies
  | some d ↦ after_wait s b n (wait m.deadline d m.wakes)
]

-- The completion that `enqueue` has published, which is found by its index.
unfoldable pub await_jobs : Meets → Sink → Option ℤ → ℕ → ℕ → Handled
unfolding await_completion
await_jobs m s b n i = elim (get_elem? s.completions i) [
  | none ↦ dies
  | some c ↦ await_completion m s b n c
]

abbrev pub after_enqueue : Meets → Option ℤ → ℕ → Published → Handled
unfolding await_jobs
after_enqueue m b requested (accepted s n i) = await_jobs m s b n i
after_enqueue m b requested (publish_failed s e) =
    closes (count_rejected s requested) (complaint b (not_enqueued e))
after_enqueue m b requested Publish.panicked = dies
after_enqueue m b requested (process_ended s) = dies

unfoldable pub enqueue_all : Outside → Meets → Sink → Option ℤ → AllStored → Handled
unfolding enqueue after_enqueue
enqueue_all o m s b (one_bad e) = closes s (complaint b (bad_message e))
enqueue_all o m s b (all_stored ws) = after_enqueue m b (length ws) (enqueue o s ws m.append)

unfoldable pub handle_batch :
    Outside → Handler → Meets → Bool → Sink → Option ℤ → List InboundWrite → Handled
unfolding materialize_all enqueue_all
handle_batch o h m authenticated s b writes =
    if not authenticated
    then closes s (complaint b hello_required)
    else if ltb h.max_inbound_writes (length writes)
    then closes s (complaint b too_many_writes)
    else enqueue_all o m s b (materialize_all b h.max_sql_bytes m.made 0 writes)

unfoldable pub has_token : Handler → Option Text → Bool
has_token h none = false
has_token h (some t) = text_eq t h.auth_token

unfoldable pub bad_version : Option ℕ → Bool
bad_version none = false
bad_version (some v) = not (v == 1)

unfoldable pub handle_hello : Handler → Sink → Option ℕ → Option Text → Handled
unfolding has_token bad_version
handle_hello h s proto auth =
    if not (length h.auth_token == 0) && not (has_token h auth)
    then closes s (complaint none unauthorized)
    else if bad_version proto
    then closes s (complaint none unsupported_version)
    else answers true s hello_ack

unfoldable pub handle_health : Bool → Sink → Handled
handle_health authenticated s =
    if not authenticated
    then closes s (complaint none hello_required)
    else answers authenticated s
        (health_is s.admission.state.usage.rows s.admission.state.usage.bytes)

unfoldable pub handle_message : Outside → Handler → Meets → Bool → Sink → Inbound → Handled
unfolding handle_hello handle_batch handle_health
handle_message o h m authenticated s (hello proto auth) = handle_hello h s proto auth
handle_message o h m authenticated s (sql_batch b writes) =
    handle_batch o h m authenticated s b writes
handle_message o h m authenticated s health = handle_health authenticated s

-- `authenticated` at the start of a session.
unfoldable pub new_session : Handler → Bool
new_session h = length h.auth_token == 0

-- One round of the loop, on a line.
unfoldable pub handle_line : Outside → Handler → Meets → Bool → Sink → Text → Handled
unfolding handle_message
handle_line o h m authenticated s line =
    if all is_ascii_whitespace line then silent authenticated s else elim (m.parse line) [
      | none ↦ closes (count_parse_error s) (complaint none invalid_json)
      | some message ↦ handle_message o h m authenticated s message
    ]

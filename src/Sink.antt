-- ===== src/Sink.antt =====
-- src/sink.rs: the state of `SqlSink` and its three workers. An `Arc<Completion>` is an index into
-- the list of completions; the database and the operating system are arguments of each operation.
pub mod Publish
pub mod Work
pub mod Steps
pub mod Pushed
pub mod LineUp
pub mod Fifo
pub mod Held
pub mod Finish
pub mod Published
pub mod Enqueued
pub mod Kept
pub mod Reachable
pub mod Pending
pub mod Restart
use whaletracker.Prelude.{
  ℕ, zero, suc, ◌+◌, ◌*◌, List, [], ◌∷◌, Bool, true, false, Option, none, some, Text, length,
  wrapping_add, min, get_elem?, text_eq, not, if◌then◌else◌,
}
use whaletracker.Sql.Lane.{Lane, PerLane, at_lane, set_lane}
use whaletracker.Sql.Classify.{Classification}
use whaletracker.Sql.LogRate.{RateTest}
use whaletracker.Admission.{Admission, Permit, Refusal, new_admission}
use whaletracker.Admission.Completion.{Completion}
use whaletracker.Admission.Dedupe.{Dedupe, new_dedupe}
use whaletracker.Journal.{StoredWrite, Codec, Limits}
use whaletracker.Journal.File.{Journal, Opener}

-- `AtomicU64` counters: `fetch_add` wraps.
pub record Counters : Type 0 where
  pub accepted : ℕ
  pub executed : ℕ
  pub db_errors : ℕ
  pub parse_errors : ℕ
  pub rejected : ℕ
  pub journal_pending_startup : ℕ
  pub journal_replayed_startup : ℕ
  pub journal_done_startup : ℕ
  pub compactions : ℕ
  pub completed_since_check : ℕ

abbrev pub no_counts : Counters
no_counts = record {
  accepted = 0;
  executed = 0;
  db_errors = 0;
  parse_errors = 0;
  rejected = 0;
  journal_pending_startup = 0;
  journal_replayed_startup = 0;
  journal_done_startup = 0;
  compactions = 0;
  completed_since_check = 0;
}

pub record Job : Type 0 where
  pub write : StoredWrite
  pub classification : Classification
  pub permit : Permit
  pub completion : ℕ

-- The settings of `Config` that the sink reads.
pub record Settings : Type 0 where
  pub max_batch_rows : ℕ
  pub max_queue_rows : ℕ
  pub max_queue_bytes : ℕ
  pub dedupe_events : ℕ
  pub compact_bytes : ℕ

-- What an entry of the dead-letter file says of a write.
pub data Diagnostic : Type 0 where
  invalid_write db_retry_not_discarded : StoredWrite → Diagnostic

-- The locals of `worker_loop`: the batch that is left, the jobs whose SQL has succeeded and that
-- are not confirmed, the head that was reported last, and the delay.
pub record Worker : Type 0 where
  pub batch : List Job
  pub committed : List Job
  pub reported_head : Option Text
  pub delay : ℕ

abbrev pub base_delay : ℕ
base_delay = 250

abbrev pub max_delay : ℕ
max_delay = 10000

abbrev pub idle : Worker
idle = record { batch = []; committed = []; reported_head = none; delay = base_delay }

-- `(delay * 2).min(Duration::from_secs(10))`, in milliseconds.
unfoldable pub back_off : ℕ → ℕ
back_off delay = min (delay * 2) max_delay

pub record Sink : Type 0 where
  pub settings : Settings
  pub queues : PerLane (List Job)
  pub workers : PerLane Worker
  pub admission : Admission
  pub completions : List Completion
  pub counters : Counters
  pub dedupe : Dedupe
  pub journal : Journal
  pub dead_letters : List Diagnostic
  -- The flag that `PointsCache::mark_dirty` sets.
  pub cache_dirty : Bool

-- What the sink takes from outside the program.
pub record Outside : Type 0 where
  pub codec : Codec
  pub opener : Opener
  pub rate : RateTest

abbrev pub each {ℓ} : {A : Type ℓ} → A → PerLane A
each a = record { at_online = a; at_stats = a; at_logs = a }

unfoldable pub limits_of : Settings → Limits
limits_of s = record {
  dedupe_capacity = s.dedupe_events;
  max_rows = s.max_queue_rows;
  max_bytes = s.max_queue_bytes;
}

-- `SqlSink::new` on a journal that is open; its paths were found to differ.
unfoldable pub new_sink : Settings → Journal → Sink
unfolding new_admission new_dedupe
new_sink s j = record {
  settings = s;
  queues = each [];
  workers = each idle;
  admission = new_admission s.max_queue_rows s.max_queue_bytes;
  completions = [];
  counters = no_counts;
  dedupe = new_dedupe s.dedupe_events;
  journal = j;
  dead_letters = [];
  cache_dirty = true;
}

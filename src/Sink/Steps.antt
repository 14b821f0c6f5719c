-- ===== src/Sink/Steps.antt =====
-- src/sink.rs: the sink under its clients and its three workers, as steps in any order. Each step
-- carries the jobs that it finishes and those that it queues, by lane.
use whaletracker.Prelude.{ℕ, List, [], ◌∷◌, ◌++◌, Bool, some, ◌≡◌, if◌then◌else◌, Text}
use whaletracker.Sql.Lane.{Lane, at_lane, lane_eq}
use whaletracker.Admission.{Permit, permits_of}
use whaletracker.Journal.File.{AppendIo, CompactIo}
use whaletracker.Sink.{Sink, Job, Outside}
use whaletracker.Sink.Publish.{
  accepted, publish_failed, PublishError, Classed, publish_batch, specs_of,
}
use whaletracker.Sink.Work.{
  take_batch, no_connection, execute, keep_head, reset_delay, confirmed, waiting, confirm,
}

-- The jobs of a batch that go to one lane.
abbrev pub lane_jobs : Lane → List Classed → List Permit → ℕ → List Job
lane_jobs k ((w, c) ∷ rest) (p ∷ ps) i =
    if lane_eq c.lane k
    then record { write = w; classification = c; permit = p; completion = i }
      ∷ lane_jobs k rest ps i
    else lane_jobs k rest ps i
lane_jobs k _ _ i = []

abbrev pub no_jobs : Lane → List Job
no_jobs k = []

abbrev pub only_at : Lane → List Job → Lane → List Job
only_at l jobs k = if lane_eq l k then jobs else []

-- The jobs of a lane that are not finished, first the one that is due next.
abbrev pub line_up : Sink → Lane → List Job
line_up s l = (at_lane s.workers l).committed ++ ((at_lane s.workers l).batch ++ at_lane s.queues l)

-- A batch behind the filter is accepted, or refused; or a worker makes a step of its loop.
pub data Step (o : Outside) (s t : Sink) : (Lane → List Job) → (Lane → List Job) → Type 0 where
  accepts :
      (batch : List Classed) (append : Bool) (io : AppendIo) (n i : ℕ)
      → publish_batch o s batch append io ≡ accepted t n i
      → Step o s t no_jobs (λ k. lane_jobs k batch (permits_of (specs_of batch)) i)
  refuses :
      (batch : List Classed) (append : Bool) (io : AppendIo) (e : PublishError)
      → publish_batch o s batch append io ≡ publish_failed t e
      → Step o s t no_jobs no_jobs
  takes :
      (l : Lane)
      → (at_lane s.workers l).batch ≡ []
      → (at_lane s.workers l).committed ≡ []
      → take_batch s l ≡ t
      → Step o s t no_jobs no_jobs
  disconnected : (l : Lane) → no_connection s l ≡ t → Step o s t no_jobs no_jobs
  executes : (l : Lane) (answers : Bool) → execute s l answers ≡ some t → Step o s t no_jobs no_jobs
  confirms :
      (l : Lane) (tries : List (ℕ × AppendIo)) (clock : List Text → List (Text × ℕ))
      (io : CompactIo)
      → confirm o s l tries clock io ≡ confirmed t
      → Step o s t (only_at l (at_lane s.workers l).committed) no_jobs
  waits :
      (l : Lane) (tries : List (ℕ × AppendIo)) (clock : List Text → List (Text × ℕ))
      (io : CompactIo)
      → confirm o s l tries clock io ≡ waiting t
      → Step o s t no_jobs no_jobs
  keeps : (l : Lane) (head : Job) → keep_head s l head ≡ t → Step o s t no_jobs no_jobs
  resets : (l : Lane) → reset_delay s l ≡ t → Step o s t no_jobs no_jobs

-- A run, with all that it finished and all that it queued.
pub data Run (o : Outside) (s : Sink) : Sink → (Lane → List Job) → (Lane → List Job) → Type 0 where
  start : Run o s s no_jobs no_jobs
  next :
      {t u : Sink} {done new finished queued : Lane → List Job}
      → Run o s t done new
      → Step o t u finished queued
      → Run o s u (λ k. done k ++ finished k) (λ k. new k ++ queued k)

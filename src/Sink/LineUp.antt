-- ===== src/Sink/LineUp.antt =====
-- src/sink.rs: what each step of a worker does to the jobs of the lanes.
use whaletracker.Prelude.{
  ℕ, ◌≡◌, refl, List, [], ◌∷◌, ◌++◌, Bool, none, some, inl, inr, arith, if◌then◌else◌, length, min,
  take, drop, get_elem?, take-append-drop, append_assoc, Text, Option-cases,
}
use whaletracker.Sql.Lane.{Lane, at_lane, set_lane, at_lane-set_lane, lane_eq_iff}
use whaletracker.Admission.{retire}
use whaletracker.Journal.File.{CompactIo}
use whaletracker.Sink.{Sink, Job, Worker, Outside}
use whaletracker.Sink.Work.{
  take_batch, no_connection, execute, run_head, succeed, keep_head, is_reported, reset_delay,
  finish_job, finish_jobs, count_completed, confirmed, finish_marked,
}
use whaletracker.Admission.Completion.{finish}
use whaletracker.Sink.{back_off, base_delay}
use whaletracker.Sink.Steps.{only_at, line_up}
use whaletracker.Sink.Pushed.{SameJobs}

finish_job_same : (s t : Sink) (j : Job) → finish_job s j ≡ some t → SameJobs s t
unfolding finish_job
finish_job_same s t j e = elim (Option-cases (get_elem? s.completions j.completion)) [
  | inl n ↦ ground (arith, n)
  | inr (c, g) ↦ elim (Option-cases (finish c)) [
    | inl n ↦ ground (arith, g, n)
    | inr (d, f) ↦ elim (Option-cases (retire s.admission j.permit)) [
      | inl n ↦ ground (arith, g, f, n)
      | inr (a, r) ↦ ground (arith, g, f, r)
    ]
  ]
]

pub finish_jobs_same : (js : List Job) (s t : Sink) → finish_jobs s js ≡ some t → SameJobs s t
unfolding finish_jobs
finish_jobs_same [] s t e = ground arith
finish_jobs_same (j ∷ js) s t e = elim (Option-cases (finish_job s j)) [
  | inl n ↦ ground (arith, n)
  | inr (u, f) ↦ ground (arith, f, finish_job_same s u j f, finish_jobs_same js u t)
]

pub count_completed_same :
    (o : Outside) (s : Sink) (n : ℕ) (clock : List Text → List (Text × ℕ)) (io : CompactIo)
    → SameJobs s (count_completed o s n clock io)
unfolding count_completed
count_completed_same o s n clock io = ground arith

pub takes_line_up :
    (s : Sink) (l k : Lane)
    → (at_lane s.workers l).batch ≡ []
    → (at_lane s.workers l).committed ≡ []
    → line_up (take_batch s l) k ≡ line_up s k
unfolding take_batch
takes_line_up s l k b c =
    let queue = at_lane s.queues l in
    let n = min (length queue) s.settings.max_batch_rows in
    let w : Worker = record {
      batch = take n queue;
      committed = [];
      reported_head = none;
      delay = base_delay;
    } in
    ground (
      arith,
      at_lane-set_lane s.workers l k w,
      at_lane-set_lane s.queues l k (drop n queue),
      lane_eq_iff l k,
      take-append-drop n queue,
    )

-- A worker that holds the same jobs as before.
set_worker_same :
    (s : Sink) (l k : Lane) (w : Worker)
    → w.batch ≡ (at_lane s.workers l).batch
    → w.committed ≡ (at_lane s.workers l).committed
    → ((at_lane (set_lane s.workers l w) k).committed ≡ (at_lane s.workers k).committed)
      × ((at_lane (set_lane s.workers l w) k).batch ≡ (at_lane s.workers k).batch)
set_worker_same s l k w b c = ground (arith, at_lane-set_lane s.workers l k w, lane_eq_iff l k)

pub line_up-no_connection : (s : Sink) (l k : Lane) → line_up (no_connection s l) k ≡ line_up s k
unfolding no_connection
line_up-no_connection s l k =
    let w = at_lane s.workers l in
    ground (arith, set_worker_same s l k (record w { delay = back_off w.delay }) refl refl)

pub line_up-keep_head :
    (s : Sink) (l k : Lane) (j : Job) → line_up (keep_head s l j) k ≡ line_up s k
unfolding keep_head
line_up-keep_head s l k j =
    let w = at_lane s.workers l in
    let old = is_reported w.reported_head j.write.event_id in
    let r = if old then w.reported_head else some j.write.event_id in
    ground (
      arith,
      set_worker_same s l k (record w { reported_head = r; delay = back_off w.delay }) refl refl,
    )

pub line_up-reset_delay : (s : Sink) (l k : Lane) → line_up (reset_delay s l) k ≡ line_up s k
unfolding reset_delay
line_up-reset_delay s l k =
    let w = at_lane s.workers l in
    ground (arith, set_worker_same s l k (record w { delay = base_delay }) refl refl)

line_up-succeed :
    (s : Sink) (l k : Lane) (j : Job) (rest : List Job)
    → (at_lane s.workers l).batch ≡ j ∷ rest
    → line_up (succeed s l (at_lane s.workers l) j rest) k ≡ line_up s k
unfolding succeed
line_up-succeed s l k j rest b =
    let w = at_lane s.workers l in
    ground (
      arith,
      at_lane-set_lane s.workers l k (record w { batch = rest; committed = w.committed ++ j ∷ [] }),
      lane_eq_iff l k,
      append_assoc w.committed (j ∷ []) (rest ++ at_lane s.queues l),
    )

pub execute-line_up :
    (s t : Sink) (l k : Lane) (answers : Bool) (batch : List Job)
    → (at_lane s.workers l).batch ≡ batch
    → execute s l answers ≡ some t
    → line_up t k ≡ line_up s k
unfolding execute run_head
execute-line_up s t l k answers [] b e = ground arith
execute-line_up s t l k answers (j ∷ rest) b e = ground (arith, line_up-succeed s l k j rest b)

-- What a confirmation does to the jobs of the lanes.
pub finish_marked-line_up :
    (o : Outside) (s t : Sink) (l k : Lane) (jobs : List Job) (clock : List Text → List (Text × ℕ))
    (io : CompactIo)
    → (at_lane s.workers l).committed ≡ jobs
    → finish_marked o s l jobs clock io ≡ confirmed t
    → line_up s k ≡ only_at l jobs k ++ line_up t k
unfolding finish_marked
finish_marked-line_up o s t l k jobs clock io c e = elim (Option-cases (finish_jobs s jobs)) [
  | inl n ↦ ground (arith, n)
  | inr (u, f) ↦
      let v = count_completed o u (length jobs) clock io in
      let w = at_lane v.workers l in
      ground (
        arith,
        f,
        finish_jobs_same jobs s u f,
        count_completed_same o u (length jobs) clock io,
        at_lane-set_lane v.workers l k (record w { committed = [] }),
        lane_eq_iff l k,
      )
]

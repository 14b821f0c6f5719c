-- ===== src/Sink/Reachable.antt =====
-- src/sink.rs: every sink that is reached holds exactly what its unfinished jobs reserve, and
-- neither a publication nor a confirmation panics in it.
use whaletracker.Prelude.{
  true, ℕ, ◌<◌, ◌≡◌, ◌≢◌, inl, inr, refl, sym, List, [], ◌∷◌, ◌++◌, Bool, some, arith, Option-cases,
  if◌then◌else◌, Text, word_mod,
}
use whaletracker.Sql.Lane.{Lane, lane_eq, at_lane, lane_eq_iff}
use whaletracker.Admission.Reach.{new-Sound}
use whaletracker.Journal.File.{Journal, AppendIo, CompactIo}
use whaletracker.Sink.{Sink, Job, Outside, Settings, new_sink}
use whaletracker.Sink.Publish.{
  panicked, enqueue, publish_writes, classify_all, not_completed, zip_writes,
}
use whaletracker.Journal.{StoredWrite}
use whaletracker.Sink.Pending.{AllClasses-cases, length-classify_all}
use whaletracker.Sink.Work.{
  take_batch, no_connection, execute, run_head, succeed, keep_head, reset_delay, finish_jobs,
  waiting, confirm_panicked, confirm, confirm_jobs, finish_marked, mark_done, job_ids,
}
use whaletracker.Sink.Steps.{
  only_at, line_up, Step, accepts, refuses, takes, disconnected, executes, confirms, waits, keeps,
  resets, Run, start, next,
}
use whaletracker.Sink.Fifo.{Marked-cases}
use whaletracker.Sink.Held.{Held, join-same}
use whaletracker.Sink.Finish.{finish_jobs-HeldBy}
use whaletracker.Sink.Published.{publish_failed-GivesBack, publish_batch_no_panic}
use whaletracker.Sink.Kept.{front, Held-same, quiet, accepts-Held, confirms-Held}

waits-same :
    (o : Outside) (s t : Sink) (l : Lane) (tries : List (ℕ × AppendIo))
    (clock : List Text → List (Text × ℕ)) (io : CompactIo) (jobs : List Job)
    → confirm_jobs o s l jobs tries clock io ≡ waiting t
    → (t.admission ≡ s.admission) × (t.completions ≡ s.completions)
unfolding confirm_jobs finish_marked
waits-same o s t l tries clock io [] e = cc
waits-same o s t l tries clock io (j ∷ js) e =
    elim (Marked-cases (mark_done o.codec s.journal (job_ids (j ∷ js)) tries)) [
      | inl (m, d) ↦ elim (Option-cases (finish_jobs (record s { journal = m }) (j ∷ js))) [
        | inl n ↦ absurd (ground (arith, d, n))
        | inr (u, f) ↦ absurd (ground (arith, d, f))
      ]
      | inr (inl (m, d)) ↦ ground (arith, d)
      | inr (inr (m, d)) ↦ absurd (ground (arith, d))
    ]

executes-same :
    (s t : Sink) (l : Lane) (answers : Bool) (batch : List Job)
    → (at_lane s.workers l).batch ≡ batch
    → execute s l answers ≡ some t
    → (t.admission ≡ s.admission) × (t.completions ≡ s.completions)
unfolding execute run_head succeed
executes-same s t l answers [] b e = ground arith
executes-same s t l answers (j ∷ rest) b e = ground arith

Step-Held :
    {o : Outside} {s t : Sink} {finished queued : Lane → List Job}
    → Step o s t finished queued
    → Held s
    → Held t
unfolding take_batch no_connection keep_head reset_delay confirm
Step-Held {o} {s} {t} (accepts batch append io n i e) h = accepts-Held o s t batch append io n i e h
Step-Held {o} {s} {t} (refuses batch append io why e) h =
    let g = publish_failed-GivesBack o s t batch append io why h e in
    let same = join-same (line_up s) (line_up t) (quiet {o = o} (refuses batch append io why e)) in
    record { sound = rw (← same) g.sound_same; counted = rw (g.completions_same, ← same) h.counted }
Step-Held {o} {s} {t} (takes l b c e) h =
    Held-same s t (ground arith) (ground arith) (quiet {o = o} (takes l b c e)) h
Step-Held {o} {s} {t} (disconnected l e) h =
    Held-same s t (ground arith) (ground arith) (quiet {o = o} (disconnected l e)) h
Step-Held {o} {s} {t} (executes l answers e) h =
    let same = executes-same s t l answers (at_lane s.workers l).batch refl e in
    Held-same s t same.0 same.1 (quiet {o = o} (executes l answers e)) h
Step-Held {o} {s} {t} (confirms l tries clock io e) h =
    confirms-Held o s t l tries clock io (at_lane s.workers l).committed refl e h
Step-Held {o} {s} {t} (waits l tries clock io e) h =
    let same = waits-same o s t l tries clock io (at_lane s.workers l).committed e in
    Held-same s t same.0 same.1 (quiet {o = o} (waits l tries clock io e)) h
Step-Held {o} {s} {t} (keeps l head e) h =
    Held-same s t (ground arith) (ground arith) (quiet {o = o} (keeps l head e)) h
Step-Held {o} {s} {t} (resets l e) h =
    Held-same s t (ground arith) (ground arith) (quiet {o = o} (resets l e)) h

new_sink-Held :
    (c : Settings) (j : Journal)
    → c.max_queue_rows < word_mod
    → c.max_queue_bytes < word_mod
    → Held (new_sink c j)
unfolding new_sink at_lane
new_sink-Held c j r b = record {
  sound = new-Sound c.max_queue_rows c.max_queue_bytes r b;
  counted = λ i. refl;
}

-- With queue limits that fit in a word, in every sink that clients and workers reach from a new
-- one, in any interleaving, the admission counts exactly the unfinished jobs: their number, their
-- bytes, their lanes and their IDs, each once and within the limits; and each completion counts
-- down exactly the unfinished jobs of its batch.
pub Run-Held :
    {o : Outside} (c : Settings) (j : Journal) {s : Sink} {done new : Lane → List Job}
    → c.max_queue_rows < word_mod
    → c.max_queue_bytes < word_mod
    → Run o (new_sink c j) s done new
    → Held s
Run-Held c j r b start = new_sink-Held c j r b
Run-Held c j r b (next steps step) = Step-Held step (Run-Held c j r b steps)

-- The jobs of a lane behind those that are committed.
abbrev behind : Sink → Lane → Lane → List Job
behind s l k =
    (if lane_eq l k then [] else (at_lane s.workers k).committed)
    ++ ((at_lane s.workers k).batch ++ at_lane s.queues k)

committed_front :
    (s : Sink) (l k : Lane)
    → line_up s k ≡ only_at l (at_lane s.workers l).committed k ++ behind s l k
committed_front s l k = ground (arith, lane_eq_iff l k)

marked_no_panic :
    (o : Outside) (s : Sink) (l : Lane) (clock : List Text → List (Text × ℕ)) (io : CompactIo)
    → Held s
    → finish_marked o s l (at_lane s.workers l).committed clock io ≢ confirm_panicked
unfolding finish_marked
marked_no_panic o s l clock io h e =
    let f =
      front l (line_up s) (behind s l) (at_lane s.workers l).committed (committed_front s l) in
    let (u, done, held) =
      finish_jobs-HeldBy (at_lane s.workers l).committed s f.pre f.post (rw f.before at h) in
    ground (arith, done)

confirm_jobs_no_panic :
    (o : Outside) (s : Sink) (l : Lane) (tries : List (ℕ × AppendIo))
    (clock : List Text → List (Text × ℕ)) (io : CompactIo) (jobs : List Job)
    → (at_lane s.workers l).committed ≡ jobs
    → Held s
    → confirm_jobs o s l jobs tries clock io ≢ confirm_panicked
unfolding confirm_jobs
confirm_jobs_no_panic o s l tries clock io [] c h e = cc
confirm_jobs_no_panic o s l tries clock io (j ∷ js) c h e =
    elim (Marked-cases (mark_done o.codec s.journal (job_ids (j ∷ js)) tries)) [
      | inl (m, d) ↦
          marked_no_panic o (record s { journal = m }) l clock io h
            (rw (sym c) at (rw (d, confirm_jobs) at e))
      | inr (inl (m, d)) ↦ ground (arith, d)
      | inr (inr (m, d)) ↦ ground (arith, d)
    ]

enqueue_no_panic :
    (o : Outside) (s : Sink) (writes : List StoredWrite) (io : AppendIo)
    → Held s
    → enqueue o s writes io ≢ panicked
unfolding enqueue publish_writes
enqueue_no_panic o s writes io h e = elim (AllClasses-cases (classify_all o.rate writes)) [
  | inr (w, why, r) ↦ ground (arith, r)
  | inl (cs, r) ↦
      publish_batch_no_panic o s (not_completed s.dedupe (zip_writes writes cs)) true io h
        (ground (arith, r, length-classify_all o.rate writes cs r))
]

-- With queue limits that fit in a word, in every sink that clients and workers reach from a new
-- one, neither `enqueue` on any writes nor a confirmation of the committed jobs of any lane panics:
-- the classifications are as many as the writes, no permit is retired twice and no job is completed
-- twice.
pub Run-no_panic :
    {o : Outside} (c : Settings) (j : Journal) {s : Sink} {done new : Lane → List Job}
    → c.max_queue_rows < word_mod
    → c.max_queue_bytes < word_mod
    → Run o (new_sink c j) s done new
    → ((writes : List StoredWrite) (io : AppendIo) → enqueue o s writes io ≢ panicked)
      × ((l : Lane) (tries : List (ℕ × AppendIo)) (clock : List Text → List (Text × ℕ))
            (io : CompactIo)
          → confirm o s l tries clock io ≢ confirm_panicked)
unfolding confirm
Run-no_panic {o} c j {s} r b run =
    let h = Run-Held c j r b run in
    (
      λ writes io. enqueue_no_panic o s writes io h,
      λ l tries clock io.
          confirm_jobs_no_panic o s l tries clock io (at_lane s.workers l).committed refl h,
    )

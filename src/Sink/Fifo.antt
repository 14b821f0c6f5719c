-- ===== src/Sink/Fifo.antt =====
-- src/sink.rs: every lane is a queue; no job passes another, and none is lost.
use whaletracker.Prelude.{
  ℕ, ◌≡◌, refl, sym, ap, ◌∙◌, List, [], ◌∷◌, ◌++◌, inl, inr, ◌⊎◌, arith, append-nil, append_assoc,
  Text, Option-cases,
}
use whaletracker.Sql.Lane.{Lane, at_lane}
use whaletracker.Admission.{permits_of}
use whaletracker.Journal.File.{AppendIo, CompactIo}
use whaletracker.Sink.{Sink, Job, Outside}
use whaletracker.Sink.Publish.{specs_of}
use whaletracker.Sink.Work.{finish_jobs, confirmed, waiting, confirm, confirm_jobs, finish_marked}
use whaletracker.Sink.Steps.{
  lane_jobs, only_at, line_up, Step, accepts, refuses, takes, disconnected, executes, confirms,
  waits, keeps, resets, Run, start, next,
}
use whaletracker.Sink.Pushed.{
  push_jobs_lane, line_up_same, publish_batch-Pushed, publish_failed_same,
}
use whaletracker.Sink.LineUp.{
  takes_line_up, line_up-no_connection, line_up-keep_head, line_up-reset_delay, execute-line_up,
  finish_marked-line_up,
}
use whaletracker.Journal.File.{Journal}
use whaletracker.Sink.Work.{Marked, mark_done, marked, still_trying, ended, job_ids}

append_assoc_three {ℓ} :
    {A : Type ℓ} (xs ys zs ws : List A) → (xs ++ (ys ++ zs)) ++ ws ≡ xs ++ (ys ++ (zs ++ ws))
append_assoc_three xs ys zs ws = rw (append_assoc xs (ys ++ zs) ws, append_assoc ys zs ws) refl

pub Marked-cases :
    (m : Marked)
    → ((j : Journal) × (m ≡ marked j))
      ⊎ (((j : Journal) × (m ≡ still_trying j)) ⊎ ((j : Journal) × (m ≡ ended j)))
Marked-cases (marked j) = inl (j, refl)
Marked-cases (still_trying j) = inr (inl (j, refl))
Marked-cases (ended j) = inr (inr (j, refl))

confirm_line_up :
    (o : Outside) (s t : Sink) (l k : Lane) (tries : List (ℕ × AppendIo))
    (clock : List Text → List (Text × ℕ)) (io : CompactIo) (jobs : List Job)
    → (at_lane s.workers l).committed ≡ jobs
    → confirm_jobs o s l jobs tries clock io ≡ confirmed t
    → line_up s k ≡ only_at l jobs k ++ line_up t k
unfolding confirm_jobs
confirm_line_up o s t l k tries clock io [] c e = ground arith
confirm_line_up o s t l k tries clock io (j ∷ js) c e =
    elim (Marked-cases (mark_done o.codec s.journal (job_ids (j ∷ js)) tries)) [
      | inl (m, d) ↦
          finish_marked-line_up o (record s { journal = m }) t l k (j ∷ js) clock io c
            (rw (d, confirm_jobs) at e)
      | inr (inl (m, d)) ↦ ground (arith, d)
      | inr (inr (m, d)) ↦ ground (arith, d)
    ]

finish_marked_moves {ℓ} :
    {P : Type ℓ} (o : Outside) (s t : Sink) (l : Lane) (jobs : List Job)
    (clock : List Text → List (Text × ℕ)) (io : CompactIo)
    → finish_marked o s l jobs clock io ≡ waiting t
    → P
unfolding finish_marked
finish_marked_moves o s t l jobs clock io e = elim (Option-cases (finish_jobs s jobs)) [
  | inl n ↦ ground (arith, n)
  | inr (u, f) ↦ ground (arith, f)
]

waits_line_up :
    (o : Outside) (s t : Sink) (l k : Lane) (tries : List (ℕ × AppendIo))
    (clock : List Text → List (Text × ℕ)) (io : CompactIo) (jobs : List Job)
    → confirm_jobs o s l jobs tries clock io ≡ waiting t
    → line_up t k ≡ line_up s k
unfolding confirm_jobs finish_marked
waits_line_up o s t l k tries clock io [] e = ground arith
waits_line_up o s t l k tries clock io (j ∷ js) e =
    elim (Marked-cases (mark_done o.codec s.journal (job_ids (j ∷ js)) tries)) [
      | inl (m, d) ↦
          finish_marked_moves o (record s { journal = m }) t l (j ∷ js) clock io
            (rw (d, confirm_jobs) at e)
      | inr (inl (m, d)) ↦ ground (arith, d)
      | inr (inr (m, d)) ↦ ground (arith, d)
    ]

-- One step takes the finished jobs off the front of each lane and puts the new ones at its end.
pub Step-fifo :
    {o : Outside} {s t : Sink} {finished queued : Lane → List Job}
    → Step o s t finished queued
    → (k : Lane) → line_up s k ++ queued k ≡ finished k ++ line_up t k
unfolding confirm
Step-fifo {o} {s} {t} (accepts batch append io n i e) k =
    let permits = permits_of (specs_of batch) in
    let (q, w) = publish_batch-Pushed o s t batch append io n i e in
    rw (q, w, push_jobs_lane batch permits s.queues i k)
      (append_assoc_three (at_lane s.workers k).committed (at_lane s.workers k).batch
        (at_lane s.queues k) (lane_jobs k batch permits i))
Step-fifo {o} {s} {t} (refuses batch append io why e) k =
    append-nil (line_up s k)
    ∙ sym (line_up_same s t k (publish_failed_same o s t batch append io why e))
Step-fifo {o} {s} (takes l b c e) k =
    append-nil (line_up s k) ∙ sym (takes_line_up s l k b c) ∙ ap (λ u. line_up u k) e
Step-fifo {o} {s} (disconnected l e) k =
    append-nil (line_up s k) ∙ sym (line_up-no_connection s l k) ∙ ap (λ u. line_up u k) e
Step-fifo {o} {s} {t} (executes l answers e) k =
    append-nil (line_up s k)
    ∙ sym (execute-line_up s t l k answers (at_lane s.workers l).batch refl e)
Step-fifo {o} {s} {t} (confirms l tries clock io e) k =
    append-nil (line_up s k)
    ∙ confirm_line_up o s t l k tries clock io (at_lane s.workers l).committed refl e
Step-fifo {o} {s} {t} (waits l tries clock io e) k =
    append-nil (line_up s k)
    ∙ sym (waits_line_up o s t l k tries clock io (at_lane s.workers l).committed e)
Step-fifo {o} {s} (keeps l head e) k =
    append-nil (line_up s k) ∙ sym (line_up-keep_head s l k head) ∙ ap (λ u. line_up u k) e
Step-fifo {o} {s} (resets l e) k =
    append-nil (line_up s k) ∙ sym (line_up-reset_delay s l k) ∙ ap (λ u. line_up u k) e

-- Over any run of the clients and the workers, a lane is a queue: what it held at the start and
-- what was queued since, in order, is what it has finished, in order, and what it holds now.
pub Run-fifo :
    {o : Outside} {s t : Sink} {done new : Lane → List Job}
    → Run o s t done new
    → (k : Lane) → line_up s k ++ new k ≡ done k ++ line_up t k
Run-fifo {o} {s} start k = append-nil (line_up s k)
Run-fifo {o} {s} (next {t} {u} {done} {new} {finished} {queued} steps step) k =
    rw
      (
        sym (append_assoc (line_up s k) (new k) (queued k)),
        Run-fifo steps k,
        append_assoc (done k) (line_up t k) (queued k),
        Step-fifo step k,
      )
      (sym (append_assoc (done k) (finished k) (line_up u k)))

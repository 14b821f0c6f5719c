-- ===== src/Sink/Kept.antt =====
-- src/sink.rs: what a publication and a confirmation keep of the permits and the completions.
use whaletracker.Prelude.{
  ℕ, suc, ◌≡◌, inl, inr, refl, sym, ap, ◌∙◌, List, [], ◌∷◌, ◌++◌, Bool, arith, length, append-nil,
  append_assoc, Text,
}
use whaletracker.Sql.Lane.{Lane, online, stats, logs, lane_eq, at_lane}
use whaletracker.Admission.{permits_of}
use whaletracker.Admission.Capacity.{reserve-Sound, length-permits_of}
use whaletracker.Admission.Completion.{new_completion}
use whaletracker.Journal.File.{AppendIo, CompactIo}
use whaletracker.Sink.{Sink, Job, Outside}
use whaletracker.Sink.Publish.{accepted, Classed, specs_of, publish_batch}
use whaletracker.Sink.Work.{
  count_completed, confirmed, confirm_jobs, finish_marked, mark_done, job_ids,
}
use whaletracker.Sink.Steps.{no_jobs, only_at, line_up, Step, accepts}
use whaletracker.Sink.Fifo.{Step-fifo, Marked-cases}
use whaletracker.Sink.LineUp.{finish_marked-line_up}
use whaletracker.Sink.Held.{join, job_permits, Held, HeldBy-spread, join-same, spread}
use whaletracker.Sink.Finish.{finish_jobs-HeldBy}
use whaletracker.Sink.Published.{publish_batch-Admitted}

-- Jobs in front of one lane, among those of all lanes.
pub record Front (f g : Lane → List Job) (js : List Job) : Type 0 where
  pub pre : List Job
  pub post : List Job
  pub before : join f ≡ pre ++ (js ++ post)
  pub after : join g ≡ pre ++ post

pub front :
    (l : Lane) (f g : Lane → List Job) (js : List Job)
    → ((k : Lane) → f k ≡ only_at l js k ++ g k)
    → Front f g js
unfolding lane_eq
front online f g js h = record {
  pre = [];
  post = join g;
  before = rw (h online, h stats, h logs) (append_assoc js (g online) (g stats ++ g logs));
  after = refl;
}
front stats f g js h = record {
  pre = g online;
  post = g stats ++ g logs;
  before = rw (h online, h stats, h logs, append_assoc js (g stats) (g logs)) refl;
  after = refl;
}
front logs f g js h = record {
  pre = g online ++ g stats;
  post = g logs;
  before = rw (h online, h stats, h logs) (sym (append_assoc (g online) (g stats) (js ++ g logs)));
  after = sym (append_assoc (g online) (g stats) (g logs));
}

pub Held-same :
    (s t : Sink)
    → t.admission ≡ s.admission
    → t.completions ≡ s.completions
    → ((k : Lane) → line_up s k ≡ line_up t k)
    → Held s
    → Held t
Held-same s t a c k h = rw (a, c, ← join-same (line_up s) (line_up t) k) h

-- A step that neither finishes nor queues a job.
pub quiet :
    {o : Outside} {s t : Sink} → Step o s t no_jobs no_jobs → (k : Lane) → line_up s k ≡ line_up t k
quiet {o} {s} step k = sym (append-nil (line_up s k)) ∙ Step-fifo step k

length-specs_of : (batch : List Classed) → length (specs_of batch) ≡ length batch
unfolding specs_of
length-specs_of [] = refl
length-specs_of ((w, c) ∷ rest) = ap suc (length-specs_of rest)

pub accepts-Held :
    (o : Outside) (s t : Sink) (batch : List Classed) (append : Bool) (io : AppendIo) (n i : ℕ)
    → publish_batch o s batch append io ≡ accepted t n i
    → Held s
    → Held t
unfolding new_completion
accepts-Held o s t batch append io n i e h =
    let g = publish_batch-Admitted o s t batch append io n i e in
    let ps = permits_of (specs_of batch) in
    let all =
      HeldBy-spread t.admission s.completions (new_completion (length batch)) (line_up s) batch ps
        (sym (length-specs_of batch) ∙ sym (length-permits_of (specs_of batch))) refl
        (reserve-Sound s.admission t.admission (job_permits (join (line_up s))) ps (specs_of batch)
          h.sound g.reserved)
        h.counted in
    let moved : (k : Lane) → spread (line_up s) batch ps (length s.completions) k ≡ line_up t k =
      λ k. rw (← g.index_is) (Step-fifo (accepts batch append io n i e) k) in
    rw (g.completions_more, ← join-same _ (line_up t) moved) all

marked-Held :
    (o : Outside) (s t : Sink) (l : Lane) (jobs : List Job) (clock : List Text → List (Text × ℕ))
    (io : CompactIo)
    → (at_lane s.workers l).committed ≡ jobs
    → finish_marked o s l jobs clock io ≡ confirmed t
    → Held s
    → Held t
unfolding finish_marked count_completed
marked-Held o s t l jobs clock io c e h =
    let f =
      front l (line_up s) (line_up t) jobs
        (λ k. finish_marked-line_up o s t l k jobs clock io c e) in
    let (u, done, held) = finish_jobs-HeldBy jobs s f.pre f.post (rw f.before at h) in
    let same : (t.admission ≡ u.admission) × (t.completions ≡ u.completions) =
      ground (arith, done) in
    rw (same.0, same.1, f.after) held

pub confirms-Held :
    (o : Outside) (s t : Sink) (l : Lane) (tries : List (ℕ × AppendIo))
    (clock : List Text → List (Text × ℕ)) (io : CompactIo) (jobs : List Job)
    → (at_lane s.workers l).committed ≡ jobs
    → confirm_jobs o s l jobs tries clock io ≡ confirmed t
    → Held s
    → Held t
unfolding confirm_jobs
confirms-Held o s t l tries clock io [] c e h = let same : t ≡ s = ground arith in rw same h
confirms-Held o s t l tries clock io (j ∷ js) c e h =
    elim (Marked-cases (mark_done o.codec s.journal (job_ids (j ∷ js)) tries)) [
      | inl (m, d) ↦
          marked-Held o (record s { journal = m }) t l (j ∷ js) clock io c
            (rw (d, confirm_jobs) at e) h
      | inr (inl (m, d)) ↦ absurd (ground (arith, d))
      | inr (inr (m, d)) ↦ absurd (ground (arith, d))
    ]

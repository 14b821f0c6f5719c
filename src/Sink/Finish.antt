-- ===== src/Sink/Finish.antt =====
-- src/sink.rs, the loop of `confirm_committed` over the jobs: no step of it panics.
use whaletracker.Prelude.{
  ℕ, zero, suc, ◌+◌, ◌-◌, ◌<◌, ◌≡◌, refl, List, [], ◌∷◌, ◌++◌, some, arith, ◌==◌, if◌then◌else◌,
  get_elem?,
}
use whaletracker.Admission.Capacity.{retire-Sound}
use whaletracker.Admission.Completion.{Completion, finish}
use whaletracker.Admission.Dedupe.{remember}
use whaletracker.Sink.{Sink, Job}
use whaletracker.Sink.Held.{
  job_permits, remaining_at, HeldBy, job_permits-append, waiting_for-append,
}
use whaletracker.Sink.Work.{put, finish_job, finish_jobs}

remaining_at-get :
    (cs : List Completion) (i : ℕ)
    → 0 < remaining_at cs i
    → (c : Completion) × (get_elem? cs i ≡ some c) × (c.remaining ≡ remaining_at cs i)
remaining_at-get [] i h = absurd (omega arith)
remaining_at-get (c ∷ cs) zero h = (c, refl, refl)
remaining_at-get (c ∷ cs) (suc i) h = remaining_at-get cs i h

remaining_at-put :
    (cs : List Completion) (i k : ℕ) (c d : Completion)
    → get_elem? cs i ≡ some c
    → remaining_at (put cs i d) k ≡ (if i == k then d.remaining else remaining_at cs k)
unfolding put
remaining_at-put [] i k c d e = cc
remaining_at-put (x ∷ cs) zero zero c d e = ground arith
remaining_at-put (x ∷ cs) zero (suc k) c d e = ground arith
remaining_at-put (x ∷ cs) (suc i) zero c d e = ground arith
remaining_at-put (x ∷ cs) (suc i) (suc k) c d e = ground (arith, remaining_at-put cs i k c d e)

finished_one :
    (c : Completion)
    → 0 < c.remaining
    → (d : Completion) × (finish c ≡ some d) × (c.remaining ≡ suc d.remaining)
unfolding finish
finished_one c h =
    (record { remaining = c.remaining - 1; executed = c.executed + 1 }, ground arith, ground arith)

-- One job of those that are held is finished, wherever it stands.
finish_job-HeldBy :
    (s : Sink) (pre : List Job) (j : Job) (post : List Job)
    → HeldBy s.admission s.completions (pre ++ j ∷ post)
    → (t : Sink) × (finish_job s j ≡ some t) × HeldBy t.admission t.completions (pre ++ post)
unfolding finish_job
finish_job-HeldBy s pre j post h =
    let w = waiting_for-append j.completion pre (j ∷ post) in
    let (c, got, size) =
      remaining_at-get s.completions j.completion (ground (arith, h.counted j.completion, w)) in
    let (d, fin, one) = finished_one c (ground (arith, size, h.counted j.completion, w)) in
    let (a, gone, sound) =
      retire-Sound s.admission (job_permits pre) j.permit (job_permits post)
        (rw (job_permits-append pre (j ∷ post)) at h.sound) in
    (
      record s {
        dedupe = remember s.dedupe j.write.event_id;
        completions = put s.completions j.completion d;
        admission = a;
      },
      ground (arith, got, fin, gone),
      record {
        sound = rw (job_permits-append pre post) sound;
        counted = λ i. ground (
          arith,
          remaining_at-put s.completions j.completion i c d got,
          h.counted i,
          waiting_for-append i pre (j ∷ post),
          waiting_for-append i pre post,
          size,
          one,
        );
      },
    )

pub finish_jobs-HeldBy :
    (js : List Job) (s : Sink) (pre post : List Job)
    → HeldBy s.admission s.completions (pre ++ (js ++ post))
    → (t : Sink) × (finish_jobs s js ≡ some t) × HeldBy t.admission t.completions (pre ++ post)
unfolding finish_jobs
finish_jobs-HeldBy [] s pre post h = (s, refl, h)
finish_jobs-HeldBy (j ∷ js) s pre post h =
    let (t, one, h') = finish_job-HeldBy s pre j (js ++ post) h in
    let (u, more, h'') = finish_jobs-HeldBy js t pre post h' in (u, rw (one, finish_jobs) more, h'')

-- ===== src/Sink/Pushed.antt =====
-- src/sink.rs: what a publication does to the queues of the lanes, accepted or refused.
use whaletracker.Prelude.{
  ℕ, ◌≡◌, refl, sym, List, [], ◌∷◌, ◌++◌, Bool, true, false, inl, inr, arith, append-nil,
  append_assoc, Option-cases,
}
use whaletracker.Sql.Lane.{Lane, PerLane, at_lane, set_lane, at_lane-set_lane, lane_eq_iff}
use whaletracker.Admission.{Permit, permits_of, reserve, Reserved-cases, retire_all}
use whaletracker.Admission.Capacity.{reserve_permits}
use whaletracker.Journal.File.{AppendIo, Appended, appended, append_failed, aborted, append_pending}
use whaletracker.Sink.{Sink, Job, Outside}
use whaletracker.Sink.Publish.{
  PublishError, writes_in, accepted, publish_failed, Classed, specs_of, push_jobs, publish_jobs,
  journal_then_publish, publish_batch, publish_reserved,
}
use whaletracker.Sink.Steps.{lane_jobs, line_up}

pub push_jobs_lane :
    (batch : List Classed) (permits : List Permit) (queues : PerLane (List Job)) (i : ℕ) (k : Lane)
    → at_lane (push_jobs queues batch permits i) k ≡ at_lane queues k ++ lane_jobs k batch permits i
unfolding push_jobs
push_jobs_lane [] permits queues i k = sym (append-nil (at_lane queues k))
push_jobs_lane ((w, c) ∷ rest) [] queues i k = sym (append-nil (at_lane queues k))
push_jobs_lane ((w, c) ∷ rest) (p ∷ ps) queues i k =
    let j : Job = record { write = w; classification = c; permit = p; completion = i } in
    let pushed = at_lane queues c.lane ++ j ∷ [] in
    ground (
      arith,
      push_jobs_lane rest ps (set_lane queues c.lane pushed) i k,
      at_lane-set_lane queues c.lane k pushed,
      append_assoc (at_lane queues k) (j ∷ []) (lane_jobs k rest ps i),
      append_assoc (at_lane queues c.lane) (j ∷ []) (lane_jobs k rest ps i),
      lane_eq_iff c.lane k,
    )

-- The part of the sink that holds jobs.
abbrev pub SameJobs : Sink → Sink → Type 0
SameJobs s t = (t.queues ≡ s.queues) × (t.workers ≡ s.workers)

pub line_up_same : (s t : Sink) (k : Lane) → SameJobs s t → line_up t k ≡ line_up s k
line_up_same s t k (q, w) = rw (q, w) refl

-- What an accepted batch does to the queues and the workers.
abbrev pub Pushed : Sink → List Classed → List Permit → Sink → ℕ → Type 0
Pushed s batch permits t i =
    (t.queues ≡ push_jobs s.queues batch permits i) × (t.workers ≡ s.workers)

publish_jobs-Pushed :
    (s t : Sink) (batch : List Classed) (permits : List Permit) (n i : ℕ)
    → publish_jobs s batch permits ≡ accepted t n i
    → Pushed s batch permits t i
unfolding publish_jobs
publish_jobs-Pushed s t batch permits n i e = ground arith

journal-Pushed :
    (o : Outside) (s t : Sink) (batch : List Classed) (permits : List Permit) (a : Appended)
    (n i : ℕ)
    → journal_then_publish o s batch permits a ≡ accepted t n i
    → Pushed s batch permits t i
unfolding journal_then_publish publish_jobs
journal-Pushed o s t batch permits a n i e = ground arith

reserved-Pushed :
    (append : Bool) (o : Outside) (s t : Sink) (batch : List Classed) (permits : List Permit)
    (io : AppendIo) (n i : ℕ)
    → publish_reserved o s batch permits append io ≡ accepted t n i
    → Pushed s batch permits t i
unfolding publish_reserved
reserved-Pushed true o s t batch permits io n i e =
    journal-Pushed o s t batch permits (append_pending o.codec s.journal (writes_in batch) io) n i e
reserved-Pushed false o s t batch permits io n i e = publish_jobs-Pushed s t batch permits n i e

pub publish_batch-Pushed :
    (o : Outside) (s t : Sink) (batch : List Classed) (append : Bool) (io : AppendIo) (n i : ℕ)
    → publish_batch o s batch append io ≡ accepted t n i
    → Pushed s batch (permits_of (specs_of batch)) t i
unfolding publish_batch
publish_batch-Pushed o s t batch append io n i e =
    elim (Reserved-cases (reserve s.admission (specs_of batch))) [
      | inr (why, r) ↦ ground (arith, r)
      | inl (a, ps, r) ↦ rw (sym (reserve_permits s.admission a ps (specs_of batch) r)) (
          reserved-Pushed append o (record s { admission = a }) t batch ps io n i
            (rw (r, publish_batch) at e))
    ]

journal_failed_same :
    (o : Outside) (s t : Sink) (batch : List Classed) (permits : List Permit) (a : Appended)
    (why : PublishError)
    → journal_then_publish o s batch permits a ≡ publish_failed t why
    → SameJobs s t
unfolding journal_then_publish publish_jobs
journal_failed_same o s t batch permits (appended j) why e = ground arith
journal_failed_same o s t batch permits (append_failed j) why e =
    elim (Option-cases (retire_all s.admission permits)) [
      | inl n ↦ ground (arith, n)
      | inr (a, r) ↦ ground (arith, r)
    ]
journal_failed_same o s t batch permits (aborted j) why e = ground arith

reserved_failed_same :
    (append : Bool) (o : Outside) (s t : Sink) (batch : List Classed) (permits : List Permit)
    (io : AppendIo) (why : PublishError)
    → publish_reserved o s batch permits append io ≡ publish_failed t why
    → SameJobs s t
unfolding publish_reserved publish_jobs
reserved_failed_same true o s t batch permits io why e =
    journal_failed_same o s t batch permits (append_pending o.codec s.journal (writes_in batch) io)
      why e
reserved_failed_same false o s t batch permits io why e = ground arith

pub publish_failed_same :
    (o : Outside) (s t : Sink) (batch : List Classed) (append : Bool) (io : AppendIo)
    (why : PublishError)
    → publish_batch o s batch append io ≡ publish_failed t why
    → SameJobs s t
unfolding publish_batch
publish_failed_same o s t batch append io why e =
    elim (Reserved-cases (reserve s.admission (specs_of batch))) [
      | inr (refusal, r) ↦ ground (arith, r)
      | inl (a, ps, r) ↦
          reserved_failed_same append o (record s { admission = a }) t batch ps io why
            (rw (r, publish_batch) at e)
    ]

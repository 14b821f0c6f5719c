-- ===== src/Sink/Published.antt =====
-- src/sink.rs, `publish_writes` on the permits and the completions.
use whaletracker.Prelude.{
  ℕ, ◌≡◌, ◌≢◌, inl, inr, refl, List, [], ◌∷◌, ◌++◌, Bool, true, false, arith, length, Option-cases,
}
use whaletracker.Admission.{Permit, granted, Reserved-cases, reserve, retire_all, permits_of}
use whaletracker.Admission.Capacity.{Sound, reserve-Sound, reserve_permits}
use whaletracker.Admission.Reach.{retire_all-Sound}
use whaletracker.Admission.Completion.{new_completion}
use whaletracker.Journal.File.{AppendIo, Appended, appended, append_failed, aborted, append_pending}
use whaletracker.Sink.{Sink, Outside}
use whaletracker.Sink.Publish.{
  accepted, publish_failed, panicked, PublishError, Classed, writes_in, specs_of, publish_jobs,
  journal_then_publish, publish_reserved, publish_batch,
}
use whaletracker.Sink.Steps.{line_up}
use whaletracker.Sink.Held.{join, job_permits, Held}

-- What an accepted batch leaves of the reservation and the completions.
record Granted (s : Sink) (batch : List Classed) (t : Sink) (n i : ℕ) : Type 0 where
  admission_same : t.admission ≡ s.admission
  completions_more : t.completions ≡ s.completions ++ new_completion (length batch) ∷ []
  index_is : i ≡ length s.completions
  count_is : n ≡ length batch

publish_jobs-Granted :
    (s t : Sink) (batch : List Classed) (ps : List Permit) (n i : ℕ)
    → publish_jobs s batch ps ≡ accepted t n i
    → Granted s batch t n i
unfolding publish_jobs
publish_jobs-Granted s t batch ps n i e = record {
  admission_same = ground arith;
  completions_more = ground arith;
  index_is = ground arith;
  count_is = ground arith;
}

journal-Granted :
    (o : Outside) (s t : Sink) (batch : List Classed) (ps : List Permit) (x : Appended) (n i : ℕ)
    → journal_then_publish o s batch ps x ≡ accepted t n i
    → Granted s batch t n i
unfolding journal_then_publish
journal-Granted o s t batch ps (appended j) n i e =
    let g = publish_jobs-Granted (record s { journal = j }) t batch ps n i e in
    record {
      admission_same = g.admission_same;
      completions_more = g.completions_more;
      index_is = g.index_is;
      count_is = g.count_is;
    }
journal-Granted o s t batch ps (append_failed j) n i e =
    elim (Option-cases (retire_all s.admission ps)) [
      | inl gone ↦ absurd (ground (arith, gone))
      | inr (a, r) ↦ absurd (ground (arith, r))
    ]
journal-Granted o s t batch ps (aborted j) n i e = cc

reserved-Granted :
    (append : Bool) (o : Outside) (s t : Sink) (batch : List Classed) (ps : List Permit)
    (io : AppendIo) (n i : ℕ)
    → publish_reserved o s batch ps append io ≡ accepted t n i
    → Granted s batch t n i
unfolding publish_reserved
reserved-Granted true o s t batch ps io n i e =
    journal-Granted o s t batch ps (append_pending o.codec s.journal (writes_in batch) io) n i e
reserved-Granted false o s t batch ps io n i e = publish_jobs-Granted s t batch ps n i e

-- An accepted batch has its permits.
pub record Admitted (s : Sink) (batch : List Classed) (t : Sink) (n i : ℕ) : Type 0 where
  pub reserved :
      reserve s.admission (specs_of batch) ≡ granted t.admission (permits_of (specs_of batch))
  pub completions_more : t.completions ≡ s.completions ++ new_completion (length batch) ∷ []
  pub index_is : i ≡ length s.completions
  pub count_is : n ≡ length batch

pub publish_batch-Admitted :
    (o : Outside) (s t : Sink) (batch : List Classed) (append : Bool) (io : AppendIo) (n i : ℕ)
    → publish_batch o s batch append io ≡ accepted t n i
    → Admitted s batch t n i
unfolding publish_batch
publish_batch-Admitted o s t batch append io n i e =
    elim (Reserved-cases (reserve s.admission (specs_of batch))) [
      | inr (why, r) ↦ absurd (ground (arith, r))
      | inl (a, ps, r) ↦
          let g =
            reserved-Granted append o (record s { admission = a }) t batch ps io n i
              (rw (r, publish_batch) at e) in
          let same = reserve_permits s.admission a ps (specs_of batch) r in
          record {
            reserved = ground (arith, r, same, g.admission_same);
            completions_more = g.completions_more;
            index_is = g.index_is;
            count_is = g.count_is;
          }
    ]

-- A refusal gives back what it has reserved.
pub record GivesBack (s t : Sink) : Type 0 where
  pub completions_same : t.completions ≡ s.completions
  pub sound_same : Sound t.admission (job_permits (join (line_up s)))

journal-GivesBack :
    (o : Outside) (s r t : Sink) (batch : List Classed) (ps : List Permit) (x : Appended)
    (why : PublishError)
    → Sound r.admission (ps ++ job_permits (join (line_up s)))
    → r.completions ≡ s.completions
    → journal_then_publish o r batch ps x ≡ publish_failed t why
    → GivesBack s t
unfolding journal_then_publish publish_jobs
journal-GivesBack o s r t batch ps (appended j) why v c e = cc
journal-GivesBack o s r t batch ps (append_failed j) why v c e =
    let (b, done, sound) = retire_all-Sound ps (job_permits (join (line_up s))) r.admission v in
    let same : t ≡ record r { journal = j; admission = b } = ground (arith, done) in
    rw same (record { completions_same = c; sound_same = sound })
journal-GivesBack o s r t batch ps (aborted j) why v c e = cc

reserved-GivesBack :
    (append : Bool) (o : Outside) (s r t : Sink) (batch : List Classed) (ps : List Permit)
    (io : AppendIo) (why : PublishError)
    → Sound r.admission (ps ++ job_permits (join (line_up s)))
    → r.completions ≡ s.completions
    → publish_reserved o r batch ps append io ≡ publish_failed t why
    → GivesBack s t
unfolding publish_reserved publish_jobs
reserved-GivesBack true o s r t batch ps io why v c e =
    journal-GivesBack o s r t batch ps (append_pending o.codec r.journal (writes_in batch) io) why v
      c e
reserved-GivesBack false o s r t batch ps io why v c e = cc

pub publish_failed-GivesBack :
    (o : Outside) (s t : Sink) (batch : List Classed) (append : Bool) (io : AppendIo)
    (why : PublishError)
    → Held s
    → publish_batch o s batch append io ≡ publish_failed t why
    → GivesBack s t
unfolding publish_batch
publish_failed-GivesBack o s t batch append io why h e =
    elim (Reserved-cases (reserve s.admission (specs_of batch))) [
      | inr (no_room, r) ↦
          let same : t ≡ s = ground (arith, r) in
          rw same (record { completions_same = refl; sound_same = h.sound })
      | inl (a, ps, r) ↦
          reserved-GivesBack append o s (record s { admission = a }) t batch ps io why
            (reserve-Sound s.admission a (job_permits (join (line_up s))) ps (specs_of batch)
              h.sound r)
            refl (rw (r, publish_batch) at e)
    ]

-- A publication does not panic.
journal_no_panic :
    (o : Outside) (r : Sink) (batch : List Classed) (ps held : List Permit) (x : Appended)
    → Sound r.admission (ps ++ held)
    → journal_then_publish o r batch ps x ≢ panicked
unfolding journal_then_publish publish_jobs
journal_no_panic o r batch ps held (appended j) v e = cc
journal_no_panic o r batch ps held (append_failed j) v e =
    let (b, done, sound) = retire_all-Sound ps held r.admission v in ground (arith, done)
journal_no_panic o r batch ps held (aborted j) v e = cc

reserved_no_panic :
    (append : Bool) (o : Outside) (r : Sink) (batch : List Classed) (ps held : List Permit)
    (io : AppendIo)
    → Sound r.admission (ps ++ held)
    → publish_reserved o r batch ps append io ≢ panicked
unfolding publish_reserved publish_jobs
reserved_no_panic true o r batch ps held io v e =
    journal_no_panic o r batch ps held (append_pending o.codec r.journal (writes_in batch) io) v e
reserved_no_panic false o r batch ps held io v e = cc

pub publish_batch_no_panic :
    (o : Outside) (s : Sink) (batch : List Classed) (append : Bool) (io : AppendIo)
    → Held s
    → publish_batch o s batch append io ≢ panicked
unfolding publish_batch
publish_batch_no_panic o s batch append io h e =
    elim (Reserved-cases (reserve s.admission (specs_of batch))) [
      | inr (why, r) ↦ ground (arith, r)
      | inl (a, ps, r) ↦
          reserved_no_panic append o (record s { admission = a }) batch ps
            (job_permits (join (line_up s))) io
            (reserve-Sound s.admission a (job_permits (join (line_up s))) ps (specs_of batch)
              h.sound r)
            (rw (r, publish_batch) at e)
    ]

-- ===== src/Sink/Enqueued.antt =====
-- src/sink.rs, `enqueue`: the jobs and the completion of an accepted batch.
use whaletracker.Prelude.{
  ℕ, ◌≡◌, inl, inr, refl, ap, ◌∙◌, List, [], ◌∷◌, ◌++◌, Bool, true, some, length, get_elem?,
  Bool-cases, ◌==◌,
}
use whaletracker.Sql.Lane.{Lane, at_lane}
use whaletracker.Sql.Classify.{Classification}
use whaletracker.Admission.{permits_of}
use whaletracker.Admission.Completion.{new_completion}
use whaletracker.Journal.{StoredWrite}
use whaletracker.Journal.File.{AppendIo}
use whaletracker.Sink.{Sink, Outside}
use whaletracker.Sink.Publish.{
  accepted, classify_all, Classed, zip_writes, not_completed, specs_of, publish_batch,
  publish_writes, enqueue,
}
use whaletracker.Sink.Steps.{lane_jobs}
use whaletracker.Sink.Pushed.{push_jobs_lane, publish_batch-Pushed}
use whaletracker.Sink.Pending.{AllClasses-cases}
use whaletracker.Sink.Published.{publish_batch-Admitted}

-- The `n` jobs of `batch` are at the ends of their lanes, and they count on the new completion.
pub record Enqueued (s t : Sink) (batch : List Classed) (n i : ℕ) : Type 0 where
  pub counted : n ≡ length batch
  pub index_is : i ≡ length s.completions
  pub completions_more : t.completions ≡ s.completions ++ new_completion n ∷ []
  pub queued :
      (k : Lane)
      → at_lane t.queues k ≡ at_lane s.queues k ++ lane_jobs k batch (permits_of (specs_of batch)) i

get_elem?-last {ℓ} :
    {A : Type ℓ} (xs : List A) (x : A) → get_elem? (xs ++ x ∷ []) (length xs) ≡ some x
get_elem?-last [] x = refl
get_elem?-last (y ∷ xs) x = get_elem?-last xs x

-- The completion that the client waits on is the one of its jobs.
pub Enqueued-found :
    (s t : Sink) (batch : List Classed) (n i : ℕ)
    → Enqueued s t batch n i
    → get_elem? t.completions i ≡ some (new_completion n)
Enqueued-found s t batch n i q =
    rw (q.completions_more, q.index_is) (get_elem?-last s.completions (new_completion n))

publish_batch-Enqueued :
    (o : Outside) (s t : Sink) (batch : List Classed) (append : Bool) (io : AppendIo) (n i : ℕ)
    → publish_batch o s batch append io ≡ accepted t n i
    → Enqueued s t batch n i
publish_batch-Enqueued o s t batch append io n i e =
    let g = publish_batch-Admitted o s t batch append io n i e in
    let p = publish_batch-Pushed o s t batch append io n i e in
    record {
      counted = g.count_is;
      index_is = g.index_is;
      completions_more = rw (g.count_is) (g.completions_more);
      queued = λ k.
          ap (λ qs. at_lane qs k) p.0
          ∙ push_jobs_lane batch (permits_of (specs_of batch)) s.queues i k;
    }

publish_writes-Enqueued :
    (o : Outside) (s t : Sink) (ws : List StoredWrite) (cs : List Classification) (append : Bool)
    (io : AppendIo) (n i : ℕ)
    → publish_writes o s ws cs append io ≡ accepted t n i
    → Enqueued s t (not_completed s.dedupe (zip_writes ws cs)) n i
unfolding publish_writes
publish_writes-Enqueued o s t ws cs append io n i e = elim (Bool-cases (length ws == length cs)) [
  | inr other ↦ let e' = rw (other, publish_writes) at e in cc
  | inl same ↦
      publish_batch-Enqueued o s t (not_completed s.dedupe (zip_writes ws cs)) append io n i
        (rw (same, publish_writes) at e)
]

pub enqueue-Enqueued :
    (o : Outside) (s t : Sink) (ws : List StoredWrite) (io : AppendIo) (n i : ℕ)
    → enqueue o s ws io ≡ accepted t n i
    → (batch : List Classed) × Enqueued s t batch n i
unfolding enqueue
enqueue-Enqueued o s t ws io n i e = elim (AllClasses-cases (classify_all o.rate ws)) [
  | inr (w, why, bad) ↦ let e' = rw (bad, enqueue) at e in cc
  | inl (cs, good) ↦ (
    not_completed s.dedupe (zip_writes ws cs),
    publish_writes-Enqueued o s t ws cs true io n i (rw (good, enqueue) at e),
  )
]

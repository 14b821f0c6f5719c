-- ===== src/Protocol/Client/Awake.antt =====
-- src/protocol.rs, `handle_client`, and src/admission.rs, `Completion::wait`: a handler does not
-- wait for ever.
use whaletracker.Prelude.{
  ℕ, ◌≡◌, ◌≢◌, refl, inl, inr, List, [], ◌∷◌, Bool, true, false, ◌||◌, Option, arith, leb, ltb,
  length, all, get_elem?, Text, ℤ, Bool-cases, Option-cases,
}
use whaletracker.Ascii.{is_ascii_whitespace}
use whaletracker.Admission.Completion.{
  Completion, finish_all, Wake, Waited, wait, timed_out, confirmed, asleep, panicked,
}
use whaletracker.Sink.{Sink, Outside}
use whaletracker.Sink.Publish.{Published, accepted, publish_failed, process_ended, enqueue}
use whaletracker.Sink.Publish
use whaletracker.Protocol.Message.{InboundWrite}
use whaletracker.Protocol.Session.{
  Inbound, hello, sql_batch, health, Handler, Meets, sleeps, AllStored, all_stored, one_bad,
  materialize_all, after_wait, await_completion, await_jobs, after_enqueue, enqueue_all,
  handle_batch, handle_hello, handle_health, handle_message, handle_line,
}

-- The thread is woken at the deadline or behind it, as `wait_timeout` promises.
abbrev pub reaches : ℕ → List Wake → Bool
reaches deadline [] = false
reaches deadline (w ∷ ws) = leb deadline w.now || reaches deadline ws

wait-awake :
    (ws : List Wake) (deadline : ℕ) (c : Completion)
    → reaches deadline ws ≡ true
    → wait deadline c ws ≢ asleep
unfolding wait
wait-awake [] deadline c h e = ground arith
wait-awake (w ∷ ws) deadline c h e = elim (Option-cases (finish_all w.finished c)) [
  | inl n ↦ ground (arith, n)
  | inr (d, s) ↦ ground (arith, s, wait-awake ws deadline d)
]

module _ (m : Meets) (in_time : reaches m.deadline m.wakes ≡ true) where
  after_wait-awake :
      (s : Sink) (b : Option ℤ) (n : ℕ) (x : Waited) → x ≢ asleep → after_wait s b n x ≢ sleeps
  after_wait-awake s b n timed_out h e = cc
  after_wait-awake s b n (confirmed executed) h e = cc
  after_wait-awake s b n asleep h e = absurd (h refl)
  after_wait-awake s b n panicked h e = cc

  await_completion-awake :
      (s : Sink) (b : Option ℤ) (n : ℕ) (c : Completion) → await_completion m s b n c ≢ sleeps
  unfolding await_completion
  await_completion-awake s b n c e = elim (Option-cases (finish_all m.early c)) [
    | inl missing ↦ let e' = rw (missing, await_completion) at e in cc
    | inr (d, found) ↦
        after_wait-awake s b n (wait m.deadline d m.wakes) (wait-awake m.wakes m.deadline d in_time)
          (rw (found, await_completion) at e)
  ]

  await_jobs-awake : (s : Sink) (b : Option ℤ) (n i : ℕ) → await_jobs m s b n i ≢ sleeps
  unfolding await_jobs
  await_jobs-awake s b n i e = elim (Option-cases (get_elem? s.completions i)) [
    | inl missing ↦ let e' = rw (missing, await_jobs) at e in cc
    | inr (c, found) ↦ await_completion-awake s b n c (rw (found, await_jobs) at e)
  ]

  after_enqueue-awake :
      (b : Option ℤ) (requested : ℕ) (x : Published) → after_enqueue m b requested x ≢ sleeps
  unfolding await_jobs
  after_enqueue-awake b requested (accepted t n i) e = await_jobs-awake t b n i e
  after_enqueue-awake b requested (publish_failed t why) e = cc
  after_enqueue-awake b requested Publish.panicked e = cc
  after_enqueue-awake b requested (process_ended t) e = cc

  enqueue_all-awake :
      (o : Outside) (s : Sink) (b : Option ℤ) (x : AllStored) → enqueue_all o m s b x ≢ sleeps
  unfolding enqueue_all
  enqueue_all-awake o s b (one_bad why) e = cc
  enqueue_all-awake o s b (all_stored ws) e =
      after_enqueue-awake b (length ws) (enqueue o s ws m.append) e

  handle_batch-awake :
      (o : Outside) (h : Handler) (authenticated : Bool) (s : Sink) (b : Option ℤ)
      (writes : List InboundWrite)
      → handle_batch o h m authenticated s b writes ≢ sleeps
  unfolding handle_batch
  handle_batch-awake o h false s b writes e = cc
  handle_batch-awake o h true s b writes e =
      elim (Bool-cases (ltb h.max_inbound_writes (length writes))) [
        | inl many ↦ let e' = rw (many, handle_batch) at e in cc
        | inr few ↦
            enqueue_all-awake o s b (materialize_all b h.max_sql_bytes m.made 0 writes)
              (rw (few, handle_batch) at e)
      ]

  handle_hello-awake :
      (h : Handler) (s : Sink) (proto : Option ℕ) (auth : Option Text)
      → handle_hello h s proto auth ≢ sleeps
  unfolding handle_hello
  handle_hello-awake h s proto auth e = ground arith

  handle_message-awake :
      (o : Outside) (h : Handler) (authenticated : Bool) (s : Sink) (message : Inbound)
      → handle_message o h m authenticated s message ≢ sleeps
  unfolding handle_message handle_health
  handle_message-awake o h authenticated s (hello proto auth) = handle_hello-awake h s proto auth
  handle_message-awake o h authenticated s (sql_batch b writes) =
      handle_batch-awake o h authenticated s b writes
  handle_message-awake o h false s health = λ e. cc
  handle_message-awake o h true s health = λ e. cc

  pub handle_line-awake :
      (o : Outside) (h : Handler) (authenticated : Bool) (s : Sink) (line : Text)
      → handle_line o h m authenticated s line ≢ sleeps
  unfolding handle_line
  handle_line-awake o h authenticated s line e = elim (Bool-cases (all is_ascii_whitespace line)) [
    | inl blank ↦ let e' = rw (blank, handle_line) at e in cc
    | inr text ↦
        let e' = rw (text, handle_line) at e in
        elim (Option-cases (m.parse line)) [
          | inl unreadable ↦ let e'' = rw unreadable at e' in cc
          | inr (message, found) ↦ handle_message-awake o h authenticated s message (rw found at e')
        ]
  ]

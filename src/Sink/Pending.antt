-- ===== src/Sink/Pending.antt =====
-- src/sink.rs, `replay`: the pending writes of a journal, between its loading and their
-- publication.
use whaletracker.Prelude.{
  ℕ, ◌+◌, ◌<◌, ◌≡◌, refl, ap, ◌∙◌, List, [], ◌∷◌, true, false, some, arith, length, inl, inr, Text,
  contains, contains-cons, text_eq_refl, word_mod, ◌⊎◌,
}
use whaletracker.Sql.Statement.{SqlError}
use whaletracker.Sql.LogRate.{RateTest}
use whaletracker.Sql.Classify.{
  Classification, Classified, classified, rejected, validate_and_classify,
}
use whaletracker.Admission.{permits_of}
use whaletracker.Admission.Held.{ids}
use whaletracker.Admission.Capacity.{bytes_asked}
use whaletracker.Admission.Dedupe.{
  Dedupe, new_dedupe, dedupe_contains, remember, remember_all, IsDedupe,
}
use whaletracker.Admission.Dedupe.Recent.{remember-IsDedupe, remember_all-fits, new-IsDedupe}
use whaletracker.Journal.{StoredWrite, Limits, write_size}
use whaletracker.Journal.Load.{Replay}
use whaletracker.Journal.Order.{IsReplay, write_ids, sizes}
use whaletracker.Sink.{Sink, limits_of}
use whaletracker.Sink.Publish.{
  zip_writes, not_completed, specs_of, AllClasses, classes, refuses, classify_all, replay_bytes,
  exceeds_queue,
}

replay_bytes-sizes :
    (ws : List StoredWrite) (sum : ℕ)
    → sum + sizes ws < word_mod
    → replay_bytes sum ws ≡ some (sum + sizes ws)
unfolding replay_bytes
replay_bytes-sizes [] sum h = ground arith
replay_bytes-sizes (w ∷ ws) sum h = ground (arith, replay_bytes-sizes ws (sum + write_size w))

pub exceeds_queue-IsReplay :
    (s : Sink) (r : Replay)
    → s.settings.max_queue_bytes < word_mod
    → IsReplay (limits_of s.settings) r
    → exceeds_queue s r.pending ≡ false
unfolding exceeds_queue limits_of
exceeds_queue-IsReplay s r fit v =
    ground (arith, replay_bytes-sizes r.pending 0, v.rows_within, v.bytes_within)

remember_all-IsDedupe : (xs : List Text) (d : Dedupe) → IsDedupe d → IsDedupe (remember_all d xs)
unfolding remember_all
remember_all-IsDedupe [] d v = v
remember_all-IsDedupe (x ∷ xs) d v =
    remember_all-IsDedupe xs (remember d x) (remember-IsDedupe d x v)

-- The set of a new sink that has remembered the completed IDs of the journal.
pub completed_known :
    (n : ℕ) (l : Limits) (r : Replay) (j : Text)
    → n ≡ l.dedupe_capacity
    → IsReplay l r
    → dedupe_contains (remember_all (new_dedupe n) r.done) j ≡ contains j r.done
unfolding dedupe_contains new_dedupe
completed_known n l r j e v =
    (remember_all-IsDedupe r.done (new_dedupe n) (new-IsDedupe n)).same j
    ∙ ap (contains j)
        (remember_all-fits r.done (new_dedupe n) (new-IsDedupe n) v.done_once (rw e v.done_within))

Classified-cases :
    (x : Classified)
    → ((c : Classification) × (x ≡ classified c)) ⊎ ((e : SqlError) × (x ≡ rejected e))
Classified-cases (classified c) = inl (c, refl)
Classified-cases (rejected e) = inr (e, refl)

pub AllClasses-cases :
    (x : AllClasses)
    → ((cs : List Classification) × (x ≡ classes cs))
      ⊎ ((w : StoredWrite) × (e : SqlError) × (x ≡ refuses w e))
AllClasses-cases (classes cs) = inl (cs, refl)
AllClasses-cases (refuses w e) = inr (w, e, refl)

pub length-classify_all :
    (rate : RateTest) (ws : List StoredWrite) (cs : List Classification)
    → classify_all rate ws ≡ classes cs
    → length cs ≡ length ws
unfolding classify_all
length-classify_all rate [] cs e = ground arith
length-classify_all rate (w ∷ ws) cs e =
    elim (Classified-cases (validate_and_classify rate w.sql)) [
      | inr (why, r) ↦ absurd (ground (arith, r))
      | inl (c, r) ↦ elim (AllClasses-cases (classify_all rate ws)) [
        | inl (ds, more) ↦ ground (arith, r, more, length-classify_all rate ws ds more)
        | inr (v, why, more) ↦ absurd (ground (arith, r, more))
      ]
    ]

pub none_completed :
    (ws : List StoredWrite) (cs : List Classification) (d : Dedupe)
    → ((j : Text) → contains j (write_ids ws) ≡ true → dedupe_contains d j ≡ false)
    → not_completed d (zip_writes ws cs) ≡ zip_writes ws cs
unfolding not_completed zip_writes
none_completed [] cs d h = refl
none_completed (w ∷ ws) [] d h = refl
none_completed (w ∷ ws) (c ∷ cs) d h = ground (
  arith,
  h w.event_id,
  contains-cons w.event_id w.event_id (write_ids ws),
  text_eq_refl w.event_id,
  none_completed ws cs d (λ j k. ground (arith, h j, k, contains-cons j w.event_id (write_ids ws))),
)

pub zipped_ids :
    (ws : List StoredWrite) (cs : List Classification)
    → length cs ≡ length ws
    → (ids (permits_of (specs_of (zip_writes ws cs))) ≡ write_ids ws)
      × ((bytes_asked (specs_of (zip_writes ws cs)) ≡ sizes ws)
          × (length (specs_of (zip_writes ws cs)) ≡ length ws))
unfolding zip_writes specs_of permits_of
zipped_ids [] [] e = (refl, (refl, refl))
zipped_ids [] (c ∷ cs) e = absurd (omega (arith, e))
zipped_ids (w ∷ ws) [] e = absurd (omega (arith, e))
zipped_ids (w ∷ ws) (c ∷ cs) e = ground (arith, zipped_ids ws cs (omega (arith, e)))

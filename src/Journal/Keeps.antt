-- ===== src/Journal/Keeps.antt =====
-- src/journal.rs, `read_state`: each record keeps the invariant of the state.
use whaletracker.Prelude.{
  ℕ, suc, ◌+◌, ◌≤◌, ◌<◌, ◌≡◌, refl, List, false, not, ◌&&◌, some, inl, inr, arith, length, Text,
  text_eq, text_eq_iff, contains, contains-cons, Bool-cases, Option-cases,
}
use whaletracker.Journal.{
  StoredWrite, ok, Entry, Loading, Limits, write_size, bad_id, get, with_pending, add_pending,
  apply_pending, without_pending, forget_pending,
}
use whaletracker.Journal.Invariant.{
  keys, bytes_pending, IsMap, IsLoading, get-contains, contains-remove_entry, Descending-weaken,
  remove_entry-Descending, remove_entry-Distinct, remove_entry-AllValid, remove_entry-sizes,
  write_size-lt,
}

pub IsMap-weaken :
    {l : Limits} (m n : ℕ) {es : List Entry} {b : ℕ} → m ≤ n → IsMap l m es b → IsMap l n es b
IsMap-weaken m n {es} h v = record {
  once = v.once;
  ordered = Descending-weaken m n es h v.ordered;
  counted = v.counted;
  rows_within = v.rows_within;
  bytes_within = v.bytes_within;
  valid = v.valid;
}

pub IsLoading-weaken :
    {l : Limits} (m n : ℕ) {s : Loading} → m ≤ n → IsLoading l m s → IsLoading l n s
IsLoading-weaken m n h v = record {
  map_fits = IsMap-weaken m n h v.map_fits;
  apart = v.apart;
  completed = v.completed;
  done_valid = v.done_valid;
  bytes_fit = v.bytes_fit;
}

pub with_pending-IsLoading :
    (l : Limits) (n : ℕ) (w : StoredWrite) (s : Loading)
    → IsLoading l n s
    → bad_id w.event_id ≡ false
    → contains w.event_id s.done_set ≡ false
    → contains w.event_id (keys s.pending) ≡ false
    → length s.pending < l.max_rows
    → bytes_pending s.pending + write_size w ≤ l.max_bytes
    → IsLoading l (suc n) (with_pending n w s)
unfolding with_pending
with_pending-IsLoading l n w s v valid fresh new rows bytes = record {
  map_fits = record {
    once = (new, v.map_fits.once);
    ordered = (omega arith, v.map_fits.ordered);
    counted = omega (arith, v.map_fits.counted, v.bytes_fit);
    rows_within = omega arith;
    bytes_within = omega arith;
    valid = (valid, v.map_fits.valid);
  };
  apart = λ j h.
      ground
        (arith, v.apart j, contains-cons j w.event_id (keys s.pending), text_eq_iff j w.event_id);
  completed = v.completed;
  done_valid = v.done_valid;
  bytes_fit = v.bytes_fit;
}

add_pending-room :
    (l : Limits) (n : ℕ) (w : StoredWrite) (s t : Loading)
    → IsLoading l n s
    → add_pending l n w s ≡ ok t
    → (t ≡ with_pending n w s)
      × (length s.pending < l.max_rows)
      × (bytes_pending s.pending + write_size w ≤ l.max_bytes)
unfolding add_pending
add_pending-room l n w s t v e = ground (arith, v.map_fits.counted, v.map_fits.bytes_within)

pub apply_pending-IsLoading :
    (l : Limits) (n : ℕ) (w : StoredWrite) (s t : Loading)
    → IsLoading l n s
    → apply_pending l n w s ≡ ok t
    → IsLoading l (suc n) t
unfolding apply_pending
apply_pending-IsLoading l n w s t v e = elim (Bool-cases (bad_id w.event_id)) [
  | inl bad ↦ cc (rw bad at e)
  | inr valid ↦ elim (Bool-cases (contains w.event_id s.done_set)) [
    | inl old ↦
        let same : s ≡ t = ground (arith, valid, old) in
        rw (← same) (IsLoading-weaken n (suc n) (omega arith) v)
    | inr fresh ↦ elim (Option-cases (get w.event_id s.pending)) [
      | inr (x, found) ↦
          let same : s ≡ t = ground (arith, valid, fresh, found) in
          rw (← same) (IsLoading-weaken n (suc n) (omega arith) v)
      | inl new ↦
          let (same, rows, bytes) =
            add_pending-room l n w s t v (ground (arith, valid, fresh, new)) in
          rw same (
            with_pending-IsLoading l n w s v valid fresh (get-contains w.event_id s.pending new)
              rows bytes)
    ]
  ]
]

without_pending-IsMap :
    (l : Limits) (n : ℕ) (id : Text) (x : Entry) (s : Loading)
    → IsLoading l n s
    → get id s.pending ≡ some x
    → IsMap l n (without_pending id x s).pending (without_pending id x s).pending_bytes
unfolding without_pending
without_pending-IsMap l n id x s v found =
    let (sizes, rows) = remove_entry-sizes id s.pending x found in
    record {
      once = remove_entry-Distinct id s.pending v.map_fits.once;
      ordered = remove_entry-Descending n id s.pending v.map_fits.ordered;
      counted = omega (
        arith,
        sizes,
        v.map_fits.counted,
        v.map_fits.bytes_within,
        v.bytes_fit,
        write_size-lt x.write,
      );
      rows_within = omega (arith, rows, v.map_fits.rows_within);
      bytes_within = omega (arith, sizes, v.map_fits.bytes_within);
      valid = remove_entry-AllValid id s.pending v.map_fits.valid;
    }

-- `forget_pending` leaves the map without the ID, and nothing else changed.
pub record Forgets (l : Limits) (n : ℕ) (id : Text) (s t : Loading) : Type 0 where
  pub fits : IsMap l n t.pending t.pending_bytes
  pub left :
      (j : Text) → contains j (keys t.pending) ≡ (not (text_eq j id) && contains j (keys s.pending))
  pub done_same : t.done ≡ s.done
  pub done_set_same : t.done_set ≡ s.done_set

pub forget_pending-Forgets :
    (l : Limits) (n : ℕ) (id : Text) (s : Loading)
    → IsLoading l n s
    → Forgets l n id s (forget_pending id s)
unfolding forget_pending without_pending
forget_pending-Forgets l n id s v = elim (Option-cases (get id s.pending)) [
  | inl missing ↦
      let e : forget_pending id s ≡ s = rw (missing, forget_pending) in
      rw e (record {
        fits = v.map_fits;
        left = λ j. ground (arith, get-contains id s.pending missing, text_eq_iff j id);
        done_same = refl;
        done_set_same = refl;
      })
  | inr (x, found) ↦
      let e : forget_pending id s ≡ without_pending id x s = rw (found, forget_pending) in
      rw e (record {
        fits = without_pending-IsMap l n id x s v found;
        left = λ j. contains-remove_entry j id s.pending v.map_fits.once;
        done_same = refl;
        done_set_same = refl;
      })
]

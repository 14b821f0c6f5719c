-- ===== src/Journal/Bounds.antt =====
-- src/journal.rs, `read_state`: what every journal that loads satisfies.
use whaletracker.Prelude.{
  ℕ, zero, suc, ◌+◌, ◌<◌, ◌≡◌, ◌⊎◌, refl, ap, [], ◌∷◌, false, inl, inr, arith, all, Text, contains,
  Bool-cases, Option-cases, word_mod,
}
use whaletracker.Ascii.{is_ascii_whitespace}
use whaletracker.Reader.{Source}
use whaletracker.Admission.Dedupe.{Dedupe, remember}
use whaletracker.Admission.Dedupe.Recent.{remember-IsDedupe, remember_only}
use whaletracker.Journal.{
  Record, pending, done, Codec, ok, Result-cases, Loading, Limits, no_records, bad_id,
  forget_pending, note_done, apply_done, apply_record,
}
use whaletracker.Journal.Invariant.{dedupe_of, IsLoading, note_done-remember, note_done-ValidTexts}
use whaletracker.Journal.Keeps.{
  IsLoading-weaken, apply_pending-IsLoading, Forgets, forget_pending-Forgets,
}
use whaletracker.Journal.Load.{
  LineRead, line, io_error, over_limit, read_line, apply_line, read_lines,
}

pub note_done_map :
    (c : ℕ) (id : Text) (s : Loading)
    → ((note_done c id s).pending ≡ s.pending)
      × ((note_done c id s).pending_bytes ≡ s.pending_bytes)
unfolding note_done
note_done_map c id s = ground arith

abbrev pub counted_done : Text → Loading → Loading
counted_done id s = let t = forget_pending id s in record t { done_records = t.done_records + 1 }

pub note_done-IsLoading :
    (l : Limits) (n : ℕ) (id : Text) (s u : Loading)
    → IsLoading l n s
    → Forgets l n id s u
    → bad_id id ≡ false
    → IsLoading l n (note_done l.dedupe_capacity id u)
note_done-IsLoading l n id s u v f valid =
    let d = dedupe_of l.dedupe_capacity u in
    let same = note_done-remember l.dedupe_capacity id u in
    let known : (note_done l.dedupe_capacity id u).done_set ≡ (remember d id).known =
      ap (λ (x : Dedupe). x.known) same in
    let map_same = note_done_map l.dedupe_capacity id u in
    record {
      map_fits = rw (map_same.0, map_same.1) f.fits;
      apart = λ j h. rw map_same.0 (
          ground
            (arith, remember_only d id j (rw known at h), f.left j, f.done_set_same, v.apart j));
      completed = rw same (remember-IsDedupe d id (rw (f.done_set_same, f.done_same) v.completed));
      done_valid = note_done-ValidTexts l.dedupe_capacity id u (rw f.done_same v.done_valid) valid;
      bytes_fit = v.bytes_fit;
    }

pub counted-Forgets :
    (l : Limits) (n : ℕ) (id : Text) (s : Loading)
    → IsLoading l n s
    → Forgets l n id s (counted_done id s)
counted-Forgets l n id s v =
    let f = forget_pending-Forgets l n id s v in
    record {
      fits = f.fits;
      left = f.left;
      done_same = f.done_same;
      done_set_same = f.done_set_same;
    }

pub apply_done-IsLoading :
    (l : Limits) (n : ℕ) (id : Text) (s t : Loading)
    → IsLoading l n s
    → apply_done l n id s ≡ ok t
    → IsLoading l (suc n) t
unfolding apply_done
apply_done-IsLoading l n id s t v e = elim (Bool-cases (bad_id id)) [
  | inl bad ↦ cc (rw bad at e)
  | inr valid ↦
      let same : note_done l.dedupe_capacity id (counted_done id s) ≡ t = ground (arith, valid) in
      rw (← same) (
        IsLoading-weaken n (suc n) (omega arith)
          (note_done-IsLoading l n id s (counted_done id s) v (counted-Forgets l n id s v) valid))
]

-- A record that is taken in keeps the state of the loader: the pending writes are a map of valid
-- IDs with ordinals that fall, within the limits on rows and bytes and with their bytes counted
-- exactly; no ID is both pending and completed; the completed IDs are a bounded FIFO.
pub apply_record-IsLoading :
    (l : Limits) (n : ℕ) (r : Record) (s t : Loading)
    → IsLoading l n s
    → apply_record l n r s ≡ ok t
    → IsLoading l (suc n) t
unfolding apply_record
apply_record-IsLoading l n (pending w) s t v e = apply_pending-IsLoading l n w s t v e
apply_record-IsLoading l n (done id ts) s t v e = apply_done-IsLoading l n id s t v e

apply_line-IsLoading :
    (codec : Codec) (l : Limits) (n : ℕ) (text : Text) (s t : Loading)
    → IsLoading l n s
    → apply_line codec l n text s ≡ ok t
    → IsLoading l (suc n) t
unfolding apply_line
apply_line-IsLoading codec l n text s t v e = elim (Option-cases (codec.decode text)) [
  | inl corrupt ↦
      let same : s ≡ t = ground (arith, corrupt) in
      rw (← same) (IsLoading-weaken n (suc n) (omega arith) v)
  | inr (r, decoded) ↦ elim (Bool-cases (all is_ascii_whitespace text)) [
    | inl blank ↦
        let same : s ≡ t = ground (arith, blank) in
        rw (← same) (IsLoading-weaken n (suc n) (omega arith) v)
    | inr full ↦ apply_record-IsLoading l n r s t v (ground (arith, decoded, full))
  ]
]

-- One round of the loop that ends well: the file has ended, or a line was taken in.
read_lines_round :
    (fuel : ℕ) (codec : Codec) (l : Limits) (ordinal : ℕ) (src : Source) (s t : Loading)
    → read_lines (suc fuel) codec l ordinal src s ≡ ok t
    → (s ≡ t)
      ⊎ ((text : Text) × (rest : Source) × (u : Loading) × (apply_line codec l (ordinal + 1) text s
            ≡ ok u)
          × (read_lines fuel codec l (ordinal + 1) rest u ≡ ok t))
unfolding read_lines
read_lines_round fuel codec l ordinal src s t e = go (read_line [] src) refl
  where
    go :
        (r : LineRead)
        → read_line [] src ≡ r
        → (s ≡ t)
          ⊎ ((text : Text) × (rest : Source) × (u : Loading) × (apply_line codec l
                  (ordinal + 1)
                  text
                  s
                ≡ ok u)
              × (read_lines fuel codec l (ordinal + 1) rest u ≡ ok t))
    go io_error h = cc (rw (h, read_lines) at e)
    go over_limit h = cc (rw (h, read_lines) at e)
    go (line [] rest) h = inl (ground (arith, h))
    go (line (b ∷ bs) rest) h = elim (Result-cases (apply_line codec l (ordinal + 1) (b ∷ bs) s)) [
      | inl (why, refused) ↦ absurd (ground (arith, h, refused))
      | inr (u, taken) ↦ inr (b ∷ bs, rest, u, taken, ground (arith, h, taken))
    ]

pub read_lines-IsLoading :
    (fuel : ℕ) (codec : Codec) (l : Limits) (ordinal : ℕ) (src : Source) (s t : Loading)
    → IsLoading l (suc ordinal) s
    → read_lines fuel codec l ordinal src s ≡ ok t
    → (n : ℕ) × IsLoading l n t
unfolding read_lines
read_lines-IsLoading zero codec l ordinal src s t v e = cc
read_lines-IsLoading (suc fuel) codec l ordinal src s t v e =
    elim (read_lines_round fuel codec l ordinal src s t e) [
      | inl same ↦ (suc ordinal, rw (← same) v)
      | inr (text, rest, u, taken, more) ↦
          read_lines-IsLoading fuel codec l (ordinal + 1) rest u t
            (apply_line-IsLoading codec l (ordinal + 1) text s u
              (IsLoading-weaken (suc ordinal) (ordinal + 1) (omega arith) v) taken)
            more
    ]

pub no_records-IsLoading : (l : Limits) → l.max_bytes < word_mod → IsLoading l 1 no_records
unfolding contains
no_records-IsLoading l fit = record {
  map_fits = omega arith;
  apart = λ j h. refl;
  completed = record {
    same = λ j. refl;
    distinct = tt;
    distinct_known = tt;
    bounded = omega arith;
    size = refl;
  };
  done_valid = tt;
  bytes_fit = fit;
}

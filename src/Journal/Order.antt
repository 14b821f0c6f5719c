-- ===== src/Journal/Order.antt =====
-- src/journal.rs, `read_state`: the replay is in the order of the file, and within the limits.
use mathlib.Core.List.{reverse, reverse-cons}
use whaletracker.Prelude.{
  ℕ, suc, ◌+◌, ◌≤◌, ◌<◌, ◌≡◌, refl, sym, ap, ◌∙◌, List, [], ◌∷◌, ◌++◌, true, false, Option, none,
  some, inl, inr, arith, length, length-append, Text, TextSet, contains, contains-push,
  contains-cons, Distinct, Distinct-middle, append-nil, word_mod,
}
use whaletracker.Reader.{Source, bytes_of}
use whaletracker.Journal.{
  StoredWrite, Codec, ok, Result-cases, Entry, Loading, Limits, no_records, write_size, bad_id,
}
use whaletracker.Journal.Invariant.{
  keys, bytes_pending, Descending, AllValid, ValidTexts, IsLoading,
}
use whaletracker.Journal.Bounds.{read_lines-IsLoading, no_records-IsLoading}
use whaletracker.Journal.Load.{
  read_lines, insert_by_ordinal, sort_by_ordinal, Replay, writes_of, to_replay, read_state,
}

abbrev AllBelow : ℕ → List Entry → Type 0
AllBelow n [] = Unit {0}
AllBelow n (e ∷ es) = (e.ordinal < n) × AllBelow n es

AllBelow-append :
    (n : ℕ) (xs ys : List Entry) → AllBelow n xs → AllBelow n ys → AllBelow n (xs ++ ys)
AllBelow-append n [] ys h k = k
AllBelow-append n (x ∷ xs) ys h k = (h.0, AllBelow-append n xs ys h.1 k)

AllBelow-reverse : (m n : ℕ) (es : List Entry) → m ≤ n → Descending m es → AllBelow n (reverse es)
AllBelow-reverse m n [] h d = tt
AllBelow-reverse m n (e ∷ es) h d = rw (reverse-cons e es) (
    AllBelow-append n (reverse es) (e ∷ []) (AllBelow-reverse e.ordinal n es (omega arith) d.1)
      (omega arith, tt))

insert_by_ordinal-last :
    (e : Entry) (xs : List Entry) → AllBelow e.ordinal xs → insert_by_ordinal e xs ≡ xs ++ e ∷ []
unfolding insert_by_ordinal
insert_by_ordinal-last e [] h = refl
insert_by_ordinal-last e (x ∷ xs) h = ground (arith, insert_by_ordinal-last e xs h.1)

-- The entries that the map holds, newest first, sort to the order of the file.
pub sort_by_ordinal-reverse :
    (n : ℕ) (es : List Entry) → Descending n es → sort_by_ordinal es ≡ reverse es
unfolding sort_by_ordinal
sort_by_ordinal-reverse n [] d = refl
sort_by_ordinal-reverse n (e ∷ es) d =
    ap (insert_by_ordinal e) (sort_by_ordinal-reverse e.ordinal es d.1)
    ∙ insert_by_ordinal-last e (reverse es)
        (AllBelow-reverse e.ordinal e.ordinal es (omega arith) d.1)
    ∙ sym (reverse-cons e es)

abbrev pub write_ids : List StoredWrite → TextSet
write_ids [] = []
write_ids (w ∷ ws) = w.event_id ∷ write_ids ws

abbrev pub sizes : List StoredWrite → ℕ
sizes [] = 0
sizes (w ∷ ws) = write_size w + sizes ws

abbrev pub ValidIds : List StoredWrite → Type 0
ValidIds [] = Unit {0}
ValidIds (w ∷ ws) = (bad_id w.event_id ≡ false) × ValidIds ws

writes_of-push :
    (xs : List Entry) (e : Entry) → writes_of (xs ++ e ∷ []) ≡ writes_of xs ++ e.write ∷ []
unfolding writes_of
writes_of-push [] e = refl
writes_of-push (x ∷ xs) e = ap (◌∷◌ x.write) (writes_of-push xs e)

pub write_ids-append :
    (xs ys : List StoredWrite) → write_ids (xs ++ ys) ≡ write_ids xs ++ write_ids ys
write_ids-append [] ys = refl
write_ids-append (x ∷ xs) ys = ap (◌∷◌ x.event_id) (write_ids-append xs ys)

pub sizes-append : (xs ys : List StoredWrite) → sizes (xs ++ ys) ≡ sizes xs + sizes ys
sizes-append [] ys = omega arith
sizes-append (x ∷ xs) ys = omega (arith, sizes-append xs ys)

ValidIds-append : (xs ys : List StoredWrite) → ValidIds xs → ValidIds ys → ValidIds (xs ++ ys)
ValidIds-append [] ys h k = k
ValidIds-append (x ∷ xs) ys h k = (h.0, ValidIds-append xs ys h.1 k)

-- The writes, in the order of the file.
abbrev pub in_order : List Entry → List StoredWrite
in_order es = writes_of (reverse es)

pub in_order-cons : (e : Entry) (es : List Entry) → in_order (e ∷ es) ≡ in_order es ++ e.write ∷ []
in_order-cons e es = ap writes_of (reverse-cons e es) ∙ writes_of-push (reverse es) e

pub in_order_ids :
    (es : List Entry) (j : Text) → contains j (write_ids (in_order es)) ≡ contains j (keys es)
unfolding writes_of
in_order_ids [] j = refl
in_order_ids (e ∷ es) j =
    rw (in_order-cons e es, write_ids-append (in_order es) (e.write ∷ []))
      (ground (
        arith,
        contains-push j e.write.event_id (write_ids (in_order es)),
        contains-cons j e.write.event_id (keys es),
        in_order_ids es j,
      ))

in_order-Distinct : (es : List Entry) → Distinct (keys es) → Distinct (write_ids (in_order es))
unfolding writes_of
in_order-Distinct [] d = tt
in_order-Distinct (e ∷ es) d =
    rw (in_order-cons e es, write_ids-append (in_order es) (e.write ∷ []))
      ((Distinct-middle (write_ids (in_order es)) e.write.event_id []).1
        (rw append-nil (in_order_ids es e.write.event_id ∙ d.0, in_order-Distinct es d.1)))

pub in_order-sizes :
    (es : List Entry)
    → (length (in_order es) ≡ length es) × (sizes (in_order es) ≡ bytes_pending es)
unfolding writes_of
in_order-sizes [] = (refl, refl)
in_order-sizes (e ∷ es) = rw (in_order-cons e es) (
    omega (
      arith,
      length-append (in_order es) (e.write ∷ []),
      sizes-append (in_order es) (e.write ∷ []),
      in_order-sizes es,
    ))

in_order-ValidIds : (es : List Entry) → AllValid es → ValidIds (in_order es)
unfolding writes_of
in_order-ValidIds [] v = tt
in_order-ValidIds (e ∷ es) v =
    rw (in_order-cons e es)
      (ValidIds-append (in_order es) (e.write ∷ []) (in_order-ValidIds es v.1) (v.0, tt))

-- A replay that a fresh server can take in whole.
pub record IsReplay (l : Limits) (r : Replay) : Type 0 where
  pub rows_within : length r.pending ≤ l.max_rows
  pub bytes_within : sizes r.pending ≤ l.max_bytes
  pub once : Distinct (write_ids r.pending)
  pub apart : (j : Text) → contains j r.done ≡ true → contains j (write_ids r.pending) ≡ false
  pub done_once : Distinct r.done
  pub done_within : length r.done ≤ l.dedupe_capacity
  pub valid : ValidIds r.pending
  pub done_valid : ValidTexts r.done

pub to_replay-IsReplay :
    (l : Limits) (n : ℕ) (s : Loading) → IsLoading l n s → IsReplay l (to_replay s)
unfolding to_replay
to_replay-IsReplay l n s v =
    let size = in_order-sizes s.pending in
    rw (sort_by_ordinal-reverse n s.pending v.map_fits.ordered) (record {
      rows_within = omega (arith, size, v.map_fits.rows_within);
      bytes_within = omega (arith, size, v.map_fits.bytes_within);
      once = in_order-Distinct s.pending v.map_fits.once;
      apart = λ j h. in_order_ids s.pending j ∙ v.apart j (v.completed.same j ∙ h);
      done_once = v.completed.distinct;
      done_within = v.completed.bounded;
      valid = in_order-ValidIds s.pending v.map_fits.valid;
      done_valid = v.done_valid;
    })

-- With a limit on bytes that fits in a word, and whatever bytes the file holds, a journal that
-- loads gives a replay within the limits on rows and bytes, with valid IDs, none of them twice and none that is also completed, and with no
-- more completed IDs than the capacity, none of them twice.
pub read_state-IsReplay :
    (codec : Codec) (l : Limits) (file : Option Source) (r : Replay)
    → l.max_bytes < word_mod
    → read_state codec l file ≡ ok r
    → IsReplay l r
unfolding read_state
read_state-IsReplay codec l none r fit e = cc
read_state-IsReplay codec l (some src) r fit e =
    elim (Result-cases (read_lines (suc (length (bytes_of src))) codec l 0 src no_records)) [
      | inl (why, failed) ↦ absurd (ground (arith, failed))
      | inr (s, loaded) ↦
          let same : to_replay s ≡ r = ground (arith, loaded) in
          let (n, v) =
            read_lines-IsLoading _ codec l 0 src no_records s (no_records-IsLoading l fit) loaded in
          rw (← same) (to_replay-IsReplay l n s v)
    ]

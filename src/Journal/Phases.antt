-- ===== src/Journal/Phases.antt =====
-- src/journal.rs, `read_state`: a run of pending records, and a run of completion records.
use whaletracker.Prelude.{
  ℕ, suc, ◌+◌, ◌≤◌, ◌<◌, ◌≡◌, refl, sym, ap, ◌∙◌, List, [], ◌∷◌, ◌++◌, true, false, none, arith,
  length, length-append, Text, text_eq_refl, contains, contains-append, contains-cons, Distinct,
  Distinct-middle, append-nil, append_assoc, Bool-cases,
}
use whaletracker.Journal.{
  StoredWrite, Record, pending, done, ok, Entry, Loading, Limits, write_size, bad_id, get,
  with_pending, add_pending, apply_pending, apply_record,
}
use whaletracker.Journal.Invariant.{keys, bytes_pending, IsLoading}
use whaletracker.Journal.Keeps.{IsLoading-weaken, with_pending-IsLoading}
use whaletracker.Journal.Order.{
  write_ids, sizes, ValidIds, in_order, in_order-cons, in_order_ids, in_order-sizes,
  write_ids-append, sizes-append,
}
use whaletracker.Journal.Encoded.{apply_records, apply_records-step}

abbrev pub pendings : List StoredWrite → List Record
pendings [] = []
pendings (w ∷ ws) = pending w ∷ pendings ws

-- Completion records, each with its time.
abbrev pub dones : List (Text × ℕ) → List Record
dones [] = []
dones ((id, ts) ∷ ids) = done id ts ∷ dones ids

abbrev pub done_ids : List (Text × ℕ) → List Text
done_ids [] = []
done_ids ((id, ts) ∷ ids) = id ∷ done_ids ids

-- New writes `ws` that find room in the state.
pub record Room (l : Limits) (s : Loading) (ws : List StoredWrite) : Type 0 where
  pub valid : ValidIds ws
  pub once : Distinct (write_ids (in_order s.pending ++ ws))
  pub rows : length (in_order s.pending ++ ws) ≤ l.max_rows
  pub bytes : sizes (in_order s.pending ++ ws) ≤ l.max_bytes
  pub fresh : (j : Text) → contains j s.done_set ≡ true → contains j (write_ids ws) ≡ false

get-missing : (id : Text) (es : List Entry) → contains id (keys es) ≡ false → get id es ≡ none
unfolding get
get-missing id [] h = refl
get-missing id (e ∷ es) h =
    ground (arith, contains-cons id e.write.event_id (keys es), get-missing id es)

-- What `apply_pending` does to a write that finds room.
record Adds (l : Limits) (n : ℕ) (s : Loading) (w : StoredWrite) : Type 0 where
  fresh : contains w.event_id s.done_set ≡ false
  new : contains w.event_id (keys s.pending) ≡ false
  rows : length s.pending < l.max_rows
  bytes : bytes_pending s.pending + write_size w ≤ l.max_bytes

Room-Adds :
    (l : Limits) (n : ℕ) (s : Loading) (w : StoredWrite) (ws : List StoredWrite)
    → Room l s (w ∷ ws)
    → Adds l n s w
Room-Adds l n s w ws r =
    let size = in_order-sizes s.pending in
    let once =
      (Distinct-middle (write_ids (in_order s.pending)) w.event_id (write_ids ws)).0
        (rw (write_ids-append (in_order s.pending) (w ∷ ws)) at r.once) in
    record {
      fresh = ground (
        arith,
        Bool-cases (contains w.event_id s.done_set),
        r.fresh w.event_id,
        contains-cons w.event_id w.event_id (write_ids ws),
        text_eq_refl w.event_id,
      );
      new = ground (
        arith,
        once.0,
        contains-append w.event_id (write_ids (in_order s.pending)) (write_ids ws),
        in_order_ids s.pending w.event_id,
      );
      rows = omega (arith, r.rows, size, length-append (in_order s.pending) (w ∷ ws));
      bytes = omega (arith, r.bytes, size, sizes-append (in_order s.pending) (w ∷ ws));
    }

apply_pending-Adds :
    (l : Limits) (n : ℕ) (s : Loading) (w : StoredWrite)
    → IsLoading l n s
    → bad_id w.event_id ≡ false
    → Adds l n s w
    → apply_pending l n w s ≡ ok (with_pending n w s)
unfolding apply_pending add_pending
apply_pending-Adds l n s w v valid a = ground (
  arith,
  valid,
  a.fresh,
  a.rows,
  a.bytes,
  get-missing w.event_id s.pending a.new,
  v.map_fits.counted,
)

-- The outcome of a run of pending records.
pub record Added (l : Limits) (n : ℕ) (s : Loading) (ws : List StoredWrite) : Type 0 where
  pub state : Loading
  pub runs : apply_records l n s (pendings ws) ≡ ok state
  pub loading : IsLoading l (suc (n + length (pendings ws))) state
  pub writes : in_order state.pending ≡ in_order s.pending ++ ws
  pub done_same : state.done ≡ s.done
  pub done_set_same : state.done_set ≡ s.done_set
  pub done_records_same : state.done_records ≡ s.done_records

with_pending-Room :
    (l : Limits) (n : ℕ) (s : Loading) (w : StoredWrite) (ws : List StoredWrite)
    → Room l s (w ∷ ws)
    → Room l (with_pending n w s) ws
unfolding with_pending
with_pending-Room l n s w ws r =
    let regroup : in_order (record { ordinal = n; write = w } ∷ s.pending) ++ ws
        ≡ in_order s.pending ++ w ∷ ws =
      ap (λ (x : List StoredWrite). x ++ ws)
        (in_order-cons (record { ordinal = n; write = w }) s.pending)
      ∙ append_assoc (in_order s.pending) (w ∷ []) ws in
    record {
      valid = r.valid.1;
      once = rw regroup r.once;
      rows = rw regroup r.rows;
      bytes = rw regroup r.bytes;
      fresh = λ j h. ground (arith, r.fresh j, contains-cons j w.event_id (write_ids ws));
    }

pub pendings-Added :
    (ws : List StoredWrite) (l : Limits) (n : ℕ) (s : Loading)
    → IsLoading l (suc n) s
    → Room l s ws
    → Added l n s ws
unfolding apply_records apply_record
pendings-Added [] l n s v r = record {
  state = s;
  runs = refl;
  loading = IsLoading-weaken (suc n) (suc (n + 0)) (omega arith) v;
  writes = sym (append-nil (in_order s.pending));
  done_same = refl;
  done_set_same = refl;
  done_records_same = refl;
}
pendings-Added (w ∷ ws) l n s v r =
    let a = Room-Adds l (n + 1) s w ws r in
    let v' = IsLoading-weaken (suc n) (n + 1) (omega arith) v in
    let taken = apply_pending-Adds l (n + 1) s w v' r.valid.0 a in
    let next = with_pending-IsLoading l (n + 1) w s v' r.valid.0 a.fresh a.new a.rows a.bytes in
    let more =
      pendings-Added ws l (n + 1) (with_pending (n + 1) w s) next
        (with_pending-Room l (n + 1) s w ws r) in
    record {
      state = more.state;
      runs =
          apply_records-step l n s (with_pending (n + 1) w s) (pending w) (pendings ws) taken
          ∙ more.runs;
      loading =
          IsLoading-weaken (suc (n + 1 + length (pendings ws)))
            (suc (n + length (pendings (w ∷ ws)))) (omega arith) more.loading;
      writes =
          more.writes
          ∙ unfold with_pending in
            (ap (λ (x : List StoredWrite). x ++ ws)
                (in_order-cons (record { ordinal = n + 1; write = w }) s.pending)
              ∙ append_assoc (in_order s.pending) (w ∷ []) ws);
      done_same = more.done_same ∙ unfold with_pending in refl;
      done_set_same = more.done_set_same ∙ unfold with_pending in refl;
      done_records_same = more.done_records_same ∙ unfold with_pending in refl;
    }

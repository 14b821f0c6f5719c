-- ===== src/Journal.antt =====
-- src/journal.rs: the records of the journal, and what one record does to the state that
-- `read_state` builds.
pub mod Load
pub mod File
pub mod Lock
pub mod Exclusive
pub mod Compaction
pub mod Invariant
pub mod Keeps
pub mod Bounds
pub mod Order
pub mod Fuel
pub mod Lines
pub mod Encoded
pub mod Phases
pub mod Finished
pub mod Recovery
use whaletracker.Prelude.{
  ◌≡◌, ◌⊎◌, inl, inr, refl, ℕ, ◌+◌, ◌≤◌, ◌<◌, List, [], ◌∷◌, ◌++◌, Bool, true, false, not, ◌&&◌,
  ◌||◌, Option, none, some, ◌==◌, ltb, leb, if◌then◌else◌, length, saturating_add, saturating_sub,
  wrapping_sub, wrapping_add, Text, TextSet, text_eq, contains, insert, ℤ,
}
use whaletracker.Admission.Dedupe.{evict_known, evict_order}

pub record StoredWrite : Type 0 where
  pub event_id : Text
  pub sql : Text
  pub user_id : Option ℕ
  pub batch_id : Option ℤ
  pub ts_ms : ℕ

pub data Record : Type 0 where
  pending : StoredWrite → Record
  done : Text → ℕ → Record

-- `serde_json`: one record to one line, and back. It is not part of the source.
pub record Codec : Type 0 where
  pub encode : Record → Text
  pub decode : Text → Option Record

-- The errors of `read_state`, with the line or the ID that the message names; `out_of_fuel` is
-- none of the source, and marks a loop of the model that was cut.
pub data JournalError : Type 0 where
  cannot_read over_capacity out_of_fuel : JournalError
  line_too_long torn_line corrupt_line invalid_event_id invalid_completion_id : ℕ → JournalError
  conflicting_payload : Text → JournalError

pub data Result {ℓ} (A : Type ℓ) : Type ℓ where
  ok : A → Result A
  err : JournalError → Result A

pub Result-cases {ℓ} :
    {A : Type ℓ} (r : Result A) → ((e : JournalError) × (r ≡ err e)) ⊎ ((a : A) × (r ≡ ok a))
Result-cases (ok a) = inr (a, refl)
Result-cases (err e) = inl (e, refl)

-- A value of the `pending` map; its key is the event ID of the write.
pub record Entry : Type 0 where
  pub ordinal : ℕ
  pub write : StoredWrite

-- The local variables of `read_state`. The map is the list of its values, each key once.
pub record Loading : Type 0 where
  pub pending : List Entry
  pub pending_bytes : ℕ
  pub done : List Text
  pub done_set : TextSet
  pub done_records : ℕ

pub record Limits : Type 0 where
  pub dedupe_capacity : ℕ
  pub max_rows : ℕ
  pub max_bytes : ℕ

abbrev pub no_records : Loading
no_records = record { pending = []; pending_bytes = 0; done = []; done_set = []; done_records = 0 }

unfoldable pub write_size : StoredWrite → ℕ
write_size w = saturating_add (saturating_add (length w.sql) (length w.event_id)) 256

unfoldable pub bad_id : Text → Bool
bad_id id = length id == 0 || ltb 192 (length id)

unfoldable pub get : Text → List Entry → Option Entry
get id [] = none
get id (e ∷ es) = if text_eq id e.write.event_id then some e else get id es

unfoldable pub remove_entry : Text → List Entry → List Entry
remove_entry id [] = []
remove_entry id (e ∷ es) =
    let rest = remove_entry id es in if text_eq id e.write.event_id then es else e ∷ rest

unfoldable pub user_eq : Option ℕ → Option ℕ → Bool
user_eq none none = true
user_eq (some a) (some b) = a == b
user_eq _ _ = false

unfoldable pub with_pending : ℕ → StoredWrite → Loading → Loading
with_pending ordinal w s = record s {
  pending_bytes = wrapping_add s.pending_bytes (write_size w);
  pending = record { ordinal = ordinal; write = w } ∷ s.pending;
}

-- The branch of a new pending write.
unfoldable pub add_pending : Limits → ℕ → StoredWrite → Loading → Result Loading
add_pending l ordinal w s =
    if leb l.max_rows (length s.pending)
      || ltb (saturating_sub l.max_bytes s.pending_bytes) (write_size w)
    then err over_capacity
    else ok (with_pending ordinal w s)

unfoldable pub apply_pending : Limits → ℕ → StoredWrite → Loading → Result Loading
apply_pending l ordinal w s =
    if bad_id w.event_id
    then err (invalid_event_id ordinal)
    else if contains w.event_id s.done_set
    then ok s
    else elim (get w.event_id s.pending) [
      | some previous ↦
          if not (text_eq previous.write.sql w.sql)
            || not (user_eq previous.write.user_id w.user_id)
          then err (conflicting_payload w.event_id)
          else ok s
      | none ↦ add_pending l ordinal w s
    ]

unfoldable pub without_pending : Text → Entry → Loading → Loading
without_pending id removed s = record s {
  pending = remove_entry id s.pending;
  pending_bytes = wrapping_sub s.pending_bytes (write_size removed.write);
}

-- `pending.remove`, with the bytes of the write that it takes out.
unfoldable pub forget_pending : Text → Loading → Loading
forget_pending id s = elim (get id s.pending) [
  | none ↦ s
  | some removed ↦ without_pending id removed s
]

-- The bounded FIFO of completed IDs: the loop is that of `Dedupe::remember`.
unfoldable pub note_done : ℕ → Text → Loading → Loading
note_done capacity id s =
    if ltb 0 capacity && not (contains id s.done_set)
    then record s {
      done_set = evict_known capacity (insert id s.done_set) (s.done ++ id ∷ []);
      done = evict_order capacity (s.done ++ id ∷ []);
    }
    else s

unfoldable pub apply_done : Limits → ℕ → Text → Loading → Result Loading
apply_done l ordinal id s =
    if bad_id id
    then err (invalid_completion_id ordinal)
    else let t = forget_pending id s in
      ok (note_done l.dedupe_capacity id (record t { done_records = t.done_records + 1 }))

unfoldable pub apply_record : Limits → ℕ → Record → Loading → Result Loading
apply_record l ordinal (pending w) s = apply_pending l ordinal w s
apply_record l ordinal (done id ts) s = apply_done l ordinal id s

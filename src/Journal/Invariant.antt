-- ===== src/Journal/Invariant.antt =====
-- src/journal.rs, `read_state`: what each record keeps of the state that is being built.
use whaletracker.Prelude.{
  ℕ, suc, ◌+◌, ◌≤◌, ◌<◌, ◌≡◌, List, [], ◌∷◌, ◌++◌, true, false, not, ◌&&◌, none, some, arith,
  length, Text, TextSet, text_eq, text_eq_iff, contains, contains-cons, contains-nil, Distinct,
  word_mod,
}
use whaletracker.Admission.Dedupe.{Dedupe, remember, IsDedupe, evict_order}
use whaletracker.Journal.{
  StoredWrite, Entry, Loading, Limits, write_size, bad_id, get, remove_entry, note_done,
}

abbrev pub keys : List Entry → TextSet
keys [] = []
keys (e ∷ es) = e.write.event_id ∷ keys es

abbrev pub bytes_pending : List Entry → ℕ
bytes_pending [] = 0
bytes_pending (e ∷ es) = write_size e.write + bytes_pending es

-- Ordinals below the bound, falling along the list: the newest entry stands first.
abbrev pub Descending : ℕ → List Entry → Type 0
Descending n [] = Unit {0}
Descending n (e ∷ es) = (e.ordinal < n) × Descending e.ordinal es

abbrev pub AllValid : List Entry → Type 0
AllValid [] = Unit {0}
AllValid (e ∷ es) = (bad_id e.write.event_id ≡ false) × AllValid es

abbrev pub ValidTexts : List Text → Type 0
ValidTexts [] = Unit {0}
ValidTexts (t ∷ ts) = (bad_id t ≡ false) × ValidTexts ts

-- The completed IDs, as the state of a `Dedupe`.
abbrev pub dedupe_of : ℕ → Loading → Dedupe
dedupe_of capacity s = record { known = s.done_set; order = s.done; capacity = capacity }

-- The map under limits: one entry to an ID, within both limits, in the order of the file.
pub record IsMap (l : Limits) (above : ℕ) (entries : List Entry) (bytes : ℕ) : Type 0 where
  pub once : Distinct (keys entries)
  pub ordered : Descending above entries
  pub counted : bytes ≡ bytes_pending entries
  pub rows_within : length entries ≤ l.max_rows
  pub bytes_within : bytes_pending entries ≤ l.max_bytes
  pub valid : AllValid entries

pub record IsLoading (l : Limits) (above : ℕ) (s : Loading) : Type 0 where
  pub map_fits : IsMap l above s.pending s.pending_bytes
  -- No ID is both pending and completed.
  pub apart : (j : Text) → contains j s.done_set ≡ true → contains j (keys s.pending) ≡ false
  pub completed : IsDedupe (dedupe_of l.dedupe_capacity s)
  pub done_valid : ValidTexts s.done
  pub bytes_fit : l.max_bytes < word_mod

-- A completion record changes the completed IDs of the loader as `Dedupe::remember` changes those
-- of a running server.
pub note_done-remember :
    (capacity : ℕ) (id : Text) (s : Loading)
    → dedupe_of capacity (note_done capacity id s) ≡ remember (dedupe_of capacity s) id
unfolding note_done remember
note_done-remember capacity id s = ground arith

pub get-contains : (id : Text) (es : List Entry) → get id es ≡ none → contains id (keys es) ≡ false
unfolding get
get-contains id [] e = contains-nil id
get-contains id (x ∷ es) e =
    ground (arith, contains-cons id x.write.event_id (keys es), get-contains id es)

pub contains-remove_entry :
    (j id : Text) (es : List Entry)
    → Distinct (keys es)
    → contains j (keys (remove_entry id es)) ≡ (not (text_eq j id) && contains j (keys es))
unfolding remove_entry
contains-remove_entry j id [] d = ground (arith, contains-nil j)
contains-remove_entry j id (x ∷ es) d = ground (
  arith,
  contains-cons j x.write.event_id (keys es),
  contains-cons j x.write.event_id (keys (remove_entry id es)),
  contains-remove_entry j id es d.1,
  text_eq_iff id x.write.event_id,
  text_eq_iff j id,
  text_eq_iff j x.write.event_id,
)

pub Descending-weaken : (m n : ℕ) (es : List Entry) → m ≤ n → Descending m es → Descending n es
Descending-weaken m n [] h d = tt
Descending-weaken m n (e ∷ es) h d = (omega arith, d.1)

pub remove_entry-Descending :
    (n : ℕ) (id : Text) (es : List Entry) → Descending n es → Descending n (remove_entry id es)
unfolding remove_entry
remove_entry-Descending n id [] d = tt
remove_entry-Descending n id (e ∷ es) d =
    ground (arith, remove_entry-Descending e.ordinal id es d.1, Descending-weaken e.ordinal n es)

pub remove_entry-Distinct :
    (id : Text) (es : List Entry) → Distinct (keys es) → Distinct (keys (remove_entry id es))
unfolding remove_entry
remove_entry-Distinct id [] d = tt
remove_entry-Distinct id (e ∷ es) d =
    ground
      (arith, remove_entry-Distinct id es d.1, contains-remove_entry e.write.event_id id es d.1)

pub remove_entry-AllValid :
    (id : Text) (es : List Entry) → AllValid es → AllValid (remove_entry id es)
unfolding remove_entry
remove_entry-AllValid id [] v = tt
remove_entry-AllValid id (e ∷ es) v = ground (arith, remove_entry-AllValid id es v.1)

pub remove_entry-sizes :
    (id : Text) (es : List Entry) (x : Entry)
    → get id es ≡ some x
    → (bytes_pending es ≡ write_size x.write + bytes_pending (remove_entry id es))
      × (length es ≡ suc (length (remove_entry id es)))
unfolding get remove_entry
remove_entry-sizes id [] x e = cc
remove_entry-sizes id (y ∷ es) x e = ground (arith, remove_entry-sizes id es x)

pub write_size-lt : (w : StoredWrite) → write_size w < word_mod
unfolding write_size
write_size-lt w = omega arith

evict_order-ValidTexts : (n : ℕ) (xs : List Text) → ValidTexts xs → ValidTexts (evict_order n xs)
unfolding evict_order
evict_order-ValidTexts n [] v = tt
evict_order-ValidTexts n (x ∷ xs) v = ground (arith, evict_order-ValidTexts n xs v.1)

push-ValidTexts :
    (xs : List Text) (id : Text) → ValidTexts xs → bad_id id ≡ false → ValidTexts (xs ++ id ∷ [])
push-ValidTexts [] id v h = (h, tt)
push-ValidTexts (x ∷ xs) id v h = (v.0, push-ValidTexts xs id v.1 h)

pub note_done-ValidTexts :
    (c : ℕ) (id : Text) (s : Loading)
    → ValidTexts s.done
    → bad_id id ≡ false
    → ValidTexts (note_done c id s).done
unfolding note_done
note_done-ValidTexts c id s v h =
    ground (arith, evict_order-ValidTexts c (s.done ++ id ∷ []) (push-ValidTexts s.done id v h))

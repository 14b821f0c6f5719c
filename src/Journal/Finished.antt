-- ===== src/Journal/Finished.antt =====
-- src/journal.rs, `read_state`: what a run of completion records leaves pending.
use whaletracker.Prelude.{
  ℕ, suc, ◌+◌, ◌≡◌, refl, sym, ap, ◌∙◌, List, [], ◌∷◌, ◌++◌, false, inl, inr, arith, if◌then◌else◌,
  length, Text, text_eq, text_eq_iff, contains, contains-cons, contains-nil, Distinct, append-nil,
  Bool-cases, Option-cases,
}
use whaletracker.Admission.Dedupe.{Dedupe, remember, remember_all}
use whaletracker.Journal.{
  StoredWrite, done, ok, Entry, Loading, Limits, bad_id, get, remove_entry, without_pending,
  forget_pending, note_done, apply_done, apply_record,
}
use whaletracker.Journal.Invariant.{keys, dedupe_of, IsLoading, note_done-remember, get-contains}
use whaletracker.Journal.Keeps.{IsLoading-weaken}
use whaletracker.Journal.Bounds.{note_done_map, counted_done, counted-Forgets, note_done-IsLoading}
use whaletracker.Journal.Load.{writes_of}
use whaletracker.Journal.Order.{write_ids, in_order, in_order-cons, in_order_ids}
use whaletracker.Journal.Encoded.{apply_records, apply_records-step}
use whaletracker.Journal.Phases.{dones, done_ids}

-- The writes that have no completion record.
unfoldable pub unfinished : List Text → List StoredWrite → List StoredWrite
unfinished ids [] = []
unfinished ids (w ∷ ws) =
    let rest = unfinished ids ws in if contains w.event_id ids then rest else w ∷ rest

unfinished-append :
    (ids : List Text) (xs ys : List StoredWrite)
    → unfinished ids (xs ++ ys) ≡ unfinished ids xs ++ unfinished ids ys
unfolding unfinished
unfinished-append ids [] ys = refl
unfinished-append ids (x ∷ xs) ys = ground (arith, unfinished-append ids xs ys)

pub unfinished_none :
    (id : Text) (ws : List StoredWrite)
    → contains id (write_ids ws) ≡ false
    → unfinished (id ∷ []) ws ≡ ws
unfolding unfinished
unfinished_none id [] h = refl
unfinished_none id (w ∷ ws) h = ground (
  arith,
  unfinished_none id ws,
  contains-cons id w.event_id (write_ids ws),
  contains-cons w.event_id id [],
  contains-nil w.event_id,
  text_eq_iff id w.event_id,
  text_eq_iff w.event_id id,
)

unfinished-cons :
    (id : Text) (ids : List Text) (ws : List StoredWrite)
    → unfinished ids (unfinished (id ∷ []) ws) ≡ unfinished (id ∷ ids) ws
unfolding unfinished
unfinished-cons id ids [] = refl
unfinished-cons id ids (w ∷ ws) = ground (
  arith,
  unfinished-cons id ids ws,
  contains-cons w.event_id id [],
  contains-cons w.event_id id ids,
  contains-nil w.event_id,
)

unfinished-nil : (ws : List StoredWrite) → unfinished [] ws ≡ ws
unfolding unfinished
unfinished-nil [] = refl
unfinished-nil (w ∷ ws) = ground (arith, contains-nil w.event_id, unfinished-nil ws)

remove_entry-unfinished :
    (id : Text) (es : List Entry)
    → Distinct (keys es)
    → in_order (remove_entry id es) ≡ unfinished (id ∷ []) (in_order es)
unfolding remove_entry unfinished writes_of
remove_entry-unfinished id [] d = refl
remove_entry-unfinished id (e ∷ es) d = elim (Bool-cases (text_eq id e.write.event_id)) [
  | inl hit ↦
      let same : id ≡ e.write.event_id = (text_eq_iff id e.write.event_id).0 hit in
      ground (
        arith,
        hit,
        in_order-cons e es,
        unfinished-append (id ∷ []) (in_order es) (e.write ∷ []),
        unfinished_none id (in_order es),
        in_order_ids es id,
        contains-cons e.write.event_id id [],
        text_eq_iff e.write.event_id id,
        append-nil (in_order es),
      )
  | inr miss ↦ ground (
    arith,
    miss,
    in_order-cons e es,
    in_order-cons e (remove_entry id es),
    unfinished-append (id ∷ []) (in_order es) (e.write ∷ []),
    remove_entry-unfinished id es d.1,
    contains-cons e.write.event_id id [],
    contains-nil e.write.event_id,
    text_eq_iff e.write.event_id id,
    text_eq_iff id e.write.event_id,
  )
]

forget_pending-unfinished :
    (id : Text) (s : Loading)
    → Distinct (keys s.pending)
    → in_order (forget_pending id s).pending ≡ unfinished (id ∷ []) (in_order s.pending)
unfolding forget_pending without_pending
forget_pending-unfinished id s d = elim (Option-cases (get id s.pending)) [
  | inl missing ↦
      let e : forget_pending id s ≡ s = rw (missing, forget_pending) in
      ap (λ (t : Loading). in_order t.pending) e
      ∙ sym (
          unfinished_none id (in_order s.pending)
            (in_order_ids s.pending id ∙ get-contains id s.pending missing))
  | inr (x, found) ↦
      let e : forget_pending id s ≡ without_pending id x s = rw (found, forget_pending) in
      ap (λ (t : Loading). in_order t.pending) e ∙ remove_entry-unfinished id s.pending d
]

abbrev pub ValidDone : List (Text × ℕ) → Type 0
ValidDone [] = Unit {0}
ValidDone ((id, ts) ∷ ds) = (bad_id id ≡ false) × ValidDone ds

-- The outcome of a run of completion records.
pub record Completed (l : Limits) (n : ℕ) (s : Loading) (ds : List (Text × ℕ)) : Type 0 where
  pub last : ℕ
  pub state : Loading
  pub runs : apply_records l n s (dones ds) ≡ ok state
  pub loading : IsLoading l (suc last) state
  pub writes : in_order state.pending ≡ unfinished (done_ids ds) (in_order s.pending)
  pub completed :
      dedupe_of l.dedupe_capacity state ≡ remember_all (dedupe_of l.dedupe_capacity s) (done_ids ds)
  pub counted : state.done_records ≡ s.done_records + length ds

-- One completion record.
record Finishes (l : Limits) (n : ℕ) (s : Loading) (id : Text) : Type 0 where
  state : Loading
  runs : apply_done l n id s ≡ ok state
  loading : IsLoading l (suc n) state
  writes : in_order state.pending ≡ unfinished (id ∷ []) (in_order s.pending)
  completed : dedupe_of l.dedupe_capacity state ≡ remember (dedupe_of l.dedupe_capacity s) id
  counted : state.done_records ≡ s.done_records + 1

counted_records :
    (id : Text) (s : Loading) (c : ℕ)
    → (note_done c id (counted_done id s)).done_records ≡ s.done_records + 1
unfolding note_done forget_pending without_pending
counted_records id s c = ground arith

apply_done-Finishes :
    (l : Limits) (n : ℕ) (s : Loading) (id : Text)
    → IsLoading l n s
    → bad_id id ≡ false
    → Finishes l n s id
unfolding apply_done
apply_done-Finishes l n s id v valid =
    let u = counted_done id s in
    let f = counted-Forgets l n id s v in
    let after = note_done l.dedupe_capacity id u in
    record {
      state = after;
      runs = ground (arith, valid);
      loading = IsLoading-weaken n (suc n) (omega arith) (note_done-IsLoading l n id s u v f valid);
      writes =
          ap in_order (note_done_map l.dedupe_capacity id u).0
          ∙ forget_pending-unfinished id s v.map_fits.once;
      completed =
          note_done-remember l.dedupe_capacity id u ∙ ground (arith, f.done_same, f.done_set_same);
      counted = counted_records id s l.dedupe_capacity;
    }

pub dones-Completed :
    (ds : List (Text × ℕ)) (l : Limits) (n : ℕ) (s : Loading)
    → IsLoading l (suc n) s
    → ValidDone ds
    → Completed l n s ds
unfolding apply_records apply_record remember_all
dones-Completed [] l n s v ok_ids = record {
  last = n;
  state = s;
  runs = refl;
  loading = v;
  writes = sym (unfinished-nil (in_order s.pending));
  completed = refl;
  counted = omega arith;
}
dones-Completed ((id, ts) ∷ ds) l n s v ok_ids =
    let v' = IsLoading-weaken (suc n) (n + 1) (omega arith) v in
    let f = apply_done-Finishes l (n + 1) s id v' ok_ids.0 in
    let more = dones-Completed ds l (n + 1) f.state f.loading ok_ids.1 in
    record {
      last = more.last;
      state = more.state;
      runs = apply_records-step l n s f.state (done id ts) (dones ds) f.runs ∙ more.runs;
      loading = more.loading;
      writes =
          more.writes
          ∙ ap (unfinished (done_ids ds)) f.writes
          ∙ unfinished-cons id (done_ids ds) (in_order s.pending);
      completed = more.completed ∙ ap (λ (d : Dedupe). remember_all d (done_ids ds)) f.completed;
      counted = omega (arith, more.counted, f.counted);
    }

-- ===== src/Journal/Exclusive.antt =====
-- src/journal_lock.rs: no two open journals own the same lock file.
use whaletracker.Prelude.{
  List, [], ◌∷◌, ◌++◌, false, none, some, ◌≡◌, refl, sym, arith, Text, text_eq_iff, TextSet,
  contains, remove, contains-cons, contains-remove, contains-append, Distinct, Distinct-middle,
  Bool-cases, Option-cases, inl, inr,
}
use whaletracker.Prelude.{◌∙◌, ap, subst, ◌⊎◌, length, ◌==◌}
use whaletracker.Ascii.{trim}
use whaletracker.Journal.Lock.{
  lock_path, journaling_off, OpenError, PathIo, FileIo, Acquired, acquired, refused, acquire,
  try_lock, Owned, Opening, release, open_file, open_journal, Machine, settle, opens, drops, Reach,
  nothing_open, then_step,
}

-- The lock files of the journals that are open.
unfoldable pub locks : List Owned → TextSet
locks [] = []
locks (j ∷ js) = elim j.process_lock [ none ↦ locks js | some lock ↦ lock ∷ locks js ]

-- Every open journal owns a lock file of its own, and no lock file is held for another reason.
pub record IsExclusive (held : TextSet) (js : List Owned) : Type 0 where
  pub apart : Distinct (locks js)
  pub same : (k : Text) → contains k held ≡ contains k (locks js)

locks-none : (j : Owned) (js : List Owned) → j.process_lock ≡ none → locks (j ∷ js) ≡ locks js
unfolding locks
locks-none j js e = rw e

locks-some :
    (j : Owned) (js : List Owned) (lock : Text)
    → j.process_lock ≡ some lock
    → locks (j ∷ js) ≡ lock ∷ locks js
unfolding locks
locks-some j js lock e = rw e

locks-append : (js ks : List Owned) → locks (js ++ ks) ≡ locks js ++ locks ks
unfolding locks
locks-append [] ks = refl
locks-append (j ∷ js) ks = elim (Option-cases j.process_lock) [
  | inl e ↦ rw e (locks-append js ks)
  | inr (lock, e) ↦ rw e (rw (locks-append js ks))
]

acquire-fresh :
    (held : TextSet) (io : PathIo) (lock : Text)
    → acquire held io ≡ acquired lock
    → contains lock held ≡ false
unfolding acquire try_lock
acquire-fresh held io lock e = elim (Bool-cases (io.is_symlink)) [
  | inl h ↦ absurd (ground (arith, h))
  | inr h ↦ elim (Option-cases io.directory) [
    | inl missing ↦ absurd (ground (arith, h, missing))
    | inr (directory, d) ↦ elim (Option-cases io.file_name) [
      | inl missing ↦ absurd (ground (arith, h, d, missing))
      | inr (name, n) ↦ elim (Bool-cases (io.lock_opens)) [
        | inr closed ↦ absurd (ground (arith, h, d, n, closed))
        | inl opened ↦ elim (Bool-cases (contains (lock_path directory name) held)) [
          | inl taken ↦ absurd (ground (arith, h, d, n, opened, taken))
          | inr free ↦ ground (arith, h, d, n, opened, free)
        ]
      ]
    ]
  ]
]

-- A lock that was just taken and is given back leaves the others as they were.
contains-given_back :
    (lock : Text) (held : TextSet) (k : Text)
    → contains lock held ≡ false
    → contains k (release (lock ∷ held) (some lock)) ≡ contains k held
unfolding release
contains-given_back lock held k fresh =
    ground
      (arith, contains-remove k lock (lock ∷ held), contains-cons k lock held, text_eq_iff k lock)

given_back-IsExclusive :
    (lock : Text) (held : TextSet) (js : List Owned)
    → contains lock held ≡ false
    → IsExclusive held js
    → IsExclusive (release (lock ∷ held) (some lock)) js
given_back-IsExclusive lock held js fresh v = record {
  apart = v.apart;
  same = λ k. contains-given_back lock held k fresh ∙ v.same k;
}

taken-IsExclusive :
    (lock : Text) (held : TextSet) (js : List Owned) (j : Owned)
    → j.process_lock ≡ some lock
    → contains lock held ≡ false
    → IsExclusive held js
    → IsExclusive (lock ∷ held) (j ∷ js)
taken-IsExclusive lock held js j owns fresh v =
    let here : locks (j ∷ js) ≡ lock ∷ locks js = locks-some j js lock owns in
    record {
      apart = rw here (sym (v.same lock) ∙ fresh, v.apart);
      same = λ k.
          rw here
            (ground (arith, v.same k, contains-cons k lock held, contains-cons k lock (locks js)));
    }

dropped-none :
    (held : TextSet) (before after : List Owned) (j : Owned)
    → j.process_lock ≡ none
    → IsExclusive held (before ++ j ∷ after)
    → IsExclusive held (before ++ after)
dropped-none held before after j e v =
    let same_locks : locks (before ++ j ∷ after) ≡ locks (before ++ after) =
      locks-append before (j ∷ after)
      ∙ ap (λ t. locks before ++ t) (locks-none j after e)
      ∙ sym (locks-append before after) in
    record {
      apart = subst Distinct same_locks v.apart;
      same = λ k. v.same k ∙ ap (contains k) same_locks;
    }

dropped-some :
    (held : TextSet) (before after : List Owned) (j : Owned) (lock : Text)
    → j.process_lock ≡ some lock
    → IsExclusive held (before ++ j ∷ after)
    → IsExclusive (remove lock held) (before ++ after)
dropped-some held before after j lock e v =
    let split : locks (before ++ j ∷ after) ≡ locks before ++ lock ∷ locks after =
      locks-append before (j ∷ after) ∙ ap (λ t. locks before ++ t) (locks-some j after lock e) in
    let d = (Distinct-middle (locks before) lock (locks after)).0 (subst Distinct split v.apart) in
    record {
      apart = rw (locks-append before after) d.1;
      same = λ k.
          let at = v.same k ∙ ap (contains k) split in
          rw (locks-append before after) (
            ground (
              arith,
              at,
              d,
              contains-remove k lock held,
              contains-append k (locks before) (lock ∷ locks after),
              contains-cons k lock (locks after),
              contains-append k (locks before) (locks after),
              text_eq_iff k lock,
            ));
    }

dropped-IsExclusive :
    (held : TextSet) (before after : List Owned) (j : Owned)
    → IsExclusive held (before ++ j ∷ after)
    → IsExclusive (release held j.process_lock) (before ++ after)
unfolding release
dropped-IsExclusive held before after j v = elim (Option-cases j.process_lock) [
  | inl e ↦ rw e (dropped-none held before after j e v)
  | inr (lock, e) ↦ rw e (dropped-some held before after j lock e v)
]

abbrev Settled : Machine → Opening → Type 0
Settled m o = IsExclusive (settle m o).held (settle m o).journals

open_file-IsExclusive :
    (m : Machine) (lock path : Text) (io : FileIo)
    → contains lock m.held ≡ false
    → IsExclusive m.held m.journals
    → Settled m (open_file (lock ∷ m.held) lock path io)
unfolding open_file settle
open_file-IsExclusive m lock path io fresh v =
    let back = given_back-IsExclusive lock m.held m.journals fresh v in
    elim (Option-cases io.contents) [
      | inl missing ↦ rw missing back
      | inr (contents, e) ↦ elim (Bool-cases (io.file_synced)) [
        | inr bad ↦ rw (e, bad) back
        | inl good ↦ elim (Bool-cases (io.directory_synced)) [
          | inr bad ↦ rw (e, good, bad) back
          | inl fine ↦
              rw (e, good, fine)
                (taken-IsExclusive lock m.held m.journals
                  (record {
                    journal = record { path = some path; file = some contents };
                    process_lock = some lock;
                  })
                  refl fresh v)
        ]
      ]
    ]

off-IsExclusive :
    (held : TextSet) (js : List Owned)
    → IsExclusive held js
    → IsExclusive held (journaling_off ∷ js)
off-IsExclusive held js v =
    let here = locks-none journaling_off js refl in
    record { apart = rw here v.apart; same = λ k. rw here (v.same k) }

Acquired-cases :
    (a : Acquired) → ((lock : Text) × (a ≡ acquired lock)) ⊎ ((e : OpenError) × (a ≡ refused e))
Acquired-cases (acquired lock) = inl (lock, refl)
Acquired-cases (refused e) = inr (e, refl)

open_journal-IsExclusive :
    (m : Machine) (path : Text) (at : PathIo) (io : FileIo)
    → IsExclusive m.held m.journals
    → Settled m (open_journal m.held path at io)
unfolding open_journal settle
open_journal-IsExclusive m path at io v = elim (Bool-cases (length (trim path) == 0)) [
  | inl off ↦ rw off (off-IsExclusive m.held m.journals v)
  | inr on ↦ elim (Acquired-cases (acquire m.held at)) [
    | inr (e, bad) ↦ rw (on, bad) v
    | inl (lock, good) ↦
        rw (on, good) (open_file-IsExclusive m lock path io (acquire-fresh m.held at lock good) v)
  ]
]

-- However the processes of a machine open and drop journals, successfully or not: the journals that
-- are open own lock files that are all different, and a lock file is held exactly while an open
-- journal owns it, so an opening that fails leaves none behind.
pub Reach-IsExclusive : (m : Machine) → Reach m → IsExclusive m.held m.journals
unfolding locks
Reach-IsExclusive _ nothing_open = record { apart = tt; same = λ k. refl }
Reach-IsExclusive v (then_step {m} before (opens path at io e)) =
    rw e (open_journal-IsExclusive m path at io (Reach-IsExclusive m before))
Reach-IsExclusive v (then_step {m} past (drops before after j here e)) = rw e (
    dropped-IsExclusive m.held before after j
      (subst (IsExclusive m.held) here (Reach-IsExclusive m past)))

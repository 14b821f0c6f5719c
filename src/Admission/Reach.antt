-- ===== src/Admission/Reach.antt =====
-- src/admission.rs under any interleaving of the clients that reserve and the jobs that retire.
use whaletracker.Prelude.{
  ℕ, ◌+◌, ◌≤◌, ◌<◌, ◌≡◌, refl, sym, ◌∙◌, List, [], ◌∷◌, ◌++◌, true, false, none, some, arith,
  word_mod, length, subst, Text, TextSet, contains, insert, contains-insert, contains-nil,
  contains-cons, text_eq_iff, Distinct, Distinct-append_left, Distinct-append_apart,
}
use whaletracker.Admission.Held.{ids, bytes_held, Counts, ids-append}
use whaletracker.Admission.Capacity.{
  Sound, reserve-Sound, retire-Sound, bytes_asked, total_bytes-total,
}
use whaletracker.Admission.{
  State, Admission, Spec, Permit, granted, new_admission, check_ids, admit_all, permits_of, exceeds,
  reserve, retire, retire_all,
}

-- One event: a client's batch is granted, or a permit is dropped, wherever it is held.
pub data Step (a : Admission) (held : List Permit) (a' : Admission) (held' : List Permit)
    : Type 0 where
  reserves :
      (specs : List Spec) (new : List Permit)
      → reserve a specs ≡ granted a' new
      → held' ≡ new ++ held
      → Step a held a' held'
  retires :
      (xs : List Permit) (p : Permit) (ys : List Permit)
      → held ≡ xs ++ p ∷ ys
      → retire a p ≡ some a'
      → held' ≡ xs ++ ys
      → Step a held a' held'

pub data Reach (a₀ : Admission) : Admission → List Permit → Type 0 where
  start : Reach a₀ a₀ []
  next :
      {a a' : Admission} {held held' : List Permit}
      → Reach a₀ a held
      → Step a held a' held'
      → Reach a₀ a' held'

Step-Sound :
    {a a' : Admission} {held held' : List Permit}
    → Step a held a' held'
    → Sound a held
    → Sound a' held'
Step-Sound {a} {a'} {held} (reserves specs new e h) v = rw h (reserve-Sound a a' held new specs v e)
Step-Sound {a} {a'} (retires xs p ys h e h') v =
    let (b, done, sound) = retire-Sound a xs p ys (rw h at v) in
    let same : b ≡ a' = cc (done, e) in
    rw h' (subst (λ (o : Admission). Sound o (xs ++ ys)) same sound)

pub new-Sound :
    (rows bytes : ℕ) → rows < word_mod → bytes < word_mod → Sound (new_admission rows bytes) []
unfolding new_admission contains
new-Sound rows bytes r b = record {
  holds = record { counts = omega arith; ids_active = λ j. refl; distinct = tt };
  rows_within = omega arith;
  bytes_within = omega arith;
  rows_fit = r;
  bytes_fit = b;
}

-- With limits that fit in a word, after any interleaving of grants and drops from a new admission
-- the usage counts exactly the permits that are held, the active IDs are exactly theirs, each
-- once, and the limits hold.
pub Reach-Sound :
    (rows bytes : ℕ) {a : Admission} {held : List Permit}
    → rows < word_mod
    → bytes < word_mod
    → Reach (new_admission rows bytes) a held
    → Sound a held
Reach-Sound rows bytes r b start = new-Sound rows bytes r b
Reach-Sound rows bytes r b (next steps s) = Step-Sound s (Reach-Sound rows bytes r b steps)

pub retire_all-Sound :
    (ps held : List Permit) (a : Admission)
    → Sound a (ps ++ held)
    → (b : Admission) × (retire_all a ps ≡ some b) × Sound b held
unfolding retire_all
retire_all-Sound [] held a v = (a, refl, v)
retire_all-Sound (p ∷ ps) held a v =
    let (b, done, sound) = retire-Sound a [] p (ps ++ held) v in
    let (c, rest, end) = retire_all-Sound ps held b sound in (c, rw (done, retire_all) rest, end)

Usage-unique :
    (s t : State) (held : List Permit) → Counts s held → Counts t held → s.usage ≡ t.usage
Usage-unique s t held c d = ground arith

-- Where the usage and the active IDs are those of the permits held and a batch is granted,
-- dropping all the permits of that batch does not panic, and gives the usage and the active IDs of
-- before: a failed publication leaves no trace.
pub retire_all-reserve :
    (a a' : Admission) (held new : List Permit) (specs : List Spec)
    → Sound a held
    → reserve a specs ≡ granted a' new
    → (b : Admission) × (retire_all a' new ≡ some b)
      × (b.state.usage ≡ a.state.usage)
      × ((j : Text) → contains j b.state.active ≡ contains j a.state.active)
retire_all-reserve a a' held new specs v e =
    let (b, done, sound) = retire_all-Sound new held a' (reserve-Sound a a' held new specs v e) in
    (
      b,
      done,
      Usage-unique b.state a.state held sound.holds.counts v.holds.counts,
      λ j. sound.holds.ids_active j ∙ sym (v.holds.ids_active j),
    )

Fresh-tail :
    (x : Spec) (xs : List Spec) (unique active : TextSet)
    → ((j : Text)
        → contains j (ids (permits_of (x ∷ xs))) ≡ true
        → (contains j unique ≡ false) × (contains j active ≡ false))
    → Distinct (ids (permits_of (x ∷ xs)))
    → (j : Text) → contains j (ids (permits_of xs)) ≡ true
    → (contains j (insert x.id unique) ≡ false) × (contains j active ≡ false)
unfolding permits_of
Fresh-tail x xs unique active h d j m = ground (
  arith,
  h j,
  contains-cons j x.id (ids (permits_of xs)),
  contains-insert j x.id unique,
  text_eq_iff j x.id,
)

check_ids_passes :
    (xs : List Spec) (unique active : TextSet)
    → ((j : Text)
        → contains j (ids (permits_of xs)) ≡ true
        → (contains j unique ≡ false) × (contains j active ≡ false))
    → Distinct (ids (permits_of xs))
    → check_ids unique active xs ≡ none
unfolding check_ids permits_of
check_ids_passes [] unique active h d = refl
check_ids_passes (x ∷ xs) unique active h d = ground (
  arith,
  h x.id,
  contains-cons x.id x.id (ids (permits_of xs)),
  text_eq_iff x.id x.id,
  check_ids_passes xs (insert x.id unique) active (Fresh-tail x xs unique active h d) d.1,
)

-- Where the usage and the active IDs are those of the permits held, `reserve` grants every batch
-- that fits in both limits, repeats no ID and uses none that is held.
pub reserve_complete :
    (a : Admission) (held : List Permit) (specs : List Spec)
    → Sound a held
    → length held + length specs ≤ a.row_limit
    → bytes_held held + bytes_asked specs ≤ a.byte_limit
    → Distinct (ids (permits_of specs ++ held))
    → reserve a specs ≡ granted (record a { state = admit_all a.state specs }) (permits_of specs)
unfolding reserve exceeds
reserve_complete a held specs v r b d = ground (
  arith,
  total_bytes-total specs 0,
  check_ids_passes specs [] a.state.active
      (λ j m. (
        contains-nil j,
        v.holds.ids_active j
            ∙ Distinct-append_apart (ids (permits_of specs)) (ids held) j
                (rw (ids-append (permits_of specs) held) at d) m,
      ))
      (Distinct-append_left _ (ids held) (rw (ids-append (permits_of specs) held) at d)),
)

-- ===== src/Admission/Capacity.antt =====
-- src/admission.rs, `reserve` and `Drop for Permit` against the permits that are held.
use whaletracker.Prelude.{
  ℕ, suc, ◌+◌, ◌≤◌, ◌<◌, ◌≡◌, inl, inr, refl, sym, ap, ◌∙◌, List, [], ◌∷◌, ◌++◌, false, not, ◌&&◌,
  ◌||◌, none, some, arith, word_mod, Option-cases, length, length-append, Text, TextSet, text_eq,
  contains, insert, contains-insert, contains-remove, contains-cons, text_eq_iff,
}
use whaletracker.Sql.Lane.{online, stats, logs, lane_eq, at_lane, set_lane}
use whaletracker.Admission.Held.{
  ids, bytes_held, in_lane-le, Counts, Holds, Holds-middle, bytes_held-append,
}
use whaletracker.Admission.{
  State, Admission, Spec, Permit, granted, total_bytes, check_ids, permit_of, admit, admit_all,
  permits_of, exceeds, reserve, retired, retire,
}

-- The permits that are held, and the limits that they keep.
pub record Sound (a : Admission) (held : List Permit) : Type 0 where
  pub holds : Holds a.state held
  pub rows_within : length held ≤ a.row_limit
  pub bytes_within : bytes_held held ≤ a.byte_limit
  pub rows_fit : a.row_limit < word_mod
  pub bytes_fit : a.byte_limit < word_mod

admit-Counts :
    (s : State) (x : Spec) (held : List Permit)
    → Counts s held
    → suc (length held) < word_mod
    → bytes_held held + x.bytes < word_mod
    → Counts (admit s x) (permit_of x ∷ held)
unfolding admit at_lane set_lane lane_eq
admit-Counts s x held c r b =
    ground (arith, in_lane-le online held, in_lane-le stats held, in_lane-le logs held)

admit-Holds :
    (s : State) (x : Spec) (held : List Permit)
    → Holds s held
    → contains x.id s.active ≡ false
    → suc (length held) < word_mod
    → bytes_held held + x.bytes < word_mod
    → Holds (admit s x) (permit_of x ∷ held)
unfolding admit
admit-Holds s x held h fresh r b = record {
  counts = admit-Counts s x held h.counts r b;
  ids_active = λ j.
      ground
        (arith, contains-insert j x.id s.active, contains-cons j x.id (ids held), h.ids_active j);
  distinct = (sym (h.ids_active x.id) ∙ fresh, h.distinct);
}

abbrev pub bytes_asked : List Spec → ℕ
bytes_asked [] = 0
bytes_asked (x ∷ xs) = x.bytes + bytes_asked xs

total_bytes-eq :
    (xs : List Spec) (sum total : ℕ)
    → total_bytes sum xs ≡ some total
    → total ≡ sum + bytes_asked xs
unfolding total_bytes
total_bytes-eq [] sum total e = ground arith
total_bytes-eq (x ∷ xs) sum total e = ground (arith, total_bytes-eq xs (sum + x.bytes) total)

pub total_bytes-total :
    (xs : List Spec) (sum : ℕ)
    → sum + bytes_asked xs < word_mod
    → total_bytes sum xs ≡ some (sum + bytes_asked xs)
unfolding total_bytes
total_bytes-total [] sum h = ground arith
total_bytes-total (x ∷ xs) sum h = ground (arith, total_bytes-total xs (sum + x.bytes))

admit_active :
    (j : Text) (s : State) (x : Spec)
    → contains j (admit s x).active ≡ (text_eq j x.id || contains j s.active)
unfolding admit
admit_active j s x = contains-insert j x.id s.active

admit_all-Holds :
    (xs : List Spec) (unique active : TextSet) (s : State) (held : List Permit)
    → ((j : Text) → contains j s.active ≡ (contains j unique || contains j active))
    → check_ids unique active xs ≡ none
    → Holds s held
    → length held + length xs < word_mod
    → bytes_held held + bytes_asked xs < word_mod
    → Holds (admit_all s xs) (permits_of xs ++ held)
unfolding admit_all permits_of check_ids
admit_all-Holds [] unique active s held same ok h r b = h
admit_all-Holds (x ∷ xs) unique active s held same ok h r b =
    (Holds-middle (permits_of xs) (permit_of x) held).0 (
      admit_all-Holds xs (insert x.id unique) active (admit s x) (permit_of x ∷ held)
        (λ j. ground (arith, admit_active j s x, contains-insert j x.id unique, same j))
        (ground arith)
        (admit-Holds s x held h (ground (arith, same x.id)) (omega arith) (omega arith))
        (omega arith) (omega arith))

pub length-permits_of : (xs : List Spec) → length (permits_of xs) ≡ length xs
unfolding permits_of
length-permits_of [] = refl
length-permits_of (x ∷ xs) = ap suc (length-permits_of xs)

bytes_held-permits_of : (xs : List Spec) → bytes_held (permits_of xs) ≡ bytes_asked xs
unfolding permits_of
bytes_held-permits_of [] = refl
bytes_held-permits_of (x ∷ xs) = omega (arith, bytes_held-permits_of xs)

-- What the guards of `reserve` have established when it grants.
record Grants (a : Admission) (specs : List Spec) (a' : Admission) (new : List Permit)
    : Type 0 where
  fits : exceeds a (length specs) (bytes_asked specs) ≡ false
  fresh : check_ids [] a.state.active specs ≡ none
  after : a' ≡ record a { state = admit_all a.state specs }
  permits : new ≡ permits_of specs

reserve-Grants :
    (a a' : Admission) (new : List Permit) (specs : List Spec)
    → reserve a specs ≡ granted a' new
    → Grants a specs a' new
unfolding reserve
reserve-Grants a a' new specs e = elim (Option-cases (total_bytes 0 specs)) [
  | inl n ↦ cc (rw (n, reserve) at e)
  | inr (total, t) ↦ ground (arith, t, total_bytes-eq specs 0 total t)
]

pub reserve_permits :
    (a a' : Admission) (new : List Permit) (specs : List Spec)
    → reserve a specs ≡ granted a' new
    → new ≡ permits_of specs
reserve_permits a a' new specs e = (reserve-Grants a a' new specs e).permits

-- Where the usage and the active IDs are those of the permits held, within limits that fit in a
-- word, and a batch is granted, they are those of the permits held and the new ones, and the limits
-- still hold.
pub reserve-Sound :
    (a a' : Admission) (held new : List Permit) (specs : List Spec)
    → Sound a held
    → reserve a specs ≡ granted a' new
    → Sound a' (new ++ held)
unfolding exceeds contains
reserve-Sound a a' held new specs v e =
    let g = reserve-Grants a a' new specs e in
    rw (g.after, g.permits)
      (record {
        holds =
            admit_all-Holds specs [] a.state.active a.state held (λ j. refl) g.fresh v.holds
              (ground (arith, g.fits)) (ground (arith, g.fits));
        rows_within =
            ground (arith, g.fits, length-append (permits_of specs) held, length-permits_of specs);
        bytes_within =
            ground (
              arith,
              g.fits,
              bytes_held-append (permits_of specs) held,
              bytes_held-permits_of specs,
            );
        rows_fit = v.rows_fit;
        bytes_fit = v.bytes_fit;
      })

retired-Counts :
    (a : Admission) (p : Permit) (held : List Permit)
    → Sound a (p ∷ held)
    → Counts (retired a p).state held
unfolding retired at_lane set_lane lane_eq
retired-Counts a p held v =
    ground (arith, in_lane-le online held, in_lane-le stats held, in_lane-le logs held)

retired_active :
    (a : Admission) (p : Permit) (j : Text)
    → contains j (retired a p).state.active ≡ (not (text_eq j p.id) && contains j a.state.active)
unfolding retired
retired_active a p j = contains-remove j p.id a.state.active

retired-Sound :
    (a : Admission) (p : Permit) (held : List Permit)
    → Sound a (p ∷ held)
    → Sound (retired a p) held
unfolding retired
retired-Sound a p held v = record {
  holds = record {
    counts = retired-Counts a p held v;
    ids_active = λ j. ground (
      arith,
      retired_active a p j,
      v.holds.ids_active j,
      contains-cons j p.id (ids held),
      v.holds.distinct,
      text_eq_iff j p.id,
    );
    distinct = v.holds.distinct.1;
  };
  rows_within = omega arith;
  bytes_within = omega arith;
  rows_fit = v.rows_fit;
  bytes_fit = v.bytes_fit;
}

Sound-middle :
    (a : Admission) (xs : List Permit) (p : Permit) (ys : List Permit)
    → Sound a (xs ++ p ∷ ys)
    → Sound a (p ∷ (xs ++ ys))
Sound-middle a xs p ys v = record {
  holds = (Holds-middle xs p ys).0 v.holds;
  rows_within = omega (arith, length-append xs (p ∷ ys), length-append xs ys, v.rows_within);
  bytes_within =
      omega (arith, bytes_held-append xs (p ∷ ys), bytes_held-append xs ys, v.bytes_within);
  rows_fit = v.rows_fit;
  bytes_fit = v.bytes_fit;
}

-- The permit in front may stand anywhere.
pub Sound-move :
    (a : Admission) (xs : List Permit) (p : Permit) (ys : List Permit)
    → Sound a (p ∷ (xs ++ ys))
    → Sound a (xs ++ p ∷ ys)
Sound-move a xs p ys v = record {
  holds = (Holds-middle xs p ys).1 v.holds;
  rows_within = omega (arith, length-append xs (p ∷ ys), length-append xs ys, v.rows_within);
  bytes_within =
      omega (arith, bytes_held-append xs (p ∷ ys), bytes_held-append xs ys, v.bytes_within);
  rows_fit = v.rows_fit;
  bytes_fit = v.bytes_fit;
}

-- Where the usage and the active IDs are those of the permits held, within the limits, any of them
-- may be dropped, whatever its place: the drop does not panic, and afterwards the usage and the
-- active IDs are exactly those of the others.
pub retire-Sound :
    (a : Admission) (xs : List Permit) (p : Permit) (ys : List Permit)
    → Sound a (xs ++ p ∷ ys)
    → (a' : Admission) × (retire a p ≡ some a') × Sound a' (xs ++ ys)
unfolding retire
retire-Sound a xs p ys v =
    let front = Sound-middle a xs p ys v in
    (
      retired a p,
      ground (
        arith,
        front.holds.ids_active p.id,
        contains-cons p.id p.id (ids (xs ++ ys)),
        text_eq_iff p.id p.id,
      ),
      retired-Sound a p (xs ++ ys) front,
    )

-- Where the usage and the active IDs are those of the permits held, one that was held and has been
-- dropped cannot be dropped again: the assertion panics.
pub retire_twice :
    (a : Admission) (p : Permit) (held : List Permit)
    → Sound a (p ∷ held)
    → retire (retired a p) p ≡ none
unfolding retire
retire_twice a p held v =
    rw (retired_active a p p.id, text_eq_iff p.id p.id) (ground (arith, text_eq_iff p.id p.id))

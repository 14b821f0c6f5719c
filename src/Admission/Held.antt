-- ===== src/Admission/Held.antt =====
-- What the state of `Admission` says of the permits that are held, whatever their order.
use whaletracker.Prelude.{
  ℕ, ◌+◌, ◌≤◌, ◌≡◌, ◌↔◌, refl, List, [], ◌∷◌, ◌++◌, arith, if◌then◌else◌, length, length-append,
  Text, TextSet, contains, Distinct, Distinct-middle, contains-append, contains-cons, sym, ◌∙◌,
}
use whaletracker.Sql.Lane.{Lane, online, stats, logs, lane_eq}
use whaletracker.Admission.{State, Permit}

abbrev pub ids : List Permit → TextSet
ids [] = []
ids (p ∷ ps) = p.id ∷ ids ps

abbrev pub bytes_held : List Permit → ℕ
bytes_held [] = 0
bytes_held (p ∷ ps) = p.bytes + bytes_held ps

abbrev pub in_lane : Lane → List Permit → ℕ
in_lane l [] = 0
in_lane l (p ∷ ps) = (if lane_eq p.lane l then 1 else 0) + in_lane l ps

pub record Counts (s : State) (ps : List Permit) : Type 0 where
  pub rows : s.usage.rows ≡ length ps
  pub bytes : s.usage.bytes ≡ bytes_held ps
  pub onlines : s.usage.lanes.at_online ≡ in_lane online ps
  pub statses : s.usage.lanes.at_stats ≡ in_lane stats ps
  pub logses : s.usage.lanes.at_logs ≡ in_lane logs ps

-- The usage counts the permits, and the active IDs are theirs, each once.
pub record Holds (s : State) (ps : List Permit) : Type 0 where
  pub counts : Counts s ps
  pub ids_active : (j : Text) → contains j s.active ≡ contains j (ids ps)
  pub distinct : Distinct (ids ps)

pub ids-append : (xs ys : List Permit) → ids (xs ++ ys) ≡ ids xs ++ ids ys
ids-append [] ys = refl
ids-append (x ∷ xs) ys = ground (arith, ids-append xs ys)

pub bytes_held-append :
    (xs ys : List Permit) → bytes_held (xs ++ ys) ≡ bytes_held xs + bytes_held ys
bytes_held-append [] ys = omega arith
bytes_held-append (x ∷ xs) ys = omega (arith, bytes_held-append xs ys)

pub in_lane-append :
    (l : Lane) (xs ys : List Permit) → in_lane l (xs ++ ys) ≡ in_lane l xs + in_lane l ys
in_lane-append l [] ys = omega arith
in_lane-append l (x ∷ xs) ys = omega (arith, in_lane-append l xs ys)

pub in_lane-le : (l : Lane) (ps : List Permit) → in_lane l ps ≤ length ps
in_lane-le l [] = omega arith
in_lane-le l (p ∷ ps) = ground (arith, in_lane-le l ps)

module _ (xs : List Permit) (p : Permit) (ys : List Permit) where
  pub ids-middle : ids (xs ++ p ∷ ys) ≡ ids xs ++ p.id ∷ ids ys
  ids-middle = ids-append xs (p ∷ ys)

  contains-middle : (j : Text) → contains j (ids (xs ++ p ∷ ys)) ≡ contains j (ids (p ∷ (xs ++ ys)))
  contains-middle j = ground (
    arith,
    ids-append xs (p ∷ ys),
    ids-append xs ys,
    contains-append j (ids xs) (p.id ∷ ids ys),
    contains-append j (ids xs) (ids ys),
    contains-cons j p.id (ids ys),
    contains-cons j p.id (ids xs ++ ids ys),
  )

  lane-middle : (l : Lane) → in_lane l (xs ++ p ∷ ys) ≡ in_lane l (p ∷ (xs ++ ys))
  lane-middle l = omega (arith, in_lane-append l xs (p ∷ ys), in_lane-append l xs ys)

  Counts-middle : {s : State} → Counts s (xs ++ p ∷ ys) → Counts s (p ∷ (xs ++ ys))
  Counts-middle c = omega (
    arith,
    length-append xs (p ∷ ys),
    length-append xs ys,
    bytes_held-append xs (p ∷ ys),
    bytes_held-append xs ys,
    lane-middle online,
    lane-middle stats,
    lane-middle logs,
  )

  Counts-middle' : {s : State} → Counts s (p ∷ (xs ++ ys)) → Counts s (xs ++ p ∷ ys)
  Counts-middle' c = omega (
    arith,
    length-append xs (p ∷ ys),
    length-append xs ys,
    bytes_held-append xs (p ∷ ys),
    bytes_held-append xs ys,
    lane-middle online,
    lane-middle stats,
    lane-middle logs,
  )

  ids-Distinct : Distinct (ids (xs ++ p ∷ ys)) ↔ Distinct (ids (p ∷ (xs ++ ys)))
  ids-Distinct = (
    λ h. rw (ids-append xs ys) ((Distinct-middle (ids xs) p.id (ids ys)).0 (rw ids-middle at h)),
    λ h. rw ids-middle ((Distinct-middle (ids xs) p.id (ids ys)).1 (rw (ids-append xs ys) at h)),
  )

  -- A permit may be brought to the front of what is held.
  pub Holds-middle : {s : State} → Holds s (xs ++ p ∷ ys) ↔ Holds s (p ∷ (xs ++ ys))
  Holds-middle = (
    λ h. record {
      counts = Counts-middle h.counts;
      ids_active = λ j. h.ids_active j ∙ contains-middle j;
      distinct = ids-Distinct.0 h.distinct;
    },
    λ h. record {
      counts = Counts-middle' h.counts;
      ids_active = λ j. h.ids_active j ∙ sym (contains-middle j);
      distinct = ids-Distinct.1 h.distinct;
    },
  )

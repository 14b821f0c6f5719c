-- ===== src/PointsCache/Debounce.antt =====
-- src/points_cache.rs: invalidations that keep coming put a rebuild off for a bounded time only.
use whaletracker.Prelude.{
  ℕ, ◌+◌, ◌≤◌, ◌<◌, ◌≡◌, refl, arith, List, [], ◌∷◌, Option, none, some, length, ◌∙◌,
}
use whaletracker.PointsCache.{
  StateRow, read_state, eligible_generation, persist_invalidation, acknowledge, Tables,
  truncate_build, fill_build, swap_tables, rebuild, rebuild_locked,
}

-- The row after one invalidation at each time.
unfoldable pub persist_all : Option StateRow → List ℕ → Option StateRow
persist_all row [] = row
persist_all row (now ∷ later) = persist_all (some (persist_invalidation row now)) later

abbrev pub IsClean : Option StateRow → Type 0
IsClean none = Unit {0}
IsClean (some row) = row.dirty ≡ 0

abbrev pub generation_of : Option StateRow → ℕ
generation_of none = 0
generation_of (some row) = row.dirty_generation

-- Dirty since a time that later invalidations leave.
record Waiting (since generation : ℕ) (row : StateRow) : Type 0 where
  is_dirty : row.dirty ≡ 1
  since_then : row.dirty_since ≡ since
  at_generation : row.dirty_generation ≡ generation

persist-Waiting :
    (row : StateRow) (since generation now : ℕ)
    → 0 < since
    → Waiting since generation row
    → Waiting since (generation + 1) (persist_invalidation (some row) now)
unfolding persist_invalidation
persist-Waiting row since generation now p w = ground arith

first-Waiting :
    (row : Option StateRow) (now : ℕ)
    → IsClean row
    → Waiting now (generation_of row + 1) (persist_invalidation row now)
unfolding persist_invalidation
first-Waiting none now c = record { is_dirty = refl; since_then = refl; at_generation = refl }
first-Waiting (some row) now c = ground arith

Waiting-eligible :
    (row : StateRow) (since generation now debounce wait : ℕ)
    → 0 < since
    → since + wait ≤ now
    → Waiting since generation row
    → eligible_generation (read_state (some row) now) debounce wait ≡ some generation
unfolding eligible_generation read_state
Waiting-eligible row since generation now debounce wait p le w = ground arith

persist_all-Waiting :
    (times : List ℕ) (row : StateRow) (since generation : ℕ)
    → 0 < since
    → Waiting since generation row
    → (last : StateRow) × (persist_all (some row) times ≡ some last)
      × Waiting since (generation + length times) last
unfolding persist_all
persist_all-Waiting [] row since generation p w = (row, refl, ground arith)
persist_all-Waiting (now ∷ times) row since generation p w =
    let (last, e, v) =
      persist_all-Waiting times (persist_invalidation (some row) now) since (generation + 1) p
        (persist-Waiting row since generation now p w) in
    (last, e, ground arith)

-- No statement but the last changes the row.
rebuild_locked-chosen :
    (t : Tables) (now debounce wait generation : ℕ)
    → eligible_generation (read_state t.row now) debounce wait ≡ some generation
    → ((rebuild_locked t now debounce wait).cache ≡ t.source)
      × ((rebuild_locked t now debounce wait).row ≡ acknowledge t.row generation)
unfolding rebuild_locked rebuild truncate_build fill_build swap_tables
rebuild_locked-chosen t now debounce wait generation el = rw (el, rebuild_locked) (refl, refl)

acknowledge-Waiting :
    (row : StateRow) (since generation now debounce wait : ℕ)
    → Waiting since generation row
    → eligible_generation (read_state (acknowledge (some row) generation) now) debounce wait ≡ none
unfolding acknowledge read_state eligible_generation
acknowledge-Waiting row since generation now debounce wait w = ground arith

rebuild_locked-Waiting :
    (t : Tables) (row : StateRow) (since generation now debounce wait : ℕ)
    → t.row ≡ some row
    → Waiting since generation row
    → eligible_generation (read_state t.row now) debounce wait ≡ some generation
    → ((rebuild_locked t now debounce wait).cache ≡ t.source)
      × ((then' : ℕ)
          → eligible_generation
              (read_state (rebuild_locked t now debounce wait).row then')
              debounce
              wait
            ≡ none)
rebuild_locked-Waiting t row since generation now debounce wait e w el =
    let (cached, acked) = rebuild_locked-chosen t now debounce wait generation el in
    (
      cached,
      λ then'. rw (acked, e) (acknowledge-Waiting row since generation then' debounce wait w),
    )

-- From a row that is clean or missing, after invalidations at any times the first of which is not
-- 0: once the longest wait since the first has passed, however short ago the last one was, a
-- rebuild that no other writer comes between computes the cache from the source tables and
-- clears exactly the last generation, so that no later poll finds it eligible.
pub rebuild_locked-persist_all :
    (t : Tables) (row : Option StateRow) (first now debounce wait : ℕ) (later : List ℕ)
    → IsClean row
    → 0 < first
    → first + wait ≤ now
    → t.row ≡ persist_all row (first ∷ later)
    → (eligible_generation (read_state t.row now) debounce wait
        ≡ some (generation_of row + 1 + length later))
      × ((rebuild_locked t now debounce wait).cache ≡ t.source)
      × ((then' : ℕ)
          → eligible_generation
              (read_state (rebuild_locked t now debounce wait).row then')
              debounce
              wait
            ≡ none)
unfolding persist_all rebuild_locked
rebuild_locked-persist_all t row first now debounce wait later c p le e =
    let (last, whole, w) =
      persist_all-Waiting later (persist_invalidation row first) first (generation_of row + 1) p
        (first-Waiting row first c) in
    let el : eligible_generation (read_state t.row now) debounce wait
        ≡ some (generation_of row + 1 + length later) =
      rw (e ∙ whole) (Waiting-eligible last first _ now debounce wait p le w) in
    let (cached, clear) =
      rebuild_locked-Waiting t last first _ now debounce wait (e ∙ whole) w el in
    (el, cached, clear)

-- ===== src/PointsCache.antt =====
-- src/points_cache.rs: the state row, what a poll does with it, and the worker of each instance.
-- The source tables are their version, which a write raises; a table of points is the version that
-- it was computed from. Times are in milliseconds.
pub mod Steps
pub mod Debounce
pub mod Good
pub mod Fresh
use whaletracker.Prelude.{
  ℕ, ◌+◌, Bool, true, false, ◌&&◌, Option, none, some, ◌==◌, ltb, leb, if◌then◌else◌,
  saturating_sub, codes,
}
use whaletracker.Config.{Config, bind_port, Environment, number, clamp}

-- The row 'global' of whaletracker_points_cache_state, less its reason and its time of rebuilding.
pub record StateRow : Type 0 where
  pub dirty : ℕ
  pub dirty_updated_at : ℕ
  pub dirty_generation : ℕ
  pub dirty_since : ℕ

-- `SELECT dirty, dirty_updated_at, dirty_generation, dirty_since`, with the server's time.
pub record CacheState : Type 0 where
  pub row : StateRow
  pub now : ℕ

unfoldable pub read_state : Option StateRow → ℕ → Option CacheState
read_state none now = none
read_state (some row) now = some (record { row = row; now = now })

-- A time that is 0 stands for the last update.
abbrev since_of : StateRow → ℕ
since_of row = if row.dirty_since == 0 then row.dirty_updated_at else row.dirty_since

unfoldable pub eligible_generation : Option CacheState → ℕ → ℕ → Option ℕ
eligible_generation none debounce_ms max_wait_ms = none
eligible_generation (some s) debounce_ms max_wait_ms =
    if s.row.dirty == 0
    then none
    else if ltb (saturating_sub s.now s.row.dirty_updated_at) debounce_ms
        && ltb (saturating_sub s.now (since_of s.row)) max_wait_ms
    then none
    else some s.row.dirty_generation

-- `INSERT … ON DUPLICATE KEY UPDATE`, whose assignments run from left to right: `dirty_since` is
-- set from the old `dirty`.
unfoldable pub persist_invalidation : Option StateRow → ℕ → StateRow
persist_invalidation none now = record {
  dirty = 1;
  dirty_updated_at = now;
  dirty_generation = 1;
  dirty_since = now;
}
persist_invalidation (some row) now = record {
  dirty = 1;
  dirty_updated_at = now;
  dirty_generation = row.dirty_generation + 1;
  dirty_since =
      if row.dirty == 0 then now else if row.dirty_since == 0 then now else row.dirty_since;
}

-- `UPDATE … WHERE dirty = 1 AND dirty_generation = :generation`.
unfoldable pub acknowledge : Option StateRow → ℕ → Option StateRow
acknowledge none generation = none
acknowledge (some row) generation =
    if row.dirty == 1 && row.dirty_generation == generation
    then some (record row { dirty = 0; dirty_since = 0 })
    else some row

-- The database: the source tables, the two tables of points, and the row.
pub record Tables : Type 0 where
  pub source : ℕ
  pub cache : ℕ
  pub build : Option ℕ
  pub row : Option StateRow

-- The statements of `rebuild`: TRUNCATE empties the build table, INSERT fills it from the source
-- tables, RENAME exchanges it with the cache in one step.
unfoldable pub truncate_build : Tables → Tables
truncate_build t = record t { build = none }

unfoldable pub fill_build : Tables → Tables
fill_build t = record t { build = some t.source }

unfoldable pub swap_tables : Tables → Tables
swap_tables t = elim t.build [
  | none ↦ t
  | some version ↦ record t { cache = version; build = some t.cache }
]

unfoldable pub rebuild : Tables → Tables
unfolding truncate_build fill_build swap_tables
rebuild t = swap_tables (fill_build (truncate_build t))

-- The operation under the lock, where no other writer comes between.
unfoldable pub rebuild_locked : Tables → ℕ → ℕ → ℕ → Tables
unfolding read_state eligible_generation rebuild acknowledge
rebuild_locked t now debounce_ms max_wait_ms =
    elim (eligible_generation (read_state t.row now) debounce_ms max_wait_ms) [
      | none ↦ t
      | some generation ↦
          let rebuilt = rebuild t in record rebuilt { row = acknowledge rebuilt.row generation }
    ]

-- `PointsCache` and its worker's locals; `taken` is an invalidation that the worker has swapped
-- out of `pending` and not persisted yet.
pub record Worker : Type 0 where
  pub pending : Bool
  pub taken : Bool
  pub last_touch : Option ℕ

unfoldable pub new_worker : Worker
new_worker = record { pending = true; taken = false; last_touch = none }

unfoldable pub mark_dirty : Worker → Worker
mark_dirty w = record w { pending = true }

unfoldable pub may_touch : Config → Worker → ℕ → Bool
may_touch cfg w now = elim w.last_touch [
  | none ↦ true
  | some last ↦ leb cfg.cache_touch (saturating_sub now last)
]

-- `self.pending.swap(false)`.
unfoldable pub take_pending : Worker → Worker
take_pending w = record w { pending = false; taken = w.pending }

unfoldable pub persisted : Worker → ℕ → Worker
persisted w now = record w { taken = false; last_touch = some now }

unfoldable pub retained : Worker → Worker
retained w = record w { pending = true; taken = false }

-- `max_wait`, in milliseconds.
unfoldable pub max_wait : Environment → ℕ
unfolding number clamp
max_wait env = clamp (number env (codes "WT_POINTS_CACHE_MAX_WAIT_MS") 30000) 1 3600000

unfoldable pub owns_cache : Config → Bool
owns_cache cfg = bind_port cfg == cfg.cache_owner_port

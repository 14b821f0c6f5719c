-- ===== src/PointsCache/Steps.antt =====
-- src/points_cache.rs: every interleaving of the writes, the workers of all the instances, and the
-- rebuild of the one that holds the named lock.
use whaletracker.Prelude.{ℕ, ◌+◌, ◌≤◌, ◌≡◌, true, false, Option, some, ◌==◌, if◌then◌else◌}
use whaletracker.Config.{Config}
use whaletracker.PointsCache.{
  StateRow, read_state, eligible_generation, persist_invalidation, acknowledge, Tables,
  truncate_build, fill_build, swap_tables, Worker, new_worker, mark_dirty, may_touch, take_pending,
  persisted, retained, owns_cache,
}

-- The statement that the holder of the lock executes next.
pub data Builder : Type 0 where
  unlocked locked : Builder
  chosen emptied filled swapped : ℕ → Builder

-- The instances are numbered; `unmarked` counts the writes that are committed and whose job has
-- not called `mark_dirty` yet.
pub record World : Type 0 where
  pub tables : Tables
  pub workers : ℕ → Worker
  pub unmarked : ℕ
  pub builder : Builder

abbrev pub update : (ℕ → Worker) → ℕ → Worker → ℕ → Worker
update workers i w j = if j == i then w else workers j

abbrev pub with_row : Tables → Option StateRow → Tables
with_row t r = record t { row = r }

-- Before the first write: nothing is computed yet, and every instance starts with an invalidation.
unfoldable pub start : Tables → World
unfolding new_worker
start tables = record {
  tables = tables;
  workers = λ i. new_worker;
  unmarked = 0;
  builder = unlocked;
}

-- The configuration and the longest wait of each instance.
module _ (cfg : ℕ → Config) (max_wait : ℕ → ℕ) where
  pub data Step (w v : World) : Type 0 where
    -- A write that changes the source tables, and later its job's `mark_dirty`.
    commits :
        v ≡ record w {
          tables = record (w.tables) { source = w.tables.source + 1 };
          unmarked = w.unmarked + 1;
        }
        → Step w v
    marks :
        (i n : ℕ)
        → w.unmarked ≡ n + 1
        → v ≡ record w { workers = update w.workers i (mark_dirty (w.workers i)); unmarked = n }
        → Step w v
    -- `worker_loop`: the swap, and what `persist_invalidation` comes to. A statement that fails may
    -- have been executed all the same.
    takes :
        (i now : ℕ)
        → may_touch (cfg i) (w.workers i) now ≡ true
        → (w.workers i).taken ≡ false
        → v ≡ record w { workers = update w.workers i (take_pending (w.workers i)) }
        → Step w v
    persists :
        (i now : ℕ)
        → (w.workers i).taken ≡ true
        → v ≡ record w {
          tables = with_row w.tables (some (persist_invalidation w.tables.row now));
          workers = update w.workers i (persisted (w.workers i) now);
        }
        → Step w v
    fails :
        (i : ℕ)
        → (w.workers i).taken ≡ true
        → v ≡ record w { workers = update w.workers i (retained (w.workers i)) }
        → Step w v
    fails_late :
        (i now : ℕ)
        → (w.workers i).taken ≡ true
        → v ≡ record w {
          tables = with_row w.tables (some (persist_invalidation w.tables.row now));
          workers = update w.workers i (retained (w.workers i));
        }
        → Step w v
    -- An instance stops, with jobs that will not mark, and starts again.
    restarts :
        (i n : ℕ)
        → n ≤ w.unmarked
        → v ≡ record w { workers = update w.workers i new_worker; unmarked = n }
        → Step w v
    -- `poll_and_rebuild`: the lock, the state read again under it, then the statements.
    locks :
        (i : ℕ)
        → owns_cache (cfg i) ≡ true
        → w.builder ≡ unlocked
        → v ≡ record w { builder = locked }
        → Step w v
    chooses :
        (i now generation : ℕ)
        → w.builder ≡ locked
        → eligible_generation (read_state w.tables.row now) (cfg i).cache_debounce (max_wait i)
          ≡ some generation
        → v ≡ record w { builder = chosen generation }
        → Step w v
    truncates :
        (generation : ℕ)
        → w.builder ≡ chosen generation
        → v ≡ record w { tables = truncate_build w.tables; builder = emptied generation }
        → Step w v
    fills :
        (generation : ℕ)
        → w.builder ≡ emptied generation
        → v ≡ record w { tables = fill_build w.tables; builder = filled generation }
        → Step w v
    swaps :
        (generation : ℕ)
        → w.builder ≡ filled generation
        → v ≡ record w { tables = swap_tables w.tables; builder = swapped generation }
        → Step w v
    acknowledges :
        (generation : ℕ)
        → w.builder ≡ swapped generation
        → v ≡ record w {
          tables = with_row w.tables (acknowledge w.tables.row generation);
          builder = unlocked;
        }
        → Step w v
    -- No generation is eligible, a statement fails, or the session ends: the lock is free again.
    gives_up : v ≡ record w { builder = unlocked } → Step w v

  pub data Reach (w₀ : World) : World → Type 0 where
    here : Reach w₀ w₀
    next : {w v : World} → Reach w₀ w → Step w v → Reach w₀ v

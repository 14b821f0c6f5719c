-- ===== src/Tests/Cached.antt =====
-- src/points_cache.rs and src/database.rs: an invalidation in the middle of a rebuild, invalidations
-- that keep coming, and a lock whose release fails.
use whaletracker.Prelude.{ℕ, ◌+◌, ◌≡◌, refl, arith, [], ◌∷◌, true, false, Option, none, some}
use whaletracker.Config.{Config, from_env}
use whaletracker.Database.{row, failed, null, Ran, ran, Server, with_named_lock}
use whaletracker.Database.Lock.{Honest, NotLocked, with_named_lock-NotLocked}
use whaletracker.PointsCache.{
  StateRow, read_state, eligible_generation, persist_invalidation, acknowledge, Tables,
  rebuild_locked, truncate_build, fill_build, swap_tables, take_pending, persisted,
}
use whaletracker.PointsCache.Steps.{
  World, start, unlocked, locked, chosen, emptied, filled, swapped, update, with_row,
}
use whaletracker.PointsCache.Debounce.{persist_all, rebuild_locked-persist_all}

abbrev clean : Option StateRow
clean = some (record { dirty = 0; dirty_updated_at = 90; dirty_generation = 7; dirty_since = 0 })

-- Written five times, and computed three writes ago.
abbrev behind : Tables
behind = record {
  source = 5;
  cache = 2;
  build = none;
  row = persist_all clean (100 ∷ 130 ∷ 160 ∷ []);
}

too_early : eligible_generation (read_state behind.row 169) 20 70 ≡ none
unfolding eligible_generation read_state persist_all persist_invalidation
too_early = refl

rebuild_locked-persist_all_example :
    (eligible_generation (read_state behind.row 170) 20 70 ≡ some (7 + 1 + 2))
    × ((rebuild_locked behind 170 20 70).cache ≡ 5)
    × ((later : ℕ)
        → eligible_generation (read_state (rebuild_locked behind 170 20 70).row later) 20 70 ≡ none)
rebuild_locked-persist_all_example =
    rebuild_locked-persist_all behind clean 100 170 20 70 (130 ∷ 160 ∷ []) refl (omega arith)
      (omega arith) refl

abbrev cfg : ℕ → Config
cfg i = from_env (λ key. none)

-- The first instance takes its invalidation and persists it; it locks, and reads generation 8; a
-- write comes in after the build table is filled.
abbrev idle : Tables
idle = record { source = 5; cache = 2; build = none; row = clean }

abbrev started : World
started = start idle

abbrev taking : World
taking = record started { workers = update started.workers 0 (take_pending (started.workers 0)) }

abbrev dirtied : World
dirtied = record taking {
  tables = with_row taking.tables (some (persist_invalidation taking.tables.row 100));
  workers = update taking.workers 0 (persisted (taking.workers 0) 100);
}

abbrev held : World
held = record dirtied { builder = locked }

abbrev seen : World
seen = record held { builder = chosen 8 }

abbrev cleared : World
cleared = record seen { tables = truncate_build seen.tables; builder = emptied 8 }

abbrev computed : World
computed = record cleared { tables = fill_build cleared.tables; builder = filled 8 }

abbrev written : World
written = record computed {
  tables = record (computed.tables) { source = computed.tables.source + 1 };
  unmarked = computed.unmarked + 1;
}

abbrev published : World
published = record written { tables = swap_tables written.tables; builder = swapped 8 }

abbrev rebuilt : World
rebuilt = record published {
  tables = with_row published.tables (acknowledge published.tables.row 8);
  builder = unlocked;
}

-- The cache is one write behind, the row is clean, and the write's job has not marked yet.
rebuilt_state : (rebuilt.tables.cache ≡ 5) × (rebuilt.tables.source ≡ 6) × (rebuilt.unmarked ≡ 1)
unfolding start swap_tables fill_build truncate_build
rebuilt_state = (refl, refl, refl)

-- GET_LOCK gives the lock, and RELEASE_LOCK fails.
abbrev losing : Server
losing = record { get_lock = row 1; got = true; release_lock = failed; kept = true }

losing-Honest : Honest losing
losing-Honest = record { granted = λ e. refl; timed_out = λ e. cc; ended = λ e. cc }

abbrev count_up : ℕ → Ran ℕ × ℕ
count_up n = (ran n, n + 1)

with_named_lock-NotLocked_example : NotLocked (with_named_lock losing count_up 3).2
with_named_lock-NotLocked_example = with_named_lock-NotLocked losing count_up 3 losing-Honest

-- The lock is another's.
abbrev waiting : Server
waiting = record { get_lock = row 0; got = false; release_lock = null; kept = false }

waiting-Honest : Honest waiting
waiting-Honest = record { granted = λ e. cc; timed_out = λ e. refl; ended = λ e. cc }

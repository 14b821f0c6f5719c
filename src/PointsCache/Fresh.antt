-- ===== src/PointsCache/Fresh.antt =====
-- src/points_cache.rs: no invalidation is lost, whatever comes between the statements of a rebuild.
use whaletracker.Prelude.{ℕ, ◌<◌, ◌≡◌, true}
use whaletracker.Config.{Config}
use whaletracker.PointsCache.{Worker}
use whaletracker.PointsCache.Steps.{World}
use whaletracker.PointsCache.Good.{Good}

-- An invalidation that is on its way to the state row.
pub data Outstanding (workers : ℕ → Worker) (unmarked : ℕ) : Type 0 where
  not_marked : 0 < unmarked → Outstanding workers unmarked
  is_pending : (i : ℕ) → (workers i).pending ≡ true → Outstanding workers unmarked
  is_taken : (i : ℕ) → (workers i).taken ≡ true → Outstanding workers unmarked

abbrev Sound : World → Type 0
Sound w = Good (Outstanding w.workers w.unmarked) w.tables w.builder

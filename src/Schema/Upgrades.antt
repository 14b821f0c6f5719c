-- ===== src/Schema/Upgrades.antt =====
-- src/schema.rs: the statements that `migrations` writes out.
use Prim.Native.String.{String}
use whaletracker.Prelude.{List, [], ◌∷◌}

abbrev pub indexes : List String
indexes =
    "CREATE INDEX IF NOT EXISTS idx_cached_personaname_lower ON whaletracker (cached_personaname_lower)"
    ∷ "CREATE INDEX IF NOT EXISTS idx_last_seen ON whaletracker (last_seen)"
    ∷ "CREATE INDEX IF NOT EXISTS idx_sort_weight ON whaletracker (sort_weight DESC, kills DESC)"
    ∷ []

abbrev pub statements_3 : List String
statements_3 =
    "ALTER TABLE whaletracker ADD COLUMN IF NOT EXISTS totalCrossbowHits INTEGER DEFAULT 0"
    ∷ "ALTER TABLE whaletracker DROP COLUMN IF EXISTS medicKills"
    ∷ "ALTER TABLE whaletracker DROP COLUMN IF EXISTS heavyKills" ∷ []

abbrev pub statements_4 : List String
statements_4 = "ALTER TABLE whaletracker ADD COLUMN IF NOT EXISTS telefrags INTEGER DEFAULT 0" ∷ []

abbrev pub statements_5 : List String
statements_5 =
    "ALTER TABLE whaletracker_points_cache_state ADD COLUMN IF NOT EXISTS dirty_generation BIGINT UNSIGNED NOT NULL DEFAULT 0"
    ∷ "ALTER TABLE whaletracker_points_cache_state ADD COLUMN IF NOT EXISTS dirty_since BIGINT UNSIGNED NOT NULL DEFAULT 0"
    ∷ []

abbrev pub statements_6 : List String
statements_6 =
    "ALTER TABLE whaletracker_logs ADD COLUMN IF NOT EXISTS finalized TINYINT NOT NULL DEFAULT 1"
    ∷ "ALTER TABLE whaletracker_points_cache ADD COLUMN IF NOT EXISTS matches_used INTEGER DEFAULT 0"
    ∷ "ALTER TABLE whaletracker_points_cache ADD COLUMN IF NOT EXISTS window_started_at INTEGER DEFAULT 0"
    ∷ "ALTER TABLE whaletracker_points_cache ADD COLUMN IF NOT EXISTS window_ended_at INTEGER DEFAULT 0"
    ∷ "ALTER TABLE whaletracker_points_cache_build ADD COLUMN IF NOT EXISTS matches_used INTEGER DEFAULT 0"
    ∷ "ALTER TABLE whaletracker_points_cache_build ADD COLUMN IF NOT EXISTS window_started_at INTEGER DEFAULT 0"
    ∷ "ALTER TABLE whaletracker_points_cache_build ADD COLUMN IF NOT EXISTS window_ended_at INTEGER DEFAULT 0"
    ∷ "CREATE INDEX IF NOT EXISTS idx_whaletracker_logs_rank_window ON whaletracker_logs (finalized, ended_at, duration, log_id)"
    ∷ "CREATE INDEX IF NOT EXISTS idx_whaletracker_log_players_steamid_log ON whaletracker_log_players (steamid, log_id)"
    ∷ []

abbrev pub statements_7 : List String
statements_7 =
    "ALTER TABLE whaletracker_points_cache ADD COLUMN IF NOT EXISTS rolling_kills INTEGER DEFAULT 0"
    ∷ "ALTER TABLE whaletracker_points_cache ADD COLUMN IF NOT EXISTS rolling_deaths INTEGER DEFAULT 0"
    ∷ "ALTER TABLE whaletracker_points_cache_build ADD COLUMN IF NOT EXISTS rolling_kills INTEGER DEFAULT 0"
    ∷ "ALTER TABLE whaletracker_points_cache_build ADD COLUMN IF NOT EXISTS rolling_deaths INTEGER DEFAULT 0"
    ∷ []

abbrev pub statements_8 : List String
statements_8 =
    "ALTER TABLE whaletracker_logs ADD COLUMN IF NOT EXISTS points_snapshot_at INTEGER NOT NULL DEFAULT 0"
    ∷ []

-- ===== src/Schema/Smaller.antt =====
-- src/schema.rs: the column definitions that `migrations` writes out, for the smaller tables.
use Prim.Native.String.{String}
use whaletracker.Prelude.{List, [], ◌∷◌}

abbrev pub online_meta_literals : List String
online_meta_literals =
    "`id` TINYINT NOT NULL" ∷ "`map_name` VARCHAR(128) DEFAULT ''"
    ∷ "`playercount` INTEGER DEFAULT 0" ∷ "`updated_at` INTEGER DEFAULT 0"
    ∷ "`host_ip` VARCHAR(64) DEFAULT ''" ∷ "`host_port` INTEGER DEFAULT 0"
    ∷ "`visible_max` INTEGER DEFAULT 0" ∷ []

abbrev pub servers_literals : List String
servers_literals =
    "`ip` VARCHAR(64) NOT NULL" ∷ "`port` INTEGER NOT NULL" ∷ "`playercount` INTEGER DEFAULT 0"
    ∷ "`visible_max` INTEGER DEFAULT 0" ∷ "`game` VARCHAR(64) DEFAULT ''"
    ∷ "`game_url` VARCHAR(32) DEFAULT ''" ∷ "`map` VARCHAR(128) DEFAULT ''"
    ∷ "`city` VARCHAR(128) DEFAULT ''" ∷ "`country` VARCHAR(8) DEFAULT ''"
    ∷ "`flags` VARCHAR(256) DEFAULT ''" ∷ "`last_update` INTEGER DEFAULT 0" ∷ []

abbrev pub logs_literals : List String
logs_literals =
    "`log_id` VARCHAR(64) NOT NULL" ∷ "`map` VARCHAR(64) DEFAULT ''"
    ∷ "`gamemode` VARCHAR(64) DEFAULT 'Unknown'" ∷ "`started_at` INTEGER DEFAULT 0"
    ∷ "`ended_at` INTEGER DEFAULT 0" ∷ "`duration` INTEGER DEFAULT 0"
    ∷ "`player_count` INTEGER DEFAULT 0" ∷ "`created_at` INTEGER DEFAULT 0"
    ∷ "`updated_at` INTEGER DEFAULT 0" ∷ "`finalized` TINYINT NOT NULL DEFAULT 1"
    ∷ "`demo_filename` VARCHAR(260) NULL DEFAULT NULL" ∷ []

abbrev pub cache_literals : List String
cache_literals =
    "`steamid` VARCHAR(32) NOT NULL" ∷ "`points` INTEGER DEFAULT 0" ∷ "`rank` INTEGER DEFAULT 0"
    ∷ "`name_color` VARCHAR(32) DEFAULT ''" ∷ "`updated_at` INTEGER DEFAULT 0"
    ∷ "`matches_used` INTEGER DEFAULT 0" ∷ "`rolling_kills` INTEGER DEFAULT 0"
    ∷ "`rolling_deaths` INTEGER DEFAULT 0" ∷ "`window_started_at` INTEGER DEFAULT 0"
    ∷ "`window_ended_at` INTEGER DEFAULT 0" ∷ []

-- ===== src/Schema/Columns.antt =====
-- src/schema.rs: the column definitions that `migrations` writes out, table by table.
use Prim.Native.String.{String}
use whaletracker.Prelude.{List, [], ◌∷◌}

abbrev pub lifetime_literals : List String
lifetime_literals =
    "`steamid` VARCHAR(32) NOT NULL" ∷ "`first_seen` INTEGER DEFAULT NULL"
    ∷ "`kills` INTEGER DEFAULT 0" ∷ "`deaths` INTEGER DEFAULT 0" ∷ "`shots` INTEGER DEFAULT 0"
    ∷ "`hits` INTEGER DEFAULT 0" ∷ "`healing` INTEGER DEFAULT 0" ∷ "`total_ubers` INTEGER DEFAULT 0"
    ∷ "`best_ubers_life` INTEGER DEFAULT 0" ∷ "`medic_drops` INTEGER DEFAULT 0"
    ∷ "`uber_drops` INTEGER DEFAULT 0" ∷ "`airshots` INTEGER DEFAULT 0"
    ∷ "`telefrags` INTEGER DEFAULT 0" ∷ "`bonusPoints` INTEGER DEFAULT 0"
    ∷ "`totalCrossbowHits` INTEGER DEFAULT 0" ∷ "`marketGardenHits` INTEGER DEFAULT 0"
    ∷ "`headshots` INTEGER DEFAULT 0" ∷ "`backstabs` INTEGER DEFAULT 0"
    ∷ "`best_headshots_life` INTEGER DEFAULT 0" ∷ "`best_backstabs_life` INTEGER DEFAULT 0"
    ∷ "`best_kills_life` INTEGER DEFAULT 0" ∷ "`best_killstreak` INTEGER DEFAULT 0"
    ∷ "`best_score_life` INTEGER DEFAULT 0" ∷ "`assists` INTEGER DEFAULT 0"
    ∷ "`best_assists_life` INTEGER DEFAULT 0" ∷ "`playtime` INTEGER DEFAULT 0"
    ∷ "`is_admin` TINYINT DEFAULT 0" ∷ "`damage_dealt` INTEGER DEFAULT 0"
    ∷ "`damage_taken` INTEGER DEFAULT 0" ∷ "`last_seen` INTEGER DEFAULT 0"
    ∷ "`personaname` VARCHAR(128) DEFAULT ''" ∷ "`favorite_class` TINYINT DEFAULT 0"
    ∷ "`cached_personaname` VARCHAR(255) DEFAULT NULL"
    ∷ "`cached_personaname_lower` VARCHAR(255) DEFAULT NULL" ∷ []

abbrev pub online_literals : List String
online_literals =
    "`steamid` VARCHAR(32) NOT NULL" ∷ "`personaname` VARCHAR(128) DEFAULT ''"
    ∷ "`class` TINYINT DEFAULT 0" ∷ "`team` TINYINT DEFAULT 0" ∷ "`alive` TINYINT DEFAULT 0"
    ∷ "`is_spectator` TINYINT DEFAULT 0" ∷ "`kills` INTEGER DEFAULT 0"
    ∷ "`deaths` INTEGER DEFAULT 0" ∷ "`assists` INTEGER DEFAULT 0" ∷ "`damage` INTEGER DEFAULT 0"
    ∷ "`damage_taken` INTEGER DEFAULT 0" ∷ "`healing` INTEGER DEFAULT 0"
    ∷ "`headshots` INTEGER DEFAULT 0" ∷ "`backstabs` INTEGER DEFAULT 0"
    ∷ "`medic_drops` INTEGER DEFAULT 0" ∷ "`uber_drops` INTEGER DEFAULT 0"
    ∷ "`airshots` INTEGER DEFAULT 0" ∷ "`marketGardenHits` INTEGER DEFAULT 0"
    ∷ "`playtime` INTEGER DEFAULT 0" ∷ "`total_ubers` INTEGER DEFAULT 0"
    ∷ "`best_streak` INTEGER DEFAULT 0" ∷ "`best_ubers_life` INTEGER DEFAULT 0"
    ∷ "`current_killstreak` INTEGER DEFAULT 0" ∷ "`current_ubers_life` INTEGER DEFAULT 0"
    ∷ "`visible_max` INTEGER DEFAULT 0" ∷ "`time_connected` INTEGER DEFAULT 0"
    ∷ "`shots` INTEGER DEFAULT 0" ∷ "`hits` INTEGER DEFAULT 0" ∷ "`host_ip` VARCHAR(64) DEFAULT ''"
    ∷ "`host_port` INTEGER DEFAULT 0" ∷ "`playercount` INTEGER DEFAULT 0"
    ∷ "`map_name` VARCHAR(128) DEFAULT ''" ∷ "`last_update` INTEGER DEFAULT 0" ∷ []

abbrev pub players_literals : List String
players_literals =
    "`log_id` VARCHAR(64) NOT NULL" ∷ "`steamid` VARCHAR(32) NOT NULL"
    ∷ "`personaname` VARCHAR(128) DEFAULT ''" ∷ "`kills` INTEGER DEFAULT 0"
    ∷ "`deaths` INTEGER DEFAULT 0" ∷ "`assists` INTEGER DEFAULT 0" ∷ "`damage` INTEGER DEFAULT 0"
    ∷ "`damage_taken` INTEGER DEFAULT 0" ∷ "`healing` INTEGER DEFAULT 0"
    ∷ "`headshots` INTEGER DEFAULT 0" ∷ "`backstabs` INTEGER DEFAULT 0"
    ∷ "`total_ubers` INTEGER DEFAULT 0" ∷ "`playtime` INTEGER DEFAULT 0"
    ∷ "`medic_drops` INTEGER DEFAULT 0" ∷ "`uber_drops` INTEGER DEFAULT 0"
    ∷ "`airshots` INTEGER DEFAULT 0" ∷ "`marketGardenHits` INTEGER DEFAULT 0"
    ∷ "`shots` INTEGER DEFAULT 0" ∷ "`hits` INTEGER DEFAULT 0" ∷ "`best_streak` INTEGER DEFAULT 0"
    ∷ "`best_headshots_life` INTEGER DEFAULT 0" ∷ "`best_backstabs_life` INTEGER DEFAULT 0"
    ∷ "`best_score_life` INTEGER DEFAULT 0" ∷ "`best_kills_life` INTEGER DEFAULT 0"
    ∷ "`best_assists_life` INTEGER DEFAULT 0" ∷ "`best_ubers_life` INTEGER DEFAULT 0"
    ∷ "`is_admin` TINYINT DEFAULT 0" ∷ "`last_updated` INTEGER DEFAULT 0" ∷ []

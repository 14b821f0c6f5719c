-- ===== src/Schema/Migrations.antt =====
-- src/schema.rs: the migrations, as the statements that `migrations` builds.
use Prim.Native.String.{String}
use whaletracker.Prelude.{ℕ, suc, ◌+◌, ◌≡◌, refl, List, [], ◌∷◌, ◌++◌, map, length, Text, codes}
use whaletracker.Schema.Columns.{lifetime_literals, online_literals, players_literals}
use whaletracker.Schema.Upgrades.{
  indexes, statements_3, statements_4, statements_5, statements_6, statements_7, statements_8,
}
use whaletracker.Schema.Smaller.{
  online_meta_literals, servers_literals, logs_literals, cache_literals,
}

pub record Migration : Type 0 where
  pub version : ℕ
  pub name : Text
  pub statements : List Text

unfoldable pub columns : List String → List Text
columns = map codes

-- What the loops push, element by element.
flat_map {ℓ} : {A : Type ℓ} → (A → List Text) → List A → List Text
flat_map f [] = []
flat_map f (x ∷ xs) = f x ++ flat_map f xs

-- `shots_…` and `hits_…`.
shots_and_hits : String → List Text
shots_and_hits group =
    (codes "`shots_" ++ codes group ++ codes "` INTEGER DEFAULT 0")
    ∷ (codes "`hits_" ++ codes group ++ codes "` INTEGER DEFAULT 0")
    ∷ []

abbrev class_names : List String
class_names =
    "scout" ∷ "sniper" ∷ "soldier" ∷ "demoman" ∷ "medic" ∷ "heavy" ∷ "pyro" ∷ "spy" ∷ "engineer"
    ∷ []

class_columns : List Text
class_columns = codes "`classes_mask` INTEGER DEFAULT 0" ∷ flat_map shots_and_hits class_names

abbrev categories : List String
categories =
    "shotguns" ∷ "scatterguns" ∷ "pistols" ∷ "rocketlaunchers" ∷ "grenadelaunchers"
    ∷ "stickylaunchers" ∷ "snipers" ∷ "revolvers" ∷ []

category_columns : List Text
category_columns = flat_map shots_and_hits categories

join : Text → List Text → Text
join separator [] = []
join separator (x ∷ []) = x
join separator (x ∷ y ∷ rest) = x ++ separator ++ join separator (y ∷ rest)

create_table : Text → List Text → List Text → Text
create_table name columns' keys =
    codes "CREATE TABLE IF NOT EXISTS `"
    ++ (name
        ++ (codes "` ("
            ++ (join (codes ", ") (columns' ++ keys)
                ++ codes ") ENGINE=InnoDB DEFAULT CHARSET=utf8mb4")))

lifetime : List Text
lifetime =
    columns lifetime_literals
    ++ (class_columns
        ++ (category_columns
            ++ codes
                "`sort_weight` DOUBLE AS (CASE WHEN playtime >= 14400 THEN (kills + (0.5 * assists)) / GREATEST(deaths, 1) ELSE -1 END) STORED"
              ∷ []))

-- The numbers 1 to 6, as they are printed.
abbrev slots : List String
slots = "1" ∷ "2" ∷ "3" ∷ "4" ∷ "5" ∷ "6" ∷ []

slot_column : String → String → Text
slot_column slot rest = codes "`weapon" ++ (codes slot ++ codes rest)

online_slot : String → List Text
online_slot slot =
    slot_column slot "_name` VARCHAR(64) DEFAULT ''"
    ∷ slot_column slot "_accuracy` FLOAT DEFAULT 0"
    ∷ slot_column slot "_shots` INTEGER DEFAULT 0"
    ∷ slot_column slot "_hits` INTEGER DEFAULT 0"
    ∷ []

online : List Text
online =
    columns online_literals ++ (class_columns ++ (category_columns ++ flat_map online_slot slots))

player_slot : String → List Text
player_slot slot =
    slot_column slot "_name` VARCHAR(128) DEFAULT ''"
    ∷ slot_column slot "_shots` INTEGER DEFAULT 0"
    ∷ slot_column slot "_hits` INTEGER DEFAULT 0"
    ∷ slot_column slot "_damage` INTEGER DEFAULT 0"
    ∷ slot_column slot "_defindex` INTEGER DEFAULT 0"
    ∷ []

airshots : String → List Text
airshots class =
    (codes "`airshots_" ++ (codes class ++ codes "` INTEGER DEFAULT 0"))
    ∷ (codes "`airshots_" ++ (codes class ++ codes "_height` INTEGER DEFAULT 0"))
    ∷ []

players : List Text
players =
    columns players_literals
    ++ (class_columns
        ++ (category_columns
            ++ (flat_map player_slot slots
                ++ flat_map airshots ("soldier" ∷ "demoman" ∷ "sniper" ∷ "medic" ∷ []))))

create : List Text
create =
    create_table (codes "whaletracker") lifetime (
      columns (
        "PRIMARY KEY (`steamid`)"
        ∷ "KEY `idx_cached_personaname_lower` (`cached_personaname_lower`)"
        ∷ "KEY `idx_last_seen` (`last_seen`)"
        ∷ "KEY `idx_sort_weight` (`sort_weight` DESC, `kills` DESC)" ∷ []))
    ∷ create_table (codes "whaletracker_online") online (columns ("PRIMARY KEY (`steamid`)" ∷ []))
    ∷ create_table (codes "whaletracker_online_meta") (columns online_meta_literals)
        (columns ("PRIMARY KEY (`id`)" ∷ []))
    ∷ create_table (codes "whaletracker_servers") (columns servers_literals)
        (columns ("PRIMARY KEY (`ip`, `port`)" ∷ []))
    ∷ create_table (codes "whaletracker_logs") (columns logs_literals)
        (columns ("PRIMARY KEY (`log_id`)" ∷ []))
    ∷ create_table (codes "whaletracker_log_players") players
        (columns ("PRIMARY KEY (`log_id`, `steamid`)" ∷ []))
    ∷ create_table (codes "whaletracker_points_cache") (columns cache_literals)
        (columns ("PRIMARY KEY (`steamid`)" ∷ []))
    ∷ codes
        "CREATE TABLE IF NOT EXISTS whaletracker_points_cache_build LIKE whaletracker_points_cache"
    ∷ codes
        "CREATE TABLE IF NOT EXISTS whaletracker_points_cache_state (cache_key VARCHAR(64) PRIMARY KEY, dirty TINYINT DEFAULT 0, dirty_updated_at BIGINT DEFAULT 0, last_reason VARCHAR(64) DEFAULT '', last_rebuilt_at BIGINT DEFAULT 0) ENGINE=InnoDB DEFAULT CHARSET=utf8mb4"
    ∷ []

tables : List (String × List Text)
tables =
    ("whaletracker", lifetime)
    ∷ ("whaletracker_online", online)
    ∷ ("whaletracker_online_meta", columns online_meta_literals)
    ∷ ("whaletracker_servers", columns servers_literals)
    ∷ ("whaletracker_logs", columns logs_literals)
    ∷ ("whaletracker_log_players", players)
    ∷ ("whaletracker_points_cache", columns cache_literals)
    ∷ ("whaletracker_points_cache_build", columns cache_literals)
    ∷ []

add_columns : String × List Text → List Text
add_columns (table, columns') =
    map
      (λ column.
        codes "ALTER TABLE `" ++ (codes table ++ (codes "` ADD COLUMN IF NOT EXISTS " ++ column)))
      columns'

convert : String × List Text → List Text
convert (table, columns') =
    (codes "ALTER TABLE " ++ (codes table ++ codes " CONVERT TO CHARACTER SET utf8mb4")) ∷ []

upgrade : List Text
upgrade =
    flat_map add_columns tables
    ++ (columns indexes
        ++ (flat_map convert tables ++ codes "DROP TABLE IF EXISTS whaletracker_mapstats" ∷ []))

numbered : ℕ → String → List Text → Migration
numbered version name statements = record {
  version = version;
  name = codes name;
  statements = statements;
}

pub migrations : List Migration
migrations =
    numbered 1 "create_whaletracker_schema" create
    ∷ numbered 2 "upgrade_whaletracker_schema" upgrade
    ∷ numbered 3 "remove_dead_whaletracker_columns" (columns statements_3)
    ∷ numbered 4 "add_whaletracker_telefrag_stat" (columns statements_4)
    ∷ numbered 5 "version_cache_invalidations" (columns statements_5)
    ∷ numbered 6 "rolling_match_points" (columns statements_6)
    ∷ numbered 7 "cache_rolling_kd_totals" (columns statements_7)
    ∷ numbered 8 "round_end_points_snapshots" (columns statements_8)
    ∷ []

-- The versions from n + 1 on, in order.
abbrev pub Numbered : ℕ → List Migration → Type 0
Numbered n [] = Unit {0}
Numbered n (m ∷ ms) = (m.version ≡ suc n) × Numbered (suc n) ms

pub migrations-Numbered : Numbered 0 migrations
unfolding migrations numbered
migrations-Numbered = (refl, (refl, (refl, (refl, (refl, (refl, (refl, (refl, tt))))))))

-- The queries that it takes to apply them.
abbrev pub cost : List Migration → ℕ
cost [] = 0
cost (m ∷ ms) = (length m.statements + 1) + cost ms

pub cost-migrations : cost migrations ≡ 361
unfolding migrations numbered create upgrade columns flat_map shots_and_hits class_columns
    category_columns lifetime online online_slot players player_slot airshots tables add_columns
    convert
cost-migrations = refl

pub length-migrations : length migrations ≡ 8
unfolding migrations
length-migrations = refl

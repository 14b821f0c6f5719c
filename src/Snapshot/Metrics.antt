-- ===== src/Snapshot/Metrics.antt =====
-- src/bin/frontend_metric_snapshot.rs: the metrics, and the text of the statements.
use whaletracker.Prelude.{List, [], ◌∷◌, ◌++◌, Text, codes}

pub record MetricDefinition : Type 0 where
  pub metric_group : Text
  pub metric_name : Text
  pub window_kind : Text
  pub window_start_sql : Text
  pub window_end_sql : Text
  pub value_sql : Text

abbrev pub registered_players : MetricDefinition
registered_players = record {
  metric_group = codes "stats_summary";
  metric_name = codes "registered_players_total";
  window_kind = codes "all_time";
  window_start_sql = codes "0";
  window_end_sql = codes "UNIX_TIMESTAMP(NOW())";
  value_sql = codes "SELECT COUNT(*) FROM whaletracker";
}

abbrev pub active_this_month : MetricDefinition
active_this_month = record {
  metric_group = codes "stats_summary";
  metric_name = codes "active_players_month";
  window_kind = codes "month_to_date";
  window_start_sql = codes "UNIX_TIMESTAMP(DATE_FORMAT(NOW(), '%Y-%m-01 00:00:00'))";
  window_end_sql =
      codes "UNIX_TIMESTAMP(DATE_FORMAT(DATE_ADD(NOW(), INTERVAL 1 MONTH), '%Y-%m-01 00:00:00'))";
  value_sql =
      codes
        "SELECT COUNT(DISTINCT lp.steamid) FROM whaletracker_log_players lp INNER JOIN whaletracker_logs l ON l.log_id = lp.log_id WHERE l.started_at >= UNIX_TIMESTAMP(DATE_FORMAT(NOW(), '%Y-%m-01 00:00:00')) AND l.started_at < UNIX_TIMESTAMP(DATE_FORMAT(DATE_ADD(NOW(), INTERVAL 1 MONTH), '%Y-%m-01 00:00:00'))";
}

abbrev pub active_this_week : MetricDefinition
active_this_week = record {
  metric_group = codes "stats_summary";
  metric_name = codes "active_players_week";
  window_kind = codes "rolling_7_days";
  window_start_sql = codes "UNIX_TIMESTAMP(DATE_SUB(NOW(), INTERVAL 7 DAY))";
  window_end_sql = codes "UNIX_TIMESTAMP(NOW())";
  value_sql =
      codes
        "SELECT COUNT(DISTINCT lp.steamid) FROM whaletracker_log_players lp INNER JOIN whaletracker_logs l ON l.log_id = lp.log_id WHERE l.started_at >= UNIX_TIMESTAMP(DATE_SUB(NOW(), INTERVAL 7 DAY)) AND l.started_at < UNIX_TIMESTAMP(NOW())";
}

abbrev pub metric_definitions : List MetricDefinition
metric_definitions = registered_players ∷ active_this_month ∷ active_this_week ∷ []

unfoldable pub quote_identifier : Text → Text
quote_identifier value = b'`' ∷ (value ++ b'`' ∷ [])

-- The statements.
abbrev pub create_before : Text
create_before = codes "CREATE TABLE IF NOT EXISTS "

abbrev pub create_after : Text
create_after =
    codes
      " (id BIGINT UNSIGNED NOT NULL AUTO_INCREMENT,sampled_at INT NOT NULL,snapshot_key VARCHAR(64) NOT NULL,metric_group VARCHAR(64) NOT NULL,metric_name VARCHAR(64) NOT NULL,window_kind VARCHAR(32) NOT NULL,window_start INT NOT NULL,window_end INT NOT NULL,value BIGINT NOT NULL,source VARCHAR(64) NOT NULL,created_at INT NOT NULL,PRIMARY KEY (id),UNIQUE KEY uniq_snapshot_metric (snapshot_key, metric_group, metric_name, window_kind, source),KEY idx_sampled_at (sampled_at),KEY idx_metric_sampled (metric_group, metric_name, sampled_at),KEY idx_window (window_kind, window_start, window_end)) ENGINE=InnoDB DEFAULT CHARSET=utf8mb4 COLLATE=utf8mb4_unicode_ci"

abbrev pub insert_before : Text
insert_before = codes "INSERT INTO "

abbrev pub insert_after : Text
insert_after =
    codes
      " (sampled_at, snapshot_key, metric_group, metric_name, window_kind, window_start, window_end, value, source, created_at) VALUES (:sampled_at, :snapshot_key, :metric_group, :metric_name, :window_kind, :window_start, :window_end, :value, :source, UNIX_TIMESTAMP(NOW())) ON DUPLICATE KEY UPDATE sampled_at = VALUES(sampled_at),window_start = VALUES(window_start),window_end = VALUES(window_end),value = VALUES(value),created_at = VALUES(created_at)"

unfoldable pub create_sql : Text → Text
unfolding quote_identifier
create_sql table = create_before ++ (quote_identifier table ++ create_after)

unfoldable pub fetch_sql : MetricDefinition → Text
fetch_sql m =
    codes
      "SELECT UNIX_TIMESTAMP(NOW()) AS sampled_at,DATE_FORMAT(NOW(), '%Y-%m-%d') AS snapshot_key,("
    ++ (m.window_start_sql
        ++ (codes ") AS window_start,("
            ++ (m.window_end_sql
                ++ (codes ") AS window_end,(" ++ (m.value_sql ++ codes ") AS value")))))

unfoldable pub insert_sql : Text → Text
unfolding quote_identifier
insert_sql table = insert_before ++ (quote_identifier table ++ insert_after)

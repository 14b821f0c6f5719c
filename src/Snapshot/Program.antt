-- ===== src/Snapshot/Program.antt =====
-- src/bin/frontend_metric_snapshot.rs: a program of its own, which computes three metrics and
-- writes each into a table, one row for each day. The server's answers are a parameter; the row
-- keeps neither its number nor its time of creation.
use whaletracker.Prelude.{
  ℕ, List, [], ◌∷◌, Bool, not, ◌&&◌, ◌||◌, Option, none, some, ◌==◌, leb, if◌then◌else◌, all,
  length, ℤ, pos, Text, codes,
}
use whaletracker.Ascii.{is_ascii_alphanumeric}
use whaletracker.Config.{Environment, unwrap_or, and_then, parse_unsigned}
use whaletracker.Snapshot.Metrics.{
  MetricDefinition, metric_definitions, create_sql, fetch_sql, insert_sql,
}

pub record Config : Type 0 where
  pub db_host : Text
  pub db_port : ℕ
  pub db_name : Text
  pub db_user : Text
  pub db_pass : Text
  pub snapshot_table : Text
  pub snapshot_source : Text

pub record MetricSnapshot : Type 0 where
  pub metric_group : Text
  pub metric_name : Text
  pub window_kind : Text
  pub sampled_at : ℤ
  pub snapshot_key : Text
  pub window_start : ℤ
  pub window_end : ℤ
  pub value : ℤ

unfoldable pub env_u16 : Environment → Text → ℕ → ℕ
unfolding parse_unsigned
env_u16 env name default = unwrap_or (and_then (env name) (parse_unsigned 65535)) default

unfoldable pub from_env : Environment → Config
unfolding env_u16
from_env env = record {
  db_host = unwrap_or (env (codes "WT_DB_HOST")) (codes "127.0.0.1");
  db_port = env_u16 env (codes "WT_DB_PORT") 3306;
  db_name = unwrap_or (env (codes "WT_DB_NAME")) (codes "sourcemod");
  db_user = unwrap_or (env (codes "WT_DB_USER")) (codes "root");
  db_pass = unwrap_or (env (codes "WT_DB_PASS")) [];
  snapshot_table =
      unwrap_or (env (codes "WT_FRONTEND_SNAPSHOT_TABLE"))
        (codes "frontend_statistics_metric_snapshots");
  snapshot_source =
      unwrap_or (env (codes "WT_FRONTEND_SNAPSHOT_SOURCE")) (codes "frontend_stats_summary");
}

unfoldable pub is_safe_identifier : Text → Bool
unfolding is_ascii_alphanumeric
is_safe_identifier value =
    not (length value == 0)
    && (leb (length value) 64 && all (λ byte. byte == b'_' || is_ascii_alphanumeric byte) value)

-- The row that the first query gives: the times, the key of the day between them, and the value.
pub record Fetched : Type 0 where
  pub sampled_at : ℤ
  pub snapshot_key : Text
  pub window_start : ℤ
  pub window_end : ℤ
  pub value : ℤ

abbrev zeros : Fetched
zeros = record {
  sampled_at = pos 0;
  snapshot_key = [];
  window_start = pos 0;
  window_end = pos 0;
  value = pos 0;
}

-- A query that fails, that has no row, or that has one.
pub data Fetch : Type 0 where
  fetch_failed no_row : Fetch
  fetched : Fetched → Fetch

-- A write that fails may have had its effect. A text that is too long for its column is such a
-- failure, as in the server's strict mode.
pub data Write : Type 0 where
  written lost lost_late : Write

-- `same_text` is the server's comparison of two texts of the table, by its collation.
pub record Outside : Type 0 where
  pub pool : Bool
  pub connection : Bool
  pub schema : Bool
  pub fetch : MetricDefinition → Fetch
  pub write : MetricDefinition → Write
  pub same_text : Text → Text → Bool

unfoldable pub snapshot_of : MetricDefinition → Fetched → MetricSnapshot
snapshot_of m f = record {
  metric_group = m.metric_group;
  metric_name = m.metric_name;
  window_kind = m.window_kind;
  sampled_at = f.sampled_at;
  snapshot_key = f.snapshot_key;
  window_start = f.window_start;
  window_end = f.window_end;
  value = f.value;
}

unfoldable pub fetch_metric_snapshot : Outside → MetricDefinition → Option MetricSnapshot
unfolding snapshot_of
fetch_metric_snapshot o m = elim (o.fetch m) [
  | fetch_failed ↦ none
  | no_row ↦ some (snapshot_of m zeros)
  | fetched f ↦ some (snapshot_of m f)
]

-- A row of the table: a snapshot and its source.
abbrev pub Table : Type 0
Table = List (MetricSnapshot × Text)

-- The comparison of two texts by the collation of the table, utf8mb4_unicode_ci.
abbrev pub Collation : Type 0
Collation = Text → Text → Bool

-- The unique key of the table.
unfoldable pub same_key : Collation → MetricSnapshot × Text → MetricSnapshot × Text → Bool
same_key c (a, s) (b, t) =
    c a.snapshot_key b.snapshot_key
    && (c a.metric_group b.metric_group
        && (c a.metric_name b.metric_name && (c a.window_kind b.window_kind && c s t)))

-- `ON DUPLICATE KEY UPDATE`: the columns of the key stay as they were.
abbrev pub updated : MetricSnapshot × Text → MetricSnapshot × Text → MetricSnapshot × Text
updated (old, source) (new, t) = (
  record old {
    sampled_at = new.sampled_at;
    window_start = new.window_start;
    window_end = new.window_end;
    value = new.value;
  },
  source,
)

unfoldable pub upsert : Collation → Table → MetricSnapshot × Text → Table
unfolding same_key
upsert c [] r = r ∷ []
upsert c (x ∷ xs) r = if same_key c x r then updated x r ∷ xs else x ∷ upsert c xs r

-- The exit code, the statements executed, in order, and the table.
pub record Run : Type 0 where
  pub exit_code : ℕ
  pub statements : List Text
  pub table : Table

abbrev pub exits : ℕ → Table → Run
exits code table = record { exit_code = code; statements = []; table = table }

abbrev pub and_statement : Text → Run → Run
and_statement sql r = record r { statements = sql ∷ r.statements }

-- `write_snapshot`, and the rest of the loop where it succeeds.
abbrev pub write_snapshot :
    Outside → Config → MetricDefinition → Table → MetricSnapshot → (Table → Run) → Run
write_snapshot o cfg m table snapshot rest =
    and_statement (insert_sql cfg.snapshot_table) (elim (o.write m) [
      | written ↦ rest (upsert o.same_text table (snapshot, cfg.snapshot_source))
      | lost ↦ exits 1 table
      | lost_late ↦ exits 1 (upsert o.same_text table (snapshot, cfg.snapshot_source))
    ])

-- The loop of `main`.
unfoldable pub write_metrics : Outside → Config → Table → List MetricDefinition → Run
unfolding fetch_metric_snapshot upsert same_key insert_sql fetch_sql
write_metrics o cfg table [] = exits 0 table
write_metrics o cfg table (m ∷ ms) = and_statement (fetch_sql m) (elim (fetch_metric_snapshot o m) [
  | none ↦ exits 1 table
  | some snapshot ↦ write_snapshot o cfg m table snapshot (λ after. write_metrics o cfg after ms)
])

unfoldable pub run_with : Outside → Config → Table → Run
unfolding is_safe_identifier create_sql write_metrics
run_with o cfg table =
    if not (is_safe_identifier cfg.snapshot_table)
    then exits 2 table
    else if not o.pool || not o.connection
    then exits 1 table
    else and_statement (create_sql cfg.snapshot_table)
        (if o.schema then write_metrics o cfg table metric_definitions else exits 1 table)

-- `main`.
unfoldable pub run : Outside → Environment → Table → Run
unfolding run_with from_env
run o env table = run_with o (from_env env) table

-- ===== src/Snapshot/Named.antt =====
-- src/bin/frontend_metric_snapshot.rs: what the environment can put into the statements.
use whaletracker.Prelude.{
  ℕ, ◌+◌, ◌≤◌, ◌≡◌, ◌⊎◌, inl, inr, refl, arith, List, [], ◌∷◌, ◌++◌, true, not, ◌||◌, ◌==◌,
  if◌then◌else◌, all, length, Text, Bool-cases, Option-cases,
}
use whaletracker.Ascii.{is_ascii_alphanumeric}
use whaletracker.Config.{Environment}
use whaletracker.Snapshot.Metrics.{
  MetricDefinition, metric_definitions, quote_identifier, create_before, create_after,
  insert_before, insert_after, create_sql, fetch_sql, insert_sql,
}
use whaletracker.Snapshot.Program.{
  Config, MetricSnapshot, from_env, is_safe_identifier, Outside, Write, written, lost, lost_late,
  Table, Run, write_snapshot, write_metrics, run_with, run, fetch_metric_snapshot,
}

pub ticks : Text → ℕ
ticks [] = 0
ticks (b ∷ bs) = (if b == b'`' then 1 else 0) + ticks bs

-- A statement that quotes no name, or one: of 1 to 64 bytes, none of them a backquote.
pub data QuotesOne (sql : Text) : Type 0 where
  quotes_none : ticks sql ≡ 0 → QuotesOne sql
  quotes :
      (before name after : Text)
      → sql ≡ before ++ (b'`' ∷ (name ++ b'`' ∷ []) ++ after)
      → ticks before ≡ 0
      → ticks name ≡ 0
      → ticks after ≡ 0
      → (1 ≤ length name) × (length name ≤ 64)
      → QuotesOne sql

abbrev pub AllQuoteOne : List Text → Type 0
AllQuoteOne [] = Unit {0}
AllQuoteOne (sql ∷ more) = QuotesOne sql × AllQuoteOne more

safe-ticks :
    (t : Text) → all (λ byte. byte == b'_' || is_ascii_alphanumeric byte) t ≡ true → ticks t ≡ 0
unfolding ticks is_ascii_alphanumeric
safe-ticks [] h = refl
safe-ticks (b ∷ bs) h = ground (arith, safe-ticks bs)

pub Write-cases : (w : Write) → (w ≡ written) ⊎ ((w ≡ lost) ⊎ (w ≡ lost_late))
Write-cases written = inl refl
Write-cases lost = inr (inl refl)
Write-cases lost_late = inr (inr refl)

abbrev Safe : Text → Type 0
Safe t = (ticks t ≡ 0) × ((1 ≤ length t) × (length t ≤ 64))

is_safe_identifier-Safe : (t : Text) → is_safe_identifier t ≡ true → Safe t
unfolding is_safe_identifier
is_safe_identifier-Safe t h = ground (arith, safe-ticks t)

create_sql-QuotesOne : (t : Text) → Safe t → QuotesOne (create_sql t)
unfolding create_sql quote_identifier ticks
create_sql-QuotesOne t (n, l) = quotes create_before t create_after refl refl n refl l

insert_sql-QuotesOne : (t : Text) → Safe t → QuotesOne (insert_sql t)
unfolding insert_sql quote_identifier ticks
insert_sql-QuotesOne t (n, l) = quotes insert_before t insert_after refl refl n refl l

-- The metrics quote nothing.
abbrev Plain : List MetricDefinition → Type 0
Plain [] = Unit {0}
Plain (m ∷ ms) = (ticks (fetch_sql m) ≡ 0) × Plain ms

metric_definitions-Plain : Plain metric_definitions
unfolding fetch_sql ticks
metric_definitions-Plain = (refl, (refl, (refl, tt)))

module _ (o : Outside) (cfg : Config) (safe : Safe cfg.snapshot_table) where
  written-AllQuoteOne :
      (m : MetricDefinition) (table : Table) (s : MetricSnapshot) (rest : Table → Run)
      → ((t : Table) → AllQuoteOne (rest t).statements)
      → AllQuoteOne (write_snapshot o cfg m table s rest).statements
  written-AllQuoteOne m table s rest k = elim (Write-cases (o.write m)) [
    | inl e ↦ rw e (insert_sql-QuotesOne cfg.snapshot_table safe, k _)
    | inr (inl e) ↦ rw e (insert_sql-QuotesOne cfg.snapshot_table safe, tt)
    | inr (inr e) ↦ rw e (insert_sql-QuotesOne cfg.snapshot_table safe, tt)
  ]

  write_metrics-AllQuoteOne :
      (ms : List MetricDefinition) (table : Table)
      → Plain ms
      → AllQuoteOne (write_metrics o cfg table ms).statements
  unfolding write_metrics
  write_metrics-AllQuoteOne [] table p = tt
  write_metrics-AllQuoteOne (m ∷ ms) table p = elim (Option-cases (fetch_metric_snapshot o m)) [
    | inl e ↦ rw e (quotes_none p.0, tt)
    | inr (s, e) ↦ rw e (
      quotes_none p.0,
      written-AllQuoteOne m table s (λ after. write_metrics o cfg after ms)
          (λ t. write_metrics-AllQuoteOne ms t p.1),
    )
  ]

-- Whatever the environment holds, every statement that the program executes quotes no name, or
-- one name of 1 to 64 bytes without a backquote, between two parts that have none either: the
-- table's name cannot end its quotes.
pub run-AllQuoteOne :
    (o : Outside) (env : Environment) (table : Table) → AllQuoteOne (run o env table).statements
unfolding run run_with
run-AllQuoteOne o env table = elim (Bool-cases (is_safe_identifier (from_env env).snapshot_table)) [
  | inr unsafe ↦ rw unsafe tt
  | inl e ↦
      let safe = is_safe_identifier-Safe (from_env env).snapshot_table e in
      rw e (elim (Bool-cases (not o.pool || not o.connection)) [
        | inl down ↦ rw down tt
        | inr up ↦ rw up (elim (Bool-cases o.schema) [
          | inl there ↦ rw there (
            create_sql-QuotesOne (from_env env).snapshot_table safe,
            write_metrics-AllQuoteOne o (from_env env) safe metric_definitions table
                metric_definitions-Plain,
          )
          | inr missing ↦ rw missing (create_sql-QuotesOne (from_env env).snapshot_table safe, tt)
        ])
      ])
]

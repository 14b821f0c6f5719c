-- ===== src/Snapshot/Written.antt =====
-- src/bin/frontend_metric_snapshot.rs: what a run leaves in the table.
use whaletracker.Prelude.{
  ◌≡◌, ◌⊎◌, inl, inr, refl, arith, List, [], ◌∷◌, false, not, ◌||◌, none, some, Text, text_eq, ap,
  ◌∙◌, Bool-cases, Option-cases,
}
use whaletracker.Config.{Environment}
use whaletracker.Snapshot.Metrics.{
  MetricDefinition, metric_definitions, registered_players, active_this_month, active_this_week,
}
use whaletracker.Ascii.{lowercase, to_ascii_lowercase, is_ascii_alphanumeric, is_ascii_digit}
use whaletracker.Sql.Tokens.{is_word}
use whaletracker.Snapshot.Program.{
  Config, MetricSnapshot, from_env, is_safe_identifier, Outside, Fetch, fetch_failed, no_row,
  fetched, Fetched, snapshot_of, Table, write_metrics, run_with, run, fetch_metric_snapshot,
  same_key, upsert,
}
use whaletracker.Snapshot.Keyed.{
  Row, IsCollation, Holds, row_with, row_with-upsert, row_with-upsert_other,
}
use whaletracker.Snapshot.Named.{Write-cases}

Fetch-cases : (f : Fetch) → (f ≡ fetch_failed) ⊎ ((f ≡ no_row) ⊎ ((r : Fetched) × (f ≡ fetched r)))
Fetch-cases fetch_failed = inl refl
Fetch-cases no_row = inr (inl refl)
Fetch-cases (fetched r) = inr (inr (r, refl))

module _ (o : Outside) (cfg : Config) where
  abbrev row_of : MetricSnapshot → Row
  row_of s = (s, cfg.snapshot_source)

  -- A round that does not end the run.
  record Goes (m : MetricDefinition) (ms : List MetricDefinition) (table : Table) : Type 0 where
    snapshot : MetricSnapshot
    was_fetched : fetch_metric_snapshot o m ≡ some snapshot
    leads :
        (write_metrics o cfg table (m ∷ ms)).table
        ≡ (write_metrics o cfg (upsert o.same_text table (row_of snapshot)) ms).table
    ends_well : (write_metrics o cfg (upsert o.same_text table (row_of snapshot)) ms).exit_code ≡ 0

  written-Goes :
      (m : MetricDefinition) (ms : List MetricDefinition) (table : Table) (s : MetricSnapshot)
      → fetch_metric_snapshot o m ≡ some s
      → (write_metrics o cfg table (m ∷ ms)).exit_code ≡ 0
      → Goes m ms table
  unfolding write_metrics
  written-Goes m ms table s f h = elim (Write-cases (o.write m)) [
    | inl e ↦ record {
      snapshot = s;
      was_fetched = f;
      leads = rw (f, e) refl;
      ends_well = rw (f, e) at h;
    }
    | inr (inl e) ↦ let h' = rw (f, e) at h in cc
    | inr (inr e) ↦ let h' = rw (f, e) at h in cc
  ]

  not_fetched :
      (m : MetricDefinition) (ms : List MetricDefinition) (table : Table)
      → fetch_metric_snapshot o m ≡ none
      → ¬ ((write_metrics o cfg table (m ∷ ms)).exit_code ≡ 0)
  unfolding write_metrics
  not_fetched m ms table e h = let h' = rw e at h in cc

  Goes-exit :
      (m : MetricDefinition) (ms : List MetricDefinition) (table : Table)
      → (write_metrics o cfg table (m ∷ ms)).exit_code ≡ 0
      → Goes m ms table
  Goes-exit m ms table h = elim (Option-cases (fetch_metric_snapshot o m)) [
    | inl e ↦ absurd (not_fetched m ms table e h)
    | inr (s, e) ↦ written-Goes m ms table s e h
  ]

  -- No metric of the list has the name, by the collation.
  abbrev Apart : Text → List MetricDefinition → Type 0
  Apart name [] = Unit {0}
  Apart name (m ∷ ms) = (o.same_text m.metric_name name ≡ false) × Apart name ms

  fetched-name :
      (m : MetricDefinition) (s : MetricSnapshot)
      → fetch_metric_snapshot o m ≡ some s
      → s.metric_name ≡ m.metric_name
  unfolding fetch_metric_snapshot snapshot_of
  fetched-name m s h = elim (Fetch-cases (o.fetch m)) [
    | inl e ↦ let h' = rw (e, fetch_metric_snapshot) at h in cc
    | inr (inl e) ↦ let h' = rw (e, fetch_metric_snapshot) at h in ground arith
    | inr (inr (f, e)) ↦ let h' = rw (e, fetch_metric_snapshot) at h in ground arith
  ]

  other_key :
      (s : MetricSnapshot) (k : Row)
      → o.same_text s.metric_name k.0.metric_name ≡ false
      → same_key o.same_text (row_of s) k ≡ false
  unfolding same_key
  other_key s (k, source) h = ground (arith, h)

  -- The table has a row for what was fetched, under its key and with its values.
  abbrev pub AllWritten : List MetricDefinition → Table → Type 0
  AllWritten [] table = Unit {0}
  AllWritten (m ∷ ms) table =
      ((s : MetricSnapshot) × (x : Row) × (fetch_metric_snapshot o m ≡ some s)
        × (row_with o.same_text (row_of s) table ≡ some x)
        × Holds o.same_text (row_of s) x)
      × AllWritten ms table

  abbrev AllApart : List MetricDefinition → Type 0
  AllApart [] = Unit {0}
  AllApart (m ∷ ms) = Apart m.metric_name ms × AllApart ms

  module _ (l : IsCollation o.same_text) where
    -- The rows of other metrics stay.
    write_metrics-keeps :
        (ms : List MetricDefinition) (table : Table) (k : Row)
        → Apart k.0.metric_name ms
        → (write_metrics o cfg table ms).exit_code ≡ 0
        → row_with o.same_text k (write_metrics o cfg table ms).table ≡ row_with o.same_text k table
    write_metrics-keeps [] table k a h = unfold write_metrics in refl
    write_metrics-keeps (m ∷ ms) table k a h =
        let g = Goes-exit m ms table h in
        let apart : same_key o.same_text (row_of g.snapshot) k ≡ false =
          other_key g.snapshot k (rw (fetched-name m g.snapshot g.was_fetched) a.0) in
        ap (row_with o.same_text k) g.leads
        ∙ write_metrics-keeps ms (upsert o.same_text table (row_of g.snapshot)) k a.1 g.ends_well
        ∙ row_with-upsert_other o.same_text l k (row_of g.snapshot) table apart

    write_metrics-AllWritten :
        (ms : List MetricDefinition) (table : Table)
        → AllApart ms
        → (write_metrics o cfg table ms).exit_code ≡ 0
        → AllWritten ms (write_metrics o cfg table ms).table
    write_metrics-AllWritten [] table a h = tt
    write_metrics-AllWritten (m ∷ ms) table a h =
        let g = Goes-exit m ms table h in
        let row = row_of g.snapshot in
        let apart = rw (← fetched-name m g.snapshot g.was_fetched) at a.0 in
        let (x, found, holds) = row_with-upsert o.same_text l row table in
        let kept = write_metrics-keeps ms (upsert o.same_text table row) row apart g.ends_well in
        rw g.leads (
          (g.snapshot, x, g.was_fetched, kept ∙ found, holds),
          write_metrics-AllWritten ms (upsert o.same_text table row) a.1 g.ends_well,
        )

-- The names of the metrics are words that differ in more than their case.
metric_definitions-AllApart :
    (o : Outside) (cfg : Config) → IsCollation o.same_text → AllApart o cfg metric_definitions
unfolding text_eq lowercase to_ascii_lowercase is_word is_ascii_alphanumeric is_ascii_digit
metric_definitions-AllApart o cfg l =
    let month = active_this_month.metric_name in
    let week = active_this_week.metric_name in
    let total = registered_players.metric_name in
    (
      (l.on_words month total refl refl, (l.on_words week total refl refl, tt)),
      ((l.on_words week month refl refl, tt), (tt, tt)),
    )

run_with-AllWritten :
    (o : Outside) (cfg : Config) (table : Table)
    → IsCollation o.same_text
    → (run_with o cfg table).exit_code ≡ 0
    → AllWritten o cfg metric_definitions (run_with o cfg table).table
unfolding run_with
run_with-AllWritten o cfg table l h = elim (Bool-cases (is_safe_identifier cfg.snapshot_table)) [
  | inr unsafe ↦ let h' = rw unsafe at h in cc
  | inl safe ↦ elim (Bool-cases (not o.pool || not o.connection)) [
    | inl down ↦ let h' = rw (safe, down) at h in cc
    | inr up ↦ elim (Bool-cases o.schema) [
      | inr missing ↦ let h' = rw (safe, up, missing) at h in cc
      | inl there ↦
          rw (safe, up, there)
            (write_metrics-AllWritten o cfg l metric_definitions table
              (metric_definitions-AllApart o cfg l) (rw (safe, up, there) at h))
    ]
  ]
]

-- Let the server compare the texts of the table by an equivalence that compares words of ASCII
-- letters, digits and underscores without their case. Where the program exits with 0, then for each
-- of the three metrics the table has a row under the day, group, name, window and source of the
-- snapshot that was fetched, as the server compares them, with its times and its value, whatever
-- was there before.
pub run-AllWritten :
    (o : Outside) (env : Environment) (table : Table)
    → IsCollation o.same_text
    → (run o env table).exit_code ≡ 0
    → AllWritten o (from_env env) metric_definitions (run o env table).table
unfolding run
run-AllWritten o env table l h = run_with-AllWritten o (from_env env) table l h

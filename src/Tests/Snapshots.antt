-- ===== src/Tests/Snapshots.antt =====
-- src/bin/frontend_metric_snapshot.rs: a run over a table that has a row of the same day, and a
-- name that is not an identifier.
use whaletracker.Prelude.{
  ◌≡◌, refl, [], ◌∷◌, true, some, none, pos, codes, text_eq, text_eq_iff, text_eq_refl,
  text_eq_comm, ap, if◌then◌else◌,
}
use whaletracker.Snapshot.Keyed.{IsCollation}
use whaletracker.Ascii.{lowercase, to_ascii_lowercase, is_ascii_alphanumeric}
use whaletracker.Config.{Environment}
use whaletracker.Snapshot.Metrics.{metric_definitions, registered_players}
use whaletracker.Snapshot.Program.{
  Outside, Fetched, fetched, snapshot_of, written, Table, run, run_with, write_metrics, from_env,
  is_safe_identifier, Collation, upsert, same_key, fetch_metric_snapshot,
}
use whaletracker.Snapshot.Named.{AllQuoteOne, run-AllQuoteOne}
use whaletracker.Snapshot.Written.{AllWritten, run-AllWritten}

abbrev today : Fetched
today = record {
  sampled_at = pos 100;
  snapshot_key = codes "2026-01-02";
  window_start = pos 0;
  window_end = pos 100;
  value = pos 12;
}

-- Texts compared without the case of their ASCII letters.
abbrev without_case : Collation
without_case s t = text_eq (lowercase s) (lowercase t)

without_case-IsCollation : IsCollation without_case
without_case-IsCollation = record {
  refl_law = λ s. text_eq_refl (lowercase s);
  sym_law = λ s t. text_eq_comm (lowercase s) (lowercase t);
  trans_law =
      λ s t u h. ap (λ x. text_eq x (lowercase u)) ((text_eq_iff (lowercase s) (lowercase t)).0 h);
  on_words = λ s t hs ht. refl;
}

abbrev working : Outside
working = record {
  pool = true;
  connection = true;
  schema = true;
  fetch = λ m. fetched today;
  write = λ m. written;
  same_text = without_case;
}

abbrev defaults : Environment
defaults key = none

abbrev injected : Environment
injected key =
    if text_eq key (codes "WT_FRONTEND_SNAPSHOT_TABLE") then some (codes "a` (b) --") else none

-- The day's row of the first metric, computed earlier, with the source in another case.
abbrev earlier : Table
earlier =
    (
      snapshot_of registered_players (record today { sampled_at = pos 50; value = pos 11 }),
      codes "Frontend_Stats_Summary",
    )
    ∷ []

succeeds : (run working defaults earlier).exit_code ≡ 0
unfolding run run_with from_env is_safe_identifier is_ascii_alphanumeric write_metrics
    fetch_metric_snapshot
succeeds = refl

refuses : run working injected earlier ≡ record { exit_code = 2; statements = []; table = earlier }
unfolding run run_with from_env is_safe_identifier is_ascii_alphanumeric text_eq
refuses = refl

-- The row is updated, and keeps its source.
updated_row :
    upsert without_case earlier
      (snapshot_of registered_players today, codes "frontend_stats_summary")
    ≡ (snapshot_of registered_players today, codes "Frontend_Stats_Summary") ∷ []
unfolding upsert same_key text_eq lowercase to_ascii_lowercase snapshot_of
updated_row = refl

run-AllWritten_example :
    AllWritten working (from_env defaults) metric_definitions (run working defaults earlier).table
run-AllWritten_example = run-AllWritten working defaults earlier without_case-IsCollation succeeds

run-AllQuoteOne_example : AllQuoteOne (run working defaults earlier).statements
run-AllQuoteOne_example = run-AllQuoteOne working defaults earlier

-- ===== src/Sql/Classify.antt =====
-- src/sql.rs, `validate_and_classify`.
use whaletracker.Prelude.{
  List, Bool, true, false, ◌&&◌, ◌||◌, Option, none, some, if◌then◌else◌, Text, codes, length, ◌==◌,
  get_elem?,
}
use whaletracker.Ascii.{trim}
use whaletracker.Sql.Lane.{Lane}
use whaletracker.Sql.Tokens.{head_tokens}
use whaletracker.Sql.Target.{target_table, word_at_is, lane_for_table, is_table, invalidates_table}
use whaletracker.Sql.Statement.{
  SqlError, empty_write, not_a_table_write, Checked, valid, invalid, validate_single_statement,
}
use whaletracker.Sql.LogRate.{RateTest, validate_log_player_write}

pub record Classification : Type 0 where
  pub lane : Lane
  pub invalidates_points : Bool

pub data Classified : Type 0 where
  classified : Classification → Classified
  rejected : SqlError → Classified

abbrev pub is_none {ℓ} : {A : Type ℓ} → Option A → Bool
is_none none = true
is_none (some a) = false

unfoldable pub is_temporary : List Text → Bool
unfolding word_at_is
is_temporary head =
    (word_at_is head 0 (codes "create") || word_at_is head 0 (codes "drop"))
    && word_at_is head 1 (codes "temporary")

-- `?` on a check, before the next step.
abbrev then_classified : Checked → Classified → Classified
then_classified valid next = next
then_classified (invalid e) next = rejected e

unfoldable pub classification_of : Text → Option Text → Classification
classification_of sql table = record {
  lane = lane_for_table table;
  invalidates_points = invalidates_table sql table;
}

-- The steps behind the target table.
unfoldable pub classify_table : RateTest → Text → List Text → Option Text → Classified
unfolding is_temporary classification_of is_table
classify_table rate sql head table =
    if is_none table || is_temporary head
    then rejected not_a_table_write
    else then_classified (validate_single_statement sql) (
        then_classified
          (if is_table table (codes "whaletracker_log_players")
            then validate_log_player_write rate sql (get_elem? head 0)
            else valid)
          (classified (classification_of sql table)))

unfoldable pub validate_and_classify : RateTest → Text → Classified
unfolding classify_table
validate_and_classify rate sql =
    if length (trim sql) == 0
    then rejected empty_write
    else classify_table rate sql (head_tokens sql) (target_table (head_tokens sql))

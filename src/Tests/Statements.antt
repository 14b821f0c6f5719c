-- ===== src/Tests/Statements.antt =====
-- src/sql.rs on a statement that clears the players of a host.
use whaletracker.Prelude.{◌≡◌, ◌≢◌, refl, true, false, arith, Text, codes, text_eq}
use whaletracker.Ascii.{
  trim, trim_start, trim_reversed, white1, white2, white3, is_ascii_whitespace,
  is_ascii_alphanumeric, is_ascii_digit, lowercase, to_ascii_lowercase, starts_with,
}
use whaletracker.Sql.Lane.{logs}
use whaletracker.Sql.Tokens.{
  head_tokens, tokens, round, next_is, next_is_whitespace, is_dash_space, opens_line_comment,
  skip_line, is_word, word, after_word,
}
use whaletracker.Sql.Target.{
  target_table, table_index, table_name, skip_modifiers, is_modifier, word_at_is, is_table,
  lane_for_table, invalidates_table,
}
use whaletracker.Sql.Statement.{
  invalid, out_of_fuel, validate_single_statement, statement_loop, statement_round, statement_byte,
}
use whaletracker.Sql.LogRate.{RateTest}
use whaletracker.Sql.Classify.{
  validate_and_classify, classified, classify_table, classification_of, is_temporary,
}
use whaletracker.Sql.Ends.{head_tokens_enough, validate_single_statement_ends}
use whaletracker.Sql.Commented.{closes, commented, classified-commented}

abbrev statement : Text
statement = codes "DELETE FROM whaletracker_online WHERE host_port = 27015"

abbrev any_rate : RateTest
any_rate amount playtime = true

abbrev log_end : Text
log_end = codes "UPDATE whaletracker_logs SET ended_at = 9"

abbrev mark : Text
mark = codes " wt_points_cache_finalize "

is_classified :
    validate_and_classify any_rate log_end
    ≡ classified (record { lane = logs; invalidates_points = false })
unfolding validate_and_classify classify_table classification_of is_temporary trim trim_start
    trim_reversed white1 white2 white3 head_tokens tokens round next_is next_is_whitespace
    is_dash_space opens_line_comment skip_line is_word word after_word is_ascii_whitespace
    is_ascii_alphanumeric is_ascii_digit lowercase to_ascii_lowercase target_table table_index
    table_name skip_modifiers is_modifier word_at_is is_table lane_for_table invalidates_table
    starts_with text_eq validate_single_statement statement_loop statement_round statement_byte
is_classified = refl

unmarked_is_no_log_player :
    is_table (target_table (head_tokens log_end)) (codes "whaletracker_log_players") ≡ false
unfolding head_tokens tokens round next_is next_is_whitespace is_dash_space opens_line_comment
    skip_line is_word word after_word is_ascii_whitespace is_ascii_alphanumeric is_ascii_digit
    lowercase to_ascii_lowercase target_table table_index table_name skip_modifiers is_modifier
    word_at_is is_table text_eq
unmarked_is_no_log_player = refl

-- Behind the mark the statement goes to the same lane and invalidates the points.
classified-commented_example :
    validate_and_classify any_rate (commented mark log_end)
    ≡ classified (record { lane = logs; invalidates_points = true })
unfolding closes next_is invalidates_table trim_start white1 white2 white3 starts_with text_eq
    head_tokens tokens round next_is_whitespace is_dash_space opens_line_comment skip_line is_word
    word after_word is_ascii_whitespace is_ascii_alphanumeric is_ascii_digit lowercase
    to_ascii_lowercase target_table table_index table_name skip_modifiers is_modifier word_at_is
    is_table
classified-commented_example =
    classified-commented any_rate mark log_end (record { lane = logs; invalidates_points = false })
      refl refl unmarked_is_no_log_player is_classified

head_tokens_enough_example : tokens 500 32 statement ≡ head_tokens statement
head_tokens_enough_example = head_tokens_enough statement 500 (omega arith)

validate_single_statement_ends_example : validate_single_statement statement ≢ invalid out_of_fuel
validate_single_statement_ends_example = validate_single_statement_ends statement

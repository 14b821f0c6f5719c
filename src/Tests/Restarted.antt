-- ===== src/Tests/Restarted.antt =====
-- src/sink.rs, `replay` on a journal with one write that is not done.
use whaletracker.Prelude.{
  ◌≡◌, refl, [], ◌∷◌, ◌++◌, none, some, arith, Text, codes, true, false, contains, text_eq,
}
use whaletracker.Reader.{eof, put_back, bytes_of, ending, ends}
use whaletracker.Sql.Lane.{online}
use whaletracker.Ascii.{
  trim, trim_start, trim_reversed, white1, white2, white3, is_ascii_whitespace,
  is_ascii_alphanumeric, is_ascii_digit, lowercase, to_ascii_lowercase, starts_with,
}
use whaletracker.Sql.Tokens.{
  head_tokens, tokens, round, next_is, next_is_whitespace, is_dash_space, opens_line_comment,
  skip_line, is_word, word, after_word,
}
use whaletracker.Sql.Target.{
  target_table, table_index, table_name, skip_modifiers, is_modifier, word_at_is, is_table,
  lane_for_table, invalidates_table,
}
use whaletracker.Sql.Statement.{
  validate_single_statement, statement_loop, statement_round, statement_byte,
}
use whaletracker.Sql.Classify.{
  Classification, validate_and_classify, classify_table, classification_of, is_temporary,
}
use whaletracker.Journal.{StoredWrite, ok, bad_id, write_size}
use whaletracker.Journal.Finished.{unfinished}
use whaletracker.Journal.Encoded.{encode_all, LinesFit}
use whaletracker.Journal.Phases.{pendings, dones}
use whaletracker.Journal.Recovery.{Holdable, due, read_state-due}
use whaletracker.Journal.File.{Journal, written}
use whaletracker.Journal.File
use whaletracker.Sink.{Sink, Outside, Settings, new_sink, limits_of}
use whaletracker.Sink.Publish.{classify_all, classes, replay, replayed}
use whaletracker.Sink.Restart.{Requeues, replay-Requeues}
use whaletracker.Tests.PlainCodec.{plain, plain-IsCodec}

abbrev outside : Outside
outside = record {
  codec = plain;
  opener = λ t. some (put_back t eof);
  rate = λ amount playtime. true;
}

abbrev settings : Settings
settings = record {
  max_batch_rows = 1;
  max_queue_rows = 4;
  max_queue_bytes = 4000;
  dedupe_events = 4;
  compact_bytes = 0;
}

abbrev left_over : StoredWrite
left_over = record {
  event_id = 1 ∷ [];
  sql = codes "DELETE FROM whaletracker_online";
  user_id = none;
  batch_id = none;
  ts_ms = 3;
}

abbrev contents : Text
contents = encode_all plain (pendings (left_over ∷ []))

abbrev journal : Journal
journal = record { path = some (1 ∷ []); file = some contents }

abbrev class : Classification
class = record { lane = online; invalidates_points = false }

class_is : classify_all outside.rate (left_over ∷ []) ≡ classes (class ∷ [])
unfolding classify_all validate_and_classify classify_table classification_of is_temporary trim
    trim_start trim_reversed white1 white2 white3 head_tokens tokens round next_is
    next_is_whitespace is_dash_space opens_line_comment skip_line is_word word after_word
    is_ascii_whitespace is_ascii_alphanumeric is_ascii_digit lowercase to_ascii_lowercase
    target_table table_index table_name skip_modifiers is_modifier word_at_is is_table
    lane_for_table invalidates_table starts_with text_eq validate_single_statement statement_loop
    statement_round statement_byte
class_is = refl

left_over-Holdable : Holdable (limits_of settings) (left_over ∷ [])
unfolding bad_id write_size contains limits_of
left_over-Holdable = record {
  valid = (refl, tt);
  once = (refl, tt);
  rows = omega arith;
  bytes = omega arith;
}

left_over-LinesFit : LinesFit plain (pendings (left_over ∷ []) ++ dones [])
unfolding plain
left_over-LinesFit = (omega arith, tt)

same_bytes :
    bytes_of (put_back contents eof) ≡ encode_all plain (pendings (left_over ∷ []) ++ dones [])
unfolding plain encode_all put_back bytes_of
same_bytes = refl

same_end : ending (put_back contents eof) ≡ ends
unfolding plain encode_all put_back ending
same_end = refl

loaded :
    File.replay outside.codec outside.opener journal (limits_of settings)
    ≡ ok (due (limits_of settings) (left_over ∷ []) [])
unfolding File.replay limits_of
loaded =
    read_state-due plain plain-IsCodec (limits_of settings) (left_over ∷ []) []
      (put_back contents eof) (omega arith) left_over-Holdable tt left_over-LinesFit same_bytes
      same_end

classes_due :
    classify_all outside.rate (due (limits_of settings) (left_over ∷ []) []).pending
    ≡ classes (class ∷ [])
unfolding due unfinished contains
classes_due = class_is

replay-Requeues_example :
    (s : Sink) × (replay outside (new_sink settings journal) written ≡ replayed s)
    × Requeues (due (limits_of settings) (left_over ∷ []) []) (class ∷ []) s
replay-Requeues_example =
    replay-Requeues outside settings journal (due (limits_of settings) (left_over ∷ []) [])
      (class ∷ []) written (omega arith) (omega arith) loaded classes_due

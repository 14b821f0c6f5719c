-- ===== src/Protocol/Placed.antt =====
-- src/protocol.rs, the typed writes of `materialize`, and what src/sql.rs makes of their statements.
use whaletracker.Prelude.{
  ℕ, suc, ◌+◌, ◌≡◌, refl, ap, ◌∙◌, arith, ◌∷◌, ◌++◌, true, false, text_eq, Option, some, length,
  length-append, all, ℤ, Text, codes,
}
use whaletracker.Ascii.{
  is_ascii_digit, trim, trim_start, starts_with, white1, white2, white3, lowercase,
  to_ascii_lowercase, is_ascii_whitespace, is_ascii_alphanumeric,
}
use whaletracker.Sql.Lane.{online}
use whaletracker.Sql.Tokens.{
  head_tokens, tokens, round, next_is, next_is_whitespace, is_dash_space, opens_line_comment,
  is_word, word, after_word,
}
use whaletracker.Sql.Target.{
  target_table, table_index, skip_modifiers, is_modifier, table_name, word_at_is, lane_for_table,
  is_table, invalidates_table,
}
use whaletracker.Sql.Statement.{
  valid, validate_single_statement, statement_loop, statement_round, statement_byte, goes_on,
  or_fail, unterminated_quote,
}
use whaletracker.Sql.LogRate.{RateTest}
use whaletracker.Sql.Classify.{
  classified, Classification, validate_and_classify, classify_table, classification_of,
  is_temporary,
}
use whaletracker.Sql.Plain.{
  is_plain, statement_loop-plain, statement_loop-round, closed_quote-digits, digits-is_plain,
  trim-IsKept, IsKept, rounds, rounds-length,
}
use whaletracker.Journal.{StoredWrite}
use whaletracker.Protocol.Message.{decimal, online_remove, TypedWrite, typed, materialize, stored}
use whaletracker.Protocol.Materialized.{
  Shaped, removes, clears_host, clears_port, materialize-Checks,
}
use whaletracker.Protocol.Digits.{decimal-digits, loop-valid, validate-rounds, plain-valid}

-- What the statement of a typed write is taken for.
abbrev pub clearing : Classification
clearing = record { lane = online; invalidates_points = false }

classify-clearing :
    (rate : RateTest) (sql t : Text)
    → IsKept (trim sql)
    → target_table (head_tokens sql) ≡ some t
    → is_temporary (head_tokens sql) ≡ false
    → is_table (some t) (codes "whaletracker_log_players") ≡ false
    → classification_of sql (some t) ≡ clearing
    → validate_single_statement sql ≡ valid
    → validate_and_classify rate sql ≡ classified clearing
unfolding validate_and_classify classify_table
classify-clearing rate sql t kept found lasting other placed checked =
    rw (kept, found, lasting, other, checked, placed)

host-valid :
    (n : ℕ)
    → validate_single_statement
        (codes "DELETE FROM whaletracker_online WHERE host_port = " ++ decimal n)
      ≡ valid
unfolding is_plain
host-valid n =
    let digits = digits-is_plain (decimal n) (decimal-digits n) in
    plain-valid (codes "DELETE FROM whaletracker_online WHERE host_port = " ++ decimal n) digits

-- The words behind `WHERE` do not matter.
online-placed :
    (rate : RateTest) (condition : Text)
    → validate_single_statement (codes "DELETE FROM whaletracker_online WHERE " ++ condition)
      ≡ valid
    → validate_and_classify rate (codes "DELETE FROM whaletracker_online WHERE " ++ condition)
      ≡ classified clearing
unfolding head_tokens tokens round is_ascii_whitespace opens_line_comment next_is_whitespace next_is
    is_dash_space lowercase to_ascii_lowercase is_word is_ascii_alphanumeric word after_word
    is_temporary target_table table_index skip_modifiers is_modifier table_name word_at_is text_eq
    classification_of lane_for_table is_table invalidates_table trim_start starts_with white1 white2
    white3 is_ascii_digit
online-placed rate condition checked =
    classify-clearing rate (codes "DELETE FROM whaletracker_online WHERE " ++ condition)
      (codes "whaletracker_online")
      (trim-IsKept b'E' b'L' (codes "ETE FROM whaletracker_online WHERE " ++ condition)) refl refl
      refl refl checked

host-placed :
    (rate : RateTest) (n : ℕ)
    → validate_and_classify rate
        (codes "DELETE FROM whaletracker_online WHERE host_port = " ++ decimal n)
      ≡ classified clearing
host-placed rate n = online-placed rate (codes "host_port = " ++ decimal n) (host-valid n)

port-valid :
    (n : ℕ)
    → validate_single_statement
        (codes "DELETE FROM whaletracker_servers WHERE port = " ++ decimal n)
      ≡ valid
unfolding is_plain
port-valid n =
    let digits = digits-is_plain (decimal n) (decimal-digits n) in
    plain-valid (codes "DELETE FROM whaletracker_servers WHERE port = " ++ decimal n) digits

port-placed :
    (rate : RateTest) (n : ℕ)
    → validate_and_classify rate
        (codes "DELETE FROM whaletracker_servers WHERE port = " ++ decimal n)
      ≡ classified clearing
unfolding head_tokens tokens round is_ascii_whitespace opens_line_comment next_is_whitespace next_is
    is_dash_space lowercase to_ascii_lowercase is_word is_ascii_alphanumeric word after_word
    is_temporary target_table table_index skip_modifiers is_modifier table_name word_at_is text_eq
    classification_of lane_for_table is_table invalidates_table trim_start starts_with white1 white2
    white3 is_ascii_digit
port-placed rate n =
    classify-clearing rate (codes "DELETE FROM whaletracker_servers WHERE port = " ++ decimal n)
      (codes "whaletracker_servers")
      (trim-IsKept b'E' b'L' (codes "ETE FROM whaletracker_servers WHERE port = " ++ decimal n))
      refl refl refl refl (port-valid n)

abbrev quote_end : ℕ → Text
quote_end n = codes " AND host_port = " ++ decimal n

quote_end-is_plain : (n : ℕ) → all is_plain (quote_end n) ≡ true
unfolding is_plain
quote_end-is_plain n = let digits = digits-is_plain (decimal n) (decimal-digits n) in digits

quoted-round :
    (steam rest : Text)
    → all is_ascii_digit steam ≡ true
    → statement_round false b'\'' (steam ++ (b'\'' ∷ b' ' ∷ rest)) ≡ goes_on false (b' ' ∷ rest)
unfolding statement_round statement_byte opens_line_comment is_ascii_whitespace
quoted-round steam rest h =
    ap (λ r. or_fail r unterminated_quote false) (closed_quote-digits steam rest h)

rounds-quoted :
    (steam rest : Text) → rounds (steam ++ (b'\'' ∷ rest)) 1 ≡ rounds rest (suc (length steam + 1))
rounds-quoted steam rest = omega (
  arith,
  rounds-length (steam ++ (b'\'' ∷ rest)) 1,
  rounds-length rest (suc (length steam + 1)),
  length-append steam (b'\'' ∷ rest),
)

plain_start : all is_plain (codes "DELETE FROM whaletracker_online WHERE steamid = ") ≡ true
unfolding is_plain
plain_start = refl

player-valid :
    (steam : Text) (n : ℕ)
    → all is_ascii_digit steam ≡ true
    → validate_single_statement (online_remove steam n) ≡ valid
unfolding online_remove
player-valid steam n h =
    let tail = steam ++ (b'\'' ∷ quote_end n) in
    validate-rounds (online_remove steam n)
    ∙ statement_loop-plain (codes "DELETE FROM whaletracker_online WHERE steamid = ") (b'\'' ∷ tail)
        (suc (rounds tail 1)) plain_start
    ∙ statement_loop-round b'\'' tail (quote_end n) (rounds tail 1)
        (quoted-round steam (codes "AND host_port = " ++ decimal n) h)
    ∙ ap (λ f. statement_loop f false (quote_end n)) (rounds-quoted steam (quote_end n))
    ∙ loop-valid (quote_end n) (length steam + 1) (quote_end-is_plain n)

player-placed :
    (rate : RateTest) (steam : Text) (n : ℕ)
    → all is_ascii_digit steam ≡ true
    → validate_and_classify rate (online_remove steam n) ≡ classified clearing
unfolding online_remove
player-placed rate steam n h =
    online-placed rate (codes "steamid = '" ++ (steam ++ (codes "' AND host_port = " ++ decimal n)))
      (player-valid steam n h)

Shaped-placed :
    (rate : RateTest) (sql : Text)
    → Shaped sql
    → validate_and_classify rate sql ≡ classified clearing
Shaped-placed rate sql (removes steam port d lo hi pos) = player-placed rate steam port d
Shaped-placed rate sql (clears_host port pos) = host-placed rate port
Shaped-placed rate sql (clears_port port pos) = port-placed rate port

-- Where `materialize` stores a typed write of a client, `validate_and_classify` accepts its
-- statement, whatever the test on rates, with the online lane and without an invalidation of the
-- points: whatever the kind, the player and the port of the write.
pub materialize-placed :
    (rate : RateTest) (w : TypedWrite) (batch_id : Option ℤ) (max_sql_bytes : ℕ) (generated : Text)
    (stamp : ℕ) (s : StoredWrite)
    → materialize (typed w) batch_id max_sql_bytes generated stamp ≡ stored s
    → validate_and_classify rate s.sql
      ≡ classified (record { lane = online; invalidates_points = false })
materialize-placed rate w batch_id max_sql_bytes generated stamp s e =
    let (r, made, checked, shape) =
      materialize-Checks (typed w) batch_id max_sql_bytes generated stamp s e in
    Shaped-placed rate s.sql (shape w refl)

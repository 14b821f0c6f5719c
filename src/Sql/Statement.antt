-- ===== src/Sql/Statement.antt =====
-- src/sql.rs, `validate_single_statement`. The index `at` is the text from there on.
use whaletracker.Prelude.{
  ℕ, zero, suc, [], ◌∷◌, Bool, true, false, not, ◌&&◌, ◌||◌, Option, none, some, ◌==◌,
  if◌then◌else◌, length, drop, Text, ℤ,
}
use whaletracker.Ascii.{is_ascii_whitespace}
use whaletracker.Sql.Tokens.{next_is, opens_line_comment, skip_line}

-- The errors of `validate_and_classify`.
pub data SqlError : Type 0 where
  empty_write not_a_table_write nul_byte executable_comment unterminated_comment : SqlError
  multiple_statements unterminated_quote : SqlError
  missing_damage missing_damage_taken missing_playtime : SqlError
  implausible_rate : ℤ → ℤ → ℤ → SqlError
  -- None of the source: the model's loop was cut.
  out_of_fuel : SqlError

-- From behind `/*` to behind `*/`; `none` where the comment is not closed.
unfoldable pub closed_comment : Text → Option Text
closed_comment [] = none
closed_comment (a ∷ []) = none
closed_comment (a ∷ b ∷ rest) =
    let more = closed_comment (b ∷ rest) in if a == b'*' && b == b'/' then some rest else more

-- From behind the opening quote to behind the closing one; a backslash hides no byte in backticks.
unfoldable pub closed_quote : ℕ → Text → Option Text
closed_quote q [] = none
closed_quote q (a ∷ []) =
    if a == b'\\' && not (q == b'`') then none else if a == q then some [] else none
closed_quote q (a ∷ b ∷ rest) = elim (a == b'\\' && not (q == b'`')) [
  | true ↦ closed_quote q rest
  | false ↦ elim (a == q) [
    | true ↦ elim (b == q) [ true ↦ closed_quote q rest | false ↦ some (b ∷ rest) ]
    | false ↦ closed_quote q (b ∷ rest)
  ]
]

pub data Progress : Type 0 where
  fails : SqlError → Progress
  goes_on : Bool → Text → Progress

abbrev pub or_fail : Option Text → SqlError → Bool → Progress
or_fail none e ended = fails e
or_fail (some rest) e ended = goes_on ended rest

abbrev is_quote : ℕ → Bool
is_quote c = c == b'\'' || c == b'"' || c == b'`'

-- The last branches, behind the white space and the comments.
unfoldable pub statement_byte : Bool → ℕ → Text → Progress
unfolding closed_quote
statement_byte ended c cs =
    if ended
    then fails multiple_statements
    else if c == b';'
    then goes_on true cs
    else if is_quote c
    then or_fail (closed_quote c cs) unterminated_quote ended
    else goes_on ended cs

-- One round of the loop.
unfoldable pub statement_round : Bool → ℕ → Text → Progress
unfolding is_ascii_whitespace opens_line_comment skip_line next_is closed_comment statement_byte
statement_round ended c cs =
    if c == 0
    then fails nul_byte
    else if is_ascii_whitespace c
    then goes_on ended cs
    else if opens_line_comment c cs
    then goes_on ended (skip_line (c ∷ cs))
    else if c == b'/' && next_is b'*' cs
    then if next_is b'!' (drop 1 cs)
      then fails executable_comment
      else or_fail (closed_comment (drop 1 cs)) unterminated_comment ended
    else statement_byte ended c cs

pub data Checked : Type 0 where
  valid : Checked
  invalid : SqlError → Checked

unfoldable pub statement_loop : ℕ → Bool → Text → Checked
unfolding statement_round
statement_loop zero ended bytes = invalid out_of_fuel
statement_loop (suc fuel) ended [] = valid
statement_loop (suc fuel) ended (c ∷ cs) = elim (statement_round ended c cs) [
  | fails e ↦ invalid e
  | goes_on ended' rest ↦ statement_loop fuel ended' rest
]

unfoldable pub validate_single_statement : Text → Checked
unfolding statement_loop
validate_single_statement sql = statement_loop (suc (length sql)) false sql

-- ===== src/Sql/Ends.antt =====
-- src/sql.rs: the loops of `head_tokens` and `validate_single_statement` come to their ends.
use whaletracker.Prelude.{
  ℕ, zero, suc, ◌≤◌, ◌<◌, ◌≡◌, ◌≢◌, ◌⊎◌, inl, inr, refl, [], ◌∷◌, Bool, true, false, ◌&&◌, ◌||◌,
  ◌==◌, some, arith, length, drop, Text, Bool-cases, Option-cases,
}
use whaletracker.Ascii.{is_ascii_whitespace}
use whaletracker.Sql.Tokens.{
  next_is, opens_line_comment, skip_line, skip_comment, skip_quoted, after_backtick, is_word,
  after_word, Round, stop, skip, token, round, tokens, head_tokens,
}
use whaletracker.Sql.Statement.{
  SqlError, out_of_fuel, unterminated_comment, or_fail, closed_comment, closed_quote, Progress,
  fails, goes_on, statement_byte, statement_round, invalid, statement_loop,
  validate_single_statement,
}

skip_line_le : (bs : Text) → length (skip_line bs) ≤ length bs
unfolding skip_line
skip_line_le [] = omega arith
skip_line_le (b ∷ bs) = ground (arith, skip_line_le bs)

skip_line_comment :
    (c : ℕ) (cs : Text) → opens_line_comment c cs ≡ true → length (skip_line (c ∷ cs)) ≤ length cs
unfolding skip_line opens_line_comment
skip_line_comment c cs h = ground (arith, skip_line_le cs)

skip_comment_le : (bs : Text) → length (skip_comment bs) ≤ length bs
unfolding skip_comment
skip_comment_le [] = omega arith
skip_comment_le (a ∷ []) = omega arith
skip_comment_le (a ∷ b ∷ rest) = ground (arith, skip_comment_le (b ∷ rest))

skip_quoted_le : (q : ℕ) (bs : Text) → length (skip_quoted q bs) ≤ length bs
unfolding skip_quoted
skip_quoted_le q [] = omega arith
skip_quoted_le q (a ∷ []) = omega arith
skip_quoted_le q (a ∷ b ∷ rest) = ground (arith, skip_quoted_le q rest, skip_quoted_le q (b ∷ rest))

after_backtick_le : (bs : Text) → length (after_backtick bs) ≤ length bs
unfolding after_backtick
after_backtick_le [] = omega arith
after_backtick_le (b ∷ bs) = ground (arith, after_backtick_le bs)

after_word_le : (bs : Text) → length (after_word bs) ≤ length bs
unfolding after_word
after_word_le [] = omega arith
after_word_le (b ∷ bs) = ground (arith, after_word_le bs)

drop_one_le : (cs : Text) → length (drop 1 cs) ≤ length cs
drop_one_le [] = omega arith
drop_one_le (c ∷ cs) = omega arith

-- What a round leaves is no longer than what is behind its first byte.
abbrev Shorter : ℕ → Round → Type 0
Shorter n stop = Unit {0}
Shorter n (skip rest) = length rest ≤ n
Shorter n (token t rest) = length rest ≤ n

round-Shorter : (c : ℕ) (cs : Text) → Shorter (length cs) (round c cs)
unfolding round
round-Shorter c cs =
    let same : length cs ≤ length cs = omega arith in
    let comment : length (skip_comment (drop 1 cs)) ≤ length cs =
      omega (arith, skip_comment_le (drop 1 cs), drop_one_le cs) in
    elim (Bool-cases (is_ascii_whitespace c)) [
      | inl h ↦ rw h same
      | inr h ↦ rw h (elim (Bool-cases (opens_line_comment c cs)) [
        | inl h ↦ rw h (skip_line_comment c cs h)
        | inr h ↦ rw h (elim (Bool-cases (c == b'/' && next_is b'*' cs)) [
          | inl h ↦ rw h comment
          | inr h ↦ rw h (elim (Bool-cases (c == b'\'' || c == b'"')) [
            | inl h ↦ rw h (skip_quoted_le c cs)
            | inr h ↦ rw h (elim (Bool-cases (c == b'`')) [
              | inl h ↦ rw h (after_backtick_le cs)
              | inr h ↦ rw h (elim (Bool-cases (is_word c)) [
                | inl h ↦ rw h (after_word_le cs)
                | inr h ↦ rw h (elim (Bool-cases (c == b'(')) [
                  | inl h ↦ rw h tt
                  | inr h ↦
                      rw h
                        (elim (Bool-cases (c == b'.')) [ inl h ↦ rw h same | inr h ↦ rw h (same) ])
                ])
              ])
            ])
          ])
        ])
      ])
    ]

Round-cases :
    (x : Round)
    → (x ≡ stop)
      ⊎ (((rest : Text) × (x ≡ skip rest)) ⊎ ((t : Text) × (rest : Text) × (x ≡ token t rest)))
Round-cases stop = inl refl
Round-cases (skip rest) = inr (inl (rest, refl))
Round-cases (token t rest) = inr (inr (t, rest, refl))

-- More fuel than bytes changes nothing.
tokens_fuel :
    (f g room : ℕ) (bytes : Text)
    → length bytes < f
    → length bytes < g
    → tokens f room bytes ≡ tokens g room bytes
unfolding tokens
tokens_fuel zero g room bytes h k = absurd (omega arith)
tokens_fuel (suc f) zero room bytes h k = absurd (omega arith)
tokens_fuel (suc f) (suc g) room [] h k = ground arith
tokens_fuel (suc f) (suc g) zero (c ∷ cs) h k = refl
tokens_fuel (suc f) (suc g) (suc room) (c ∷ cs) h k =
    let short = round-Shorter c cs in
    elim (Round-cases (round c cs)) [
      | inl e ↦ ground (arith, e)
      | inr (inl (rest, e)) ↦
          let less : length rest ≤ length cs = rw e at short in
          ground (arith, e, tokens_fuel f g (suc room) rest (omega arith) (omega arith))
      | inr (inr (t, rest, e)) ↦
          let less : length rest ≤ length cs = rw e at short in
          ground (arith, e, tokens_fuel f g room rest (omega arith) (omega arith))
    ]

-- The fuel of `head_tokens` is enough for every statement: with any more it gives the same tokens.
pub head_tokens_enough :
    (sql : Text) (fuel : ℕ) → length sql < fuel → tokens fuel 32 sql ≡ head_tokens sql
unfolding head_tokens
head_tokens_enough sql fuel h = tokens_fuel fuel (suc (length sql)) 32 sql h (omega arith)

closed_comment_le : (bs rest : Text) → closed_comment bs ≡ some rest → length rest ≤ length bs
unfolding closed_comment
closed_comment_le [] rest e = cc
closed_comment_le (a ∷ []) rest e = cc
closed_comment_le (a ∷ b ∷ bs) rest e = ground (arith, closed_comment_le (b ∷ bs) rest)

closed_quote_le : (q : ℕ) (bs rest : Text) → closed_quote q bs ≡ some rest → length rest ≤ length bs
unfolding closed_quote
closed_quote_le q [] rest e = cc
closed_quote_le q (a ∷ []) rest e = ground arith
closed_quote_le q (a ∷ b ∷ bs) rest e =
    ground (arith, closed_quote_le q bs rest, closed_quote_le q (b ∷ bs) rest)

-- A round fails with an error of the source, or leaves less.
abbrev Moves : ℕ → Progress → Type 0
Moves n (fails e) = e ≢ out_of_fuel
Moves n (goes_on ended rest) = length rest ≤ n

statement_byte-Moves :
    (ended : Bool) (c : ℕ) (cs : Text) → Moves (length cs) (statement_byte ended c cs)
unfolding statement_byte
statement_byte-Moves ended c cs = elim (Option-cases (closed_quote c cs)) [
  | inl unclosed ↦ ground (arith, unclosed)
  | inr (rest, closed) ↦ ground (arith, closed, closed_quote_le c cs rest)
]

comment-Moves :
    (ended : Bool) (cs : Text)
    → Moves (length cs) (or_fail (closed_comment (drop 1 cs)) unterminated_comment ended)
comment-Moves ended cs = elim (Option-cases (closed_comment (drop 1 cs))) [
  | inl unclosed ↦ rw unclosed (λ e. cc)
  | inr (rest, closed) ↦
      rw closed (omega (arith, closed_comment_le (drop 1 cs) rest closed, drop_one_le cs))
]

statement_round-Moves :
    (ended : Bool) (c : ℕ) (cs : Text) → Moves (length cs) (statement_round ended c cs)
unfolding statement_round
statement_round-Moves ended c cs =
    let same : length cs ≤ length cs = omega arith in
    elim (Bool-cases (c == 0)) [
      | inl h ↦ rw h (λ e. cc)
      | inr h ↦ rw h (elim (Bool-cases (is_ascii_whitespace c)) [
        | inl h ↦ rw h same
        | inr h ↦ rw h (elim (Bool-cases (opens_line_comment c cs)) [
          | inl h ↦ rw h (skip_line_comment c cs h)
          | inr h ↦ rw h (elim (Bool-cases (c == b'/' && next_is b'*' cs)) [
            | inl h ↦ rw h (elim (Bool-cases (next_is b'!' (drop 1 cs))) [
              | inl k ↦ rw k (λ e. cc)
              | inr k ↦ rw k (comment-Moves ended cs)
            ])
            | inr h ↦ rw h (statement_byte-Moves ended c cs)
          ])
        ])
      ])
    ]

Progress-cases :
    (x : Progress)
    → ((e : SqlError) × (x ≡ fails e)) ⊎ ((ended : Bool) × (rest : Text) × (x ≡ goes_on ended rest))
Progress-cases (fails e) = inl (e, refl)
Progress-cases (goes_on ended rest) = inr (ended, rest, refl)

statement_loop_ends :
    (fuel : ℕ) (ended : Bool) (bytes : Text)
    → length bytes < fuel
    → statement_loop fuel ended bytes ≢ invalid out_of_fuel
unfolding statement_loop
statement_loop_ends zero ended bytes h e = absurd (omega arith)
statement_loop_ends (suc fuel) ended [] h e = cc
statement_loop_ends (suc fuel) ended (c ∷ cs) h e =
    let moves = statement_round-Moves ended c cs in
    elim (Progress-cases (statement_round ended c cs)) [
      | inl (why, r) ↦ let named : why ≢ out_of_fuel = rw r at moves in named (ground (arith, r))
      | inr (later, rest, r) ↦
          let less : length rest ≤ length cs = rw r at moves in
          statement_loop_ends fuel later rest (omega arith) (ground (arith, r))
    ]

-- More fuel than bytes changes nothing.
pub statement_loop_fuel :
    (f g : ℕ) (ended : Bool) (bytes : Text)
    → length bytes < f
    → length bytes < g
    → statement_loop f ended bytes ≡ statement_loop g ended bytes
unfolding statement_loop
statement_loop_fuel zero g ended bytes h k = absurd (omega arith)
statement_loop_fuel (suc f) zero ended bytes h k = absurd (omega arith)
statement_loop_fuel (suc f) (suc g) ended [] h k = refl
statement_loop_fuel (suc f) (suc g) ended (c ∷ cs) h k =
    let moves = statement_round-Moves ended c cs in
    elim (Progress-cases (statement_round ended c cs)) [
      | inl (why, r) ↦ ground (arith, r)
      | inr (later, rest, r) ↦
          let less : length rest ≤ length cs = rw r at moves in
          ground (arith, r, statement_loop_fuel f g later rest (omega arith) (omega arith))
    ]

-- The fuel of `validate_single_statement` is enough for every statement: it accepts it, or refuses
-- it with one of the errors of the source.
pub validate_single_statement_ends :
    (sql : Text) → validate_single_statement sql ≢ invalid out_of_fuel
unfolding validate_single_statement
validate_single_statement_ends sql e =
    statement_loop_ends (suc (length sql)) false sql (omega arith) e

-- ===== src/Sql/Commented.antt =====
-- src/sql.rs: a comment in front of a statement, such as the marks that end a round of points.
use whaletracker.Prelude.{
  ℕ, suc, ◌<◌, List, ◌≡◌, ◌∙◌, ◌⊎◌, ap, refl, arith, [], ◌∷◌, ◌++◌, Bool, false, ◌&&◌, ◌||◌, ◌==◌,
  some, Option, codes, Bool-cases, inl, inr, length, length-append, Text,
}
use whaletracker.Ascii.{is_ascii_whitespace, trim}
use whaletracker.Sql.Tokens.{
  next_is, opens_line_comment, skip_comment, Round, stop, skip, token, round, tokens, head_tokens,
}
use whaletracker.Sql.Statement.{
  SqlError, Checked, valid, invalid, closed_comment, goes_on, statement_round,
  validate_single_statement,
}
use whaletracker.Sql.LogRate.{RateTest}
use whaletracker.Sql.Target.{is_table, target_table, invalidates_table}
use whaletracker.Sql.Classify.{
  Classification, classified, classification_of, classify_table, validate_and_classify,
  is_temporary, is_none,
}
use whaletracker.Sql.Ends.{head_tokens_enough, statement_loop_fuel}
use whaletracker.Sql.Plain.{IsKept, trim-slash, statement_loop-round}

-- Whether a text has a `*/`.
unfoldable pub closes : Text → Bool
closes [] = false
closes (a ∷ []) = false
closes (a ∷ b ∷ rest) = (a == b'*' && b == b'/') || closes (b ∷ rest)

-- A statement behind a comment with the text `body`.
abbrev pub commented : Text → Text → Text
commented body sql = b'/' ∷ b'*' ∷ (body ++ (b'*' ∷ b'/' ∷ sql))

skip_comment-body :
    (body sql : Text) → closes body ≡ false → skip_comment (body ++ (b'*' ∷ b'/' ∷ sql)) ≡ sql
unfolding skip_comment closes
skip_comment-body [] sql h = refl
skip_comment-body (a ∷ []) sql h = ground arith
skip_comment-body (a ∷ b ∷ rest) sql h = ground (arith, skip_comment-body (b ∷ rest) sql)

closed_comment-body :
    (body sql : Text)
    → closes body ≡ false
    → closed_comment (body ++ (b'*' ∷ b'/' ∷ sql)) ≡ some sql
unfolding closed_comment closes
closed_comment-body [] sql h = refl
closed_comment-body (a ∷ []) sql h = ground arith
closed_comment-body (a ∷ b ∷ rest) sql h = ground (arith, closed_comment-body (b ∷ rest) sql)

length-commented : (body sql : Text) → length sql < length (commented body sql)
length-commented body sql = omega (arith, length-append body (b'*' ∷ b'/' ∷ sql))

abbrev next_tokens : ℕ → ℕ → Round → List Text
next_tokens fuel room stop = []
next_tokens fuel room (skip rest) = tokens fuel (suc room) rest
next_tokens fuel room (token t rest) = t ∷ tokens fuel room rest

tokens-skip :
    (fuel room c : ℕ) (cs rest : Text)
    → round c cs ≡ skip rest
    → tokens (suc fuel) (suc room) (c ∷ cs) ≡ tokens fuel (suc room) rest
unfolding tokens
tokens-skip fuel room c cs rest h = ap (next_tokens fuel room) h

round-comment :
    (body sql : Text)
    → closes body ≡ false
    → round b'/' (b'*' ∷ (body ++ (b'*' ∷ b'/' ∷ sql))) ≡ skip sql
unfolding round is_ascii_whitespace opens_line_comment next_is
round-comment body sql h = ap skip (skip_comment-body body sql h)

head_tokens-commented :
    (body sql : Text) → closes body ≡ false → head_tokens (commented body sql) ≡ head_tokens sql
unfolding head_tokens
head_tokens-commented body sql h =
    tokens-skip (length (commented body sql)) 31 b'/' (b'*' ∷ (body ++ (b'*' ∷ b'/' ∷ sql))) sql
      (round-comment body sql h)
    ∙ head_tokens_enough sql (length (commented body sql)) (length-commented body sql)

not_executable :
    (body sql : Text)
    → next_is b'!' body ≡ false
    → next_is b'!' (body ++ (b'*' ∷ b'/' ∷ sql)) ≡ false
unfolding next_is
not_executable [] sql h = refl
not_executable (b ∷ body) sql h = h

round-commented :
    (body sql : Text)
    → closes body ≡ false
    → next_is b'!' body ≡ false
    → statement_round false b'/' (b'*' ∷ (body ++ (b'*' ∷ b'/' ∷ sql))) ≡ goes_on false sql
unfolding statement_round is_ascii_whitespace opens_line_comment
round-commented body sql h n = rw (not_executable body sql n, closed_comment-body body sql h)

validate-commented :
    (body sql : Text)
    → closes body ≡ false
    → next_is b'!' body ≡ false
    → validate_single_statement (commented body sql) ≡ validate_single_statement sql
unfolding validate_single_statement
validate-commented body sql h n =
    statement_loop-round b'/' (b'*' ∷ (body ++ (b'*' ∷ b'/' ∷ sql))) sql
      (length (commented body sql)) (round-commented body sql h n)
    ∙ statement_loop_fuel (length (commented body sql)) (suc (length sql)) false sql
        (length-commented body sql) (omega arith)

abbrev is_refused : List Text → Option Text → Bool
is_refused head t = is_none t || is_temporary head

-- A statement on another table than that of the log's players passes just by these checks.
classify_table-passes :
    (rate : RateTest) (sql : Text) (head : List Text) (t : Option Text)
    → is_table t (codes "whaletracker_log_players") ≡ false
    → is_refused head t ≡ false
    → validate_single_statement sql ≡ valid
    → classify_table rate sql head t ≡ classified (classification_of sql t)
unfolding classify_table
classify_table-passes rate sql head t other good one = rw (good, one, other, classify_table) refl

Checked-cases : (x : Checked) → (x ≡ valid) ⊎ ((e : SqlError) × (x ≡ invalid e))
Checked-cases valid = inl refl
Checked-cases (invalid e) = inr (e, refl)

-- And by no others.
record Passes (sql : Text) (head : List Text) (t : Option Text) (c : Classification) : Type 0 where
  not_refused : is_refused head t ≡ false
  one_statement : validate_single_statement sql ≡ valid
  class_is : c ≡ classification_of sql t

classify_table-Passes :
    (rate : RateTest) (sql : Text) (head : List Text) (t : Option Text) (c : Classification)
    → is_table t (codes "whaletracker_log_players") ≡ false
    → classify_table rate sql head t ≡ classified c
    → Passes sql head t c
unfolding classify_table
classify_table-Passes rate sql head t c other e = elim (Bool-cases (is_refused head t)) [
  | inl bad ↦ let e' = rw (bad, classify_table) at e in cc
  | inr good ↦ elim (Checked-cases (validate_single_statement sql)) [
    | inr (why, bad) ↦ let e' = rw (good, bad, classify_table) at e in cc
    | inl one ↦
        let e' : classified (classification_of sql t) ≡ classified c =
          rw (good, one, other, classify_table) at e in
        record { not_refused = good; one_statement = one; class_is = cc }
  ]
]

commented-IsKept : (body sql : Text) → IsKept (trim (commented body sql))
commented-IsKept [] sql = trim-slash b'*' b'*' (b'/' ∷ sql)
commented-IsKept (b ∷ body) sql = trim-slash b'*' b (body ++ (b'*' ∷ b'/' ∷ sql))

-- A comment without `*/` that does not begin with `!`, in front of a statement that is accepted and
-- writes no players of the log: the two together are accepted, with the lane of the statement, and they
-- invalidate the points as `invalidates_table` says of the comment and the table.
pub classified-commented :
    (rate : RateTest) (body sql : Text) (c : Classification)
    → closes body ≡ false
    → next_is b'!' body ≡ false
    → is_table (target_table (head_tokens sql)) (codes "whaletracker_log_players") ≡ false
    → validate_and_classify rate sql ≡ classified c
    → validate_and_classify rate (commented body sql)
      ≡ classified (record c {
        invalidates_points =
            invalidates_table (commented body sql) (target_table (head_tokens sql));
      })
unfolding validate_and_classify classification_of
classified-commented rate body sql c h n other e = elim (Bool-cases (length (trim sql) == 0)) [
  | inl blank ↦ let e' = rw (blank, validate_and_classify) at e in cc
  | inr text ↦
      let t = target_table (head_tokens sql) in
      let p =
        classify_table-Passes rate sql (head_tokens sql) t c other
          (rw (text, validate_and_classify) at e) in
      let one = validate-commented body sql h n ∙ p.one_statement in
      rw
        (
          commented-IsKept body sql,
          head_tokens-commented body sql h,
          p.class_is,
          validate_and_classify,
        )
        (classify_table-passes rate (commented body sql) (head_tokens sql) t other p.not_refused
          one)
]

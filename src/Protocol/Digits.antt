-- ===== src/Protocol/Digits.antt =====
-- src/protocol.rs, a number in a typed write, and texts without comments or quotes in src/sql.rs.
use whaletracker.Prelude.{
  ℕ, zero, suc, ◌+◌, ◌≡◌, refl, sym, ap, ◌∙◌, arith, [], ◌∷◌, append-nil, true, false, Bool-cases,
  inl, inr, ◌/◌, ◌%◌, length, all, Text, ltb,
}
use whaletracker.Ascii.{is_ascii_digit}
use whaletracker.Sql.Statement.{valid, validate_single_statement, statement_loop}
use whaletracker.Sql.Plain.{is_plain, statement_loop-plain, rounds, rounds-length}
use whaletracker.Protocol.Message.{decimal, decimal_loop}

remainder-digit : (n : ℕ) → is_ascii_digit (b'0' + n % 10) ≡ true
unfolding is_ascii_digit
remainder-digit n = ground arith

last-digit : (n : ℕ) → ltb n 10 ≡ true → is_ascii_digit (b'0' + n) ≡ true
unfolding is_ascii_digit
last-digit n h = ground arith

decimal_loop-digits :
    (fuel n : ℕ) (ds : Text)
    → all is_ascii_digit ds ≡ true
    → all is_ascii_digit (decimal_loop fuel n ds) ≡ true
unfolding decimal_loop
decimal_loop-digits zero n ds h = h
decimal_loop-digits (suc fuel) n ds h =
    let more =
      decimal_loop-digits fuel (n / 10) ((b'0' + n % 10) ∷ ds)
        (ground (arith, h, remainder-digit n)) in
    elim (Bool-cases (ltb n 10)) [
      | inl small ↦ ground (arith, small, h, last-digit n small)
      | inr large ↦ ground (arith, large, more)
    ]

pub decimal-digits : (n : ℕ) → all is_ascii_digit (decimal n) ≡ true
unfolding decimal
decimal-digits n = decimal_loop-digits 20 n [] refl

pub loop-valid :
    (bs : Text) (k : ℕ)
    → all is_plain bs ≡ true
    → statement_loop (rounds bs (suc k)) false bs ≡ valid
unfolding statement_loop
loop-valid bs k h =
    ap (statement_loop (rounds bs (suc k)) false) (sym (append-nil bs))
    ∙ statement_loop-plain bs [] (suc k) h

pub validate-rounds :
    (sql : Text) → validate_single_statement sql ≡ statement_loop (rounds sql 1) false sql
unfolding validate_single_statement
validate-rounds sql =
    let same : suc (length sql) ≡ rounds sql 1 = omega (arith, rounds-length sql 1) in
    ap (λ f. statement_loop f false sql) same

pub plain-valid : (sql : Text) → all is_plain sql ≡ true → validate_single_statement sql ≡ valid
plain-valid sql h = validate-rounds sql ∙ loop-valid sql 0 h

-- ===== src/Sql/Plain.antt =====
-- src/sql.rs: `validate_single_statement` and `trim` on texts that have nothing to be skipped.
use mathlib.Core.List.{reverse, reverse-cons}
use whaletracker.Prelude.{
  ℕ, suc, ◌+◌, ◌≡◌, refl, arith, [], ◌∷◌, ◌++◌, Bool, true, false, not, ◌&&◌, ◌||◌, ◌∙◌, ap, some,
  inl, inr, Bool-cases, ◌==◌, length, length-append, all, Text,
}
use whaletracker.Ascii.{is_ascii_digit, trim, trim_start, trim_reversed, white1, white2, white3}
use whaletracker.Sql.Tokens.{opens_line_comment}
use whaletracker.Sql.Statement.{
  Progress, fails, goes_on, closed_quote, statement_byte, statement_round, Checked, invalid,
  statement_loop,
}

-- A byte that is no part of a comment, a quote or the end of a statement.
unfoldable pub is_plain : ℕ → Bool
is_plain b = not (
    b == 0
    || b == b'#'
    || b == b'-'
    || b == b'/'
    || b == b';'
    || b == b'\''
    || b == b'"'
    || b == b'`')

plain-round :
    (b : ℕ) (bs : Text) → is_plain b ≡ true → statement_round false b bs ≡ goes_on false bs
unfolding is_plain statement_round opens_line_comment statement_byte
plain-round b bs h = ground arith

-- The rounds that a text takes at most, one for each byte, and `k` more.
abbrev pub rounds : Text → ℕ → ℕ
rounds [] k = k
rounds (b ∷ bs) k = suc (rounds bs k)

pub rounds-length : (bs : Text) (k : ℕ) → rounds bs k ≡ length bs + k
rounds-length [] k = omega arith
rounds-length (b ∷ bs) k = omega (arith, rounds-length bs k)

abbrev next_round : ℕ → Progress → Checked
next_round fuel (fails e) = invalid e
next_round fuel (goes_on ended bs) = statement_loop fuel ended bs

pub statement_loop-round :
    (c : ℕ) (cs rest : Text) (fuel : ℕ)
    → statement_round false c cs ≡ goes_on false rest
    → statement_loop (suc fuel) false (c ∷ cs) ≡ statement_loop fuel false rest
unfolding statement_loop
statement_loop-round c cs rest fuel h = ap (next_round fuel) h

-- Plain bytes are passed over, one in a round.
pub statement_loop-plain :
    (ps rest : Text) (k : ℕ)
    → all is_plain ps ≡ true
    → statement_loop (rounds ps k) false (ps ++ rest) ≡ statement_loop k false rest
statement_loop-plain [] rest k h = refl
statement_loop-plain (p ∷ ps) rest k h =
    statement_loop-round p (ps ++ rest) (ps ++ rest) (rounds ps k)
      (plain-round p (ps ++ rest) (ground (arith, h)))
    ∙ statement_loop-plain ps rest k (ground (arith, h))

abbrev quote_step {ℓ} : {A : Type ℓ} → Bool → Bool → A → A → A → A
quote_step s q hidden ends more = elim s [
  | true ↦ hidden
  | false ↦ elim q [ true ↦ ends | false ↦ more ]
]

quote_step-neither {ℓ} :
    {A : Type ℓ} (s q : Bool) (hidden ends more : A)
    → s ≡ false
    → q ≡ false
    → quote_step s q hidden ends more ≡ more
quote_step-neither true q hidden ends more h g = absurd (ground arith)
quote_step-neither false true hidden ends more h g = absurd (ground arith)
quote_step-neither false false hidden ends more h g = refl

closed_quote-step :
    (d b : ℕ) (bs : Text)
    → closed_quote b'\'' (d ∷ b ∷ bs)
      ≡ quote_step
          (d == b'\\' && not (b'\'' == b'`'))
          (d == b'\'')
          (closed_quote b'\'' bs)
          (elim (b == b'\'') [ true ↦ closed_quote b'\'' bs | false ↦ some (b ∷ bs) ])
          (closed_quote b'\'' (b ∷ bs))
unfolding closed_quote
closed_quote-step d b bs = refl

closed_quote-digit :
    (d b : ℕ) (bs : Text)
    → is_ascii_digit d ≡ true
    → closed_quote b'\'' (d ∷ b ∷ bs) ≡ closed_quote b'\'' (b ∷ bs)
unfolding is_ascii_digit
closed_quote-digit d b bs h =
    closed_quote-step d b bs
    ∙ quote_step-neither (d == b'\\' && not (b'\'' == b'`')) (d == b'\'') (closed_quote b'\'' bs)
        (elim (b == b'\'') [ true ↦ closed_quote b'\'' bs | false ↦ some (b ∷ bs) ])
        (closed_quote b'\'' (b ∷ bs)) (ground arith) (ground arith)

-- A quoted text of digits is passed over with its quotes.
pub closed_quote-digits :
    (ds rest : Text)
    → all is_ascii_digit ds ≡ true
    → closed_quote b'\'' (ds ++ (b'\'' ∷ b' ' ∷ rest)) ≡ some (b' ' ∷ rest)
unfolding closed_quote
closed_quote-digits [] rest h = refl
closed_quote-digits (d ∷ []) rest h = closed_quote-digit d b'\'' (b' ' ∷ rest) (ground (arith, h))
closed_quote-digits (d ∷ e ∷ ds) rest h =
    closed_quote-digit d e (ds ++ (b'\'' ∷ b' ' ∷ rest)) (ground (arith, h))
    ∙ closed_quote-digits (e ∷ ds) rest (ground (arith, h))

digit-is_plain : (d : ℕ) → is_ascii_digit d ≡ true → is_plain d ≡ true
unfolding is_plain is_ascii_digit
digit-is_plain d h = ground arith

pub digits-is_plain : (ds : Text) → all is_ascii_digit ds ≡ true → all is_plain ds ≡ true
digits-is_plain [] h = refl
digits-is_plain (d ∷ ds) h =
    let first = digit-is_plain d (ground (arith, h)) in
    let others = digits-is_plain ds (ground (arith, h)) in ground arith

abbrev pub IsKept : Text → Type 0
IsKept t = (length t == 0) ≡ false

abbrev trim_step : Bool → Bool → Bool → Text → Text → Text → Text → Text
trim_step w v u one two three here = elim w [
  | true ↦ one
  | false ↦ elim v [ true ↦ two | false ↦ elim u [ true ↦ three | false ↦ here ] ]
]

trim_step-IsKept :
    (w v u : Bool) (one two three here : Text)
    → IsKept one
    → (v ≡ true → IsKept two)
    → (u ≡ true → IsKept three)
    → IsKept here
    → IsKept (trim_step w v u one two three here)
trim_step-IsKept true v u one two three here h1 h2 h3 h4 = h1
trim_step-IsKept false true u one two three here h1 h2 h3 h4 = h2 refl
trim_step-IsKept false false true one two three here h1 h2 h3 h4 = h3 refl
trim_step-IsKept false false false one two three here h1 h2 h3 h4 = h4

-- No white space, and no first byte of a white character of two or three bytes.
pub record StartsText (d : ℕ) : Type 0 where
  pub not_white1 : white1 d ≡ false
  pub not_white2 : (a : ℕ) → white2 d a ≡ false
  pub not_white3 : (b a : ℕ) → white3 d b a ≡ false

reverse-IsKept : (t : Text) → IsKept t → IsKept (reverse t)
reverse-IsKept [] h = absurd (ground (arith, h))
reverse-IsKept (b ∷ bs) h =
    rw (reverse-cons b bs) (ground (arith, length-append (reverse bs) (b ∷ [])))

module _ (d : ℕ) (o : StartsText d) where
  one-IsKept : IsKept (trim_reversed (d ∷ []))
  unfolding trim_reversed
  one-IsKept = rw (o.not_white1, trim_reversed) refl

  -- What `trim_end` leaves is not empty.
  trim_reversed-IsKept : (bs : Text) → IsKept (trim_reversed (bs ++ (d ∷ [])))
  unfolding trim_reversed
  trim_reversed-IsKept [] = one-IsKept
  trim_reversed-IsKept (a ∷ []) = elim (Bool-cases (white1 a)) [
    | inl w ↦ rw (w, trim_reversed) one-IsKept
    | inr w ↦ rw (w, o.not_white2 a, trim_reversed) refl
  ]
  trim_reversed-IsKept (a ∷ b ∷ []) =
      trim_step-IsKept (white1 a) (white2 b a) (white3 d b a) (trim_reversed (b ∷ d ∷ []))
        (trim_reversed (d ∷ [])) [] (a ∷ b ∷ d ∷ []) (trim_reversed-IsKept (b ∷ []))
        (λ e. one-IsKept) (λ e. absurd (ground (arith, e, o.not_white3 b a))) refl
  trim_reversed-IsKept (a ∷ b ∷ c ∷ bs) =
      trim_step-IsKept (white1 a) (white2 b a) (white3 c b a)
        (trim_reversed (b ∷ c ∷ bs ++ (d ∷ []))) (trim_reversed (c ∷ bs ++ (d ∷ [])))
        (trim_reversed (bs ++ (d ∷ []))) (a ∷ b ∷ c ∷ bs ++ (d ∷ []))
        (trim_reversed-IsKept (b ∷ c ∷ bs)) (λ e. trim_reversed-IsKept (c ∷ bs))
        (λ e. trim_reversed-IsKept bs) (ground arith)

  trim_nonempty : (bs : Text) → trim_start (d ∷ bs) ≡ d ∷ bs → IsKept (trim (d ∷ bs))
  unfolding trim
  trim_nonempty bs same = rw same (
      reverse-IsKept (trim_reversed (reverse (d ∷ bs)))
        (rw (reverse-cons d bs) (trim_reversed-IsKept (reverse bs))))

letter_D : StartsText b'D'
unfolding white1 white2 white3
letter_D = record { not_white1 = refl; not_white2 = λ a. refl; not_white3 = λ b a. refl }

slash : StartsText b'/'
unfolding white1 white2 white3
slash = record { not_white1 = refl; not_white2 = λ a. refl; not_white3 = λ b a. refl }

-- Texts that begin so are not empty without the white space around them.
pub trim-IsKept : (b c : ℕ) (bs : Text) → IsKept (trim (b'D' ∷ b ∷ c ∷ bs))
unfolding trim_start white1 white2 white3
trim-IsKept b c bs = trim_nonempty b'D' letter_D (b ∷ c ∷ bs) refl

pub trim-slash : (b c : ℕ) (bs : Text) → IsKept (trim (b'/' ∷ b ∷ c ∷ bs))
unfolding trim_start white1 white2 white3
trim-slash b c bs = trim_nonempty b'/' slash (b ∷ c ∷ bs) refl

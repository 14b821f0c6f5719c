-- ===== src/Reader/Line.antt =====
-- Where the first newline of a text stands, and what `position`, `take` and `drop` make of it.
use whaletracker.Prelude.{
  ℕ, suc, ◌+◌, ◌≡◌, refl, ap, List, [], ◌∷◌, ◌++◌, Bool, false, Option, none, some, ◌==◌, arith,
  length, take, drop, position, if◌then◌else◌, Text, ◌⊎◌, inl, inr, Bool-cases,
}

abbrev pub is_newline : ℕ → Bool
is_newline b = b == b'\n'

-- No byte is a newline.
abbrev pub IsOneLine : Text → Type 0
IsOneLine [] = Unit {0}
IsOneLine (b ∷ bs) = (is_newline b ≡ false) × IsOneLine bs

-- A text is one line with no newline, or a line, its newline and what follows.
pub record Splits (bs : Text) : Type 0 where
  pub before : Text
  pub after : Text
  pub whole : bs ≡ before ++ b'\n' ∷ after
  pub one_line : IsOneLine before

Splits-cons : (b : ℕ) (bs : Text) → is_newline b ≡ false → Splits bs → Splits (b ∷ bs)
Splits-cons b bs h s = record {
  before = b ∷ s.before;
  after = s.after;
  whole = ap (◌∷◌ b) s.whole;
  one_line = (h, s.one_line);
}

pub line_cases : (bs : Text) → IsOneLine bs ⊎ Splits bs
line_cases [] = inl tt
line_cases (b ∷ bs) = elim (Bool-cases (is_newline b)) [
  | inl h ↦ inr (record { before = []; after = bs; whole = ground arith; one_line = tt })
  | inr h ↦ elim (line_cases bs) [ inl one ↦ inl (h, one) | inr s ↦ inr (Splits-cons b bs h s) ]
]

pub position-one_line : (bs : Text) → IsOneLine bs → position is_newline bs ≡ none
position-one_line [] h = refl
position-one_line (b ∷ bs) h = ground (arith, h.0, position-one_line bs h.1)

module _ (tail : Text) where
  pub position-line :
      (bs : Text) → IsOneLine bs → position is_newline (bs ++ b'\n' ∷ tail) ≡ some (length bs)
  position-line [] h = refl
  position-line (b ∷ bs) h = ground (arith, h.0, position-line bs h.1)

pub take-append {ℓ} : {A : Type ℓ} (xs ys : List A) → take (length xs) (xs ++ ys) ≡ xs
take-append [] ys = refl
take-append (x ∷ xs) ys = ap (◌∷◌ x) (take-append xs ys)

pub drop-append {ℓ} : {A : Type ℓ} (xs ys : List A) → drop (length xs) (xs ++ ys) ≡ ys
drop-append [] ys = refl
drop-append (x ∷ xs) ys = drop-append xs ys

pub take_whole {ℓ} : {A : Type ℓ} (xs : List A) → take (length xs) xs ≡ xs
take_whole [] = refl
take_whole (x ∷ xs) = ap (◌∷◌ x) (take_whole xs)

pub IsOneLine-append : (xs ys : Text) → IsOneLine xs → IsOneLine ys → IsOneLine (xs ++ ys)
IsOneLine-append [] ys h k = k
IsOneLine-append (x ∷ xs) ys h k = (h.0, IsOneLine-append xs ys h.1 k)

-- The reference: the text before the first newline, and what follows it if there is one.
unfoldable pub first_line : Text → Text × Option Text
first_line [] = ([], none)
first_line (b ∷ bs) =
    if is_newline b then ([], some bs) else (b ∷ (first_line bs).0, (first_line bs).1)

pub first_line-append :
    (xs ys : Text)
    → IsOneLine xs
    → first_line (xs ++ ys) ≡ (xs ++ (first_line ys).0, (first_line ys).1)
unfolding first_line
first_line-append [] ys h = refl
first_line-append (x ∷ xs) ys h = rw (h.0, first_line-append xs ys h.1)

pub first_line-newline :
    (xs ys : Text) → IsOneLine xs → first_line (xs ++ b'\n' ∷ ys) ≡ (xs, some ys)
unfolding first_line
first_line-newline [] ys h = refl
first_line-newline (x ∷ xs) ys h = rw (h.0, first_line-newline xs ys h.1)

pub drop_line : (xs ys : Text) → drop (length xs + 1) (xs ++ b'\n' ∷ ys) ≡ ys
drop_line [] ys = refl
drop_line (x ∷ xs) ys =
    let e : length (x ∷ xs) + 1 ≡ suc (length xs + 1) = omega arith in rw e (drop_line xs ys)

pub take_line : (xs ys : Text) → take (length xs + 1) (xs ++ b'\n' ∷ ys) ≡ xs ++ b'\n' ∷ []
take_line [] ys = refl
take_line (x ∷ xs) ys =
    let e : length (x ∷ xs) + 1 ≡ suc (length xs + 1) = omega arith in
    rw e (ap (◌∷◌ x) (take_line xs ys))

-- ===== src/Ascii.antt =====
-- The tests on bytes that the sources take from the standard library, and `str::trim` over the
-- UTF-8 bytes of a text.
use mathlib.Core.List.{reverse}
use whaletracker.Prelude.{
  ℕ, ◌+◌, [], ◌∷◌, Bool, true, false, ◌&&◌, ◌||◌, ◌==◌, ltb, leb, if◌then◌else◌, Text, map,
}

-- `u8::is_ascii_whitespace`: tab, line feed, form feed, carriage return, space.
unfoldable pub is_ascii_whitespace : ℕ → Bool
is_ascii_whitespace b = b == 32 || b == 9 || b == 10 || b == 12 || b == 13

unfoldable pub is_ascii_digit : ℕ → Bool
is_ascii_digit b = leb b'0' b && leb b b'9'

unfoldable pub is_ascii_alphanumeric : ℕ → Bool
unfolding is_ascii_digit
is_ascii_alphanumeric b =
    is_ascii_digit b || (leb b'a' b && leb b b'z') || (leb b'A' b && leb b b'Z')

unfoldable pub is_ascii_control : ℕ → Bool
is_ascii_control b = ltb b 32 || b == 127

unfoldable pub to_ascii_lowercase : ℕ → ℕ
to_ascii_lowercase b = if leb b'A' b && leb b b'Z' then b + 32 else b

unfoldable pub lowercase : Text → Text
unfolding to_ascii_lowercase
lowercase = map to_ascii_lowercase

-- `char::is_whitespace`, on the first one, two or three bytes of a character.
unfoldable pub white1 : ℕ → Bool
white1 a = (leb 9 a && leb a 13) || a == 32

unfoldable pub white2 : ℕ → ℕ → Bool
white2 a b = a == 0xc2 && (b == 0x85 || b == 0xa0)

unfoldable pub white3 : ℕ → ℕ → ℕ → Bool
white3 a b c =
    (a == 0xe1 && b == 0x9a && c == 0x80)
    || (a == 0xe2
        && b == 0x80
        && ((leb 0x80 c && leb c 0x8a) || c == 0xa8 || c == 0xa9 || c == 0xaf))
    || (a == 0xe2 && b == 0x81 && c == 0x9f)
    || (a == 0xe3 && b == 0x80 && c == 0x80)

unfoldable pub trim_start : Text → Text
unfolding white1 white2 white3
trim_start [] = []
trim_start (a ∷ []) = if white1 a then [] else a ∷ []
trim_start (a ∷ b ∷ []) = elim (white1 a) [
  | true ↦ trim_start (b ∷ [])
  | false ↦ if white2 a b then [] else a ∷ b ∷ []
]
trim_start (a ∷ b ∷ c ∷ rest) = elim (white1 a) [
  | true ↦ trim_start (b ∷ c ∷ rest)
  | false ↦ elim (white2 a b) [
    | true ↦ trim_start (c ∷ rest)
    | false ↦ elim (white3 a b c) [ true ↦ trim_start rest | false ↦ a ∷ b ∷ c ∷ rest ]
  ]
]

-- `trim_end` on the reversed bytes: a character comes last byte first.
unfoldable pub trim_reversed : Text → Text
unfolding white1 white2 white3
trim_reversed [] = []
trim_reversed (a ∷ []) = if white1 a then [] else a ∷ []
trim_reversed (b ∷ a ∷ []) = elim (white1 b) [
  | true ↦ trim_reversed (a ∷ [])
  | false ↦ if white2 a b then [] else b ∷ a ∷ []
]
trim_reversed (c ∷ b ∷ a ∷ rest) = elim (white1 c) [
  | true ↦ trim_reversed (b ∷ a ∷ rest)
  | false ↦ elim (white2 b c) [
    | true ↦ trim_reversed (a ∷ rest)
    | false ↦ elim (white3 a b c) [ true ↦ trim_reversed rest | false ↦ c ∷ b ∷ a ∷ rest ]
  ]
]

unfoldable pub trim : Text → Text
unfolding trim_start trim_reversed
trim t = reverse (trim_reversed (reverse (trim_start t)))

-- `trim_matches(c)` for an ASCII character.
unfoldable pub trim_left_of : ℕ → Text → Text
trim_left_of q [] = []
trim_left_of q (b ∷ bs) = let rest = trim_left_of q bs in if b == q then rest else b ∷ bs

unfoldable pub trim_matches : ℕ → Text → Text
unfolding trim_left_of
trim_matches q t = reverse (trim_left_of q (reverse (trim_left_of q t)))

-- `str::starts_with`.
unfoldable pub starts_with : Text → Text → Bool
starts_with [] t = true
starts_with (p ∷ ps) [] = false
starts_with (p ∷ ps) (b ∷ bs) = p == b && starts_with ps bs

-- ===== src/Sql/Tokens.antt =====
-- src/sql.rs, `head_tokens`. The index `at` is the text from there on.
use whaletracker.Prelude.{
  ℕ, zero, suc, List, [], ◌∷◌, Bool, true, false, ◌&&◌, ◌||◌, ◌==◌, if◌then◌else◌, length, drop,
  Text, codes,
}
use whaletracker.Ascii.{is_ascii_whitespace, is_ascii_alphanumeric, lowercase}

-- `bytes.get(at) == Some(&b)`.
unfoldable pub next_is : ℕ → Text → Bool
next_is b [] = false
next_is b (x ∷ xs) = x == b

unfoldable pub next_is_whitespace : Text → Bool
unfolding is_ascii_whitespace
next_is_whitespace [] = false
next_is_whitespace (x ∷ xs) = is_ascii_whitespace x

-- A second `-`, and white space behind it.
unfoldable pub is_dash_space : Text → Bool
unfolding next_is_whitespace
is_dash_space [] = false
is_dash_space (x ∷ xs) = x == b'-' && next_is_whitespace xs

-- A comment to the end of the line, on the byte at `at` and what follows it.
unfoldable pub opens_line_comment : ℕ → Text → Bool
unfolding is_dash_space
opens_line_comment c cs = c == b'#' || (c == b'-' && is_dash_space cs)

unfoldable pub skip_line : Text → Text
skip_line [] = []
skip_line (b ∷ bs) = let rest = skip_line bs in if b == b'\n' then b ∷ bs else rest

-- From behind `/*`: to behind `*/`, or to the end.
unfoldable pub skip_comment : Text → Text
skip_comment [] = []
skip_comment (a ∷ []) = []
skip_comment (a ∷ b ∷ rest) =
    let more = skip_comment (b ∷ rest) in if a == b'*' && b == b'/' then rest else more

-- From behind the opening quote: a backslash hides a byte, a doubled quote stands for itself.
unfoldable pub skip_quoted : ℕ → Text → Text
skip_quoted q [] = []
skip_quoted q (a ∷ []) = []
skip_quoted q (a ∷ b ∷ rest) = elim (a == b'\\') [
  | true ↦ skip_quoted q rest
  | false ↦ elim (a == q) [
    | true ↦ elim (b == q) [ true ↦ skip_quoted q rest | false ↦ b ∷ rest ]
    | false ↦ skip_quoted q (b ∷ rest)
  ]
]

unfoldable pub until_backtick : Text → Text
until_backtick [] = []
until_backtick (b ∷ bs) = let rest = until_backtick bs in if b == b'`' then [] else b ∷ rest

-- Behind the closing backtick, or at the end.
unfoldable pub after_backtick : Text → Text
after_backtick [] = []
after_backtick (b ∷ bs) = let rest = after_backtick bs in if b == b'`' then bs else rest

unfoldable pub is_word : ℕ → Bool
unfolding is_ascii_alphanumeric
is_word b = is_ascii_alphanumeric b || b == b'_'

unfoldable pub word : Text → Text
unfolding is_word
word [] = []
word (b ∷ bs) = let rest = word bs in if is_word b then b ∷ rest else []

unfoldable pub after_word : Text → Text
unfolding is_word
after_word [] = []
after_word (b ∷ bs) = let rest = after_word bs in if is_word b then rest else b ∷ bs

-- One round of the loop: it ends, moves on, or pushes a token and moves on.
pub data Round : Type 0 where
  stop : Round
  skip : Text → Round
  token : Text → Text → Round

unfoldable pub round : ℕ → Text → Round
unfolding is_ascii_whitespace opens_line_comment skip_line next_is skip_comment skip_quoted
    lowercase until_backtick after_backtick is_word word after_word
round c cs =
    if is_ascii_whitespace c
    then skip cs
    else if opens_line_comment c cs
    then skip (skip_line (c ∷ cs))
    else if c == b'/' && next_is b'*' cs
    then skip (skip_comment (drop 1 cs))
    else if c == b'\'' || c == b'"'
    then token (codes "<literal>") (skip_quoted c cs)
    else if c == b'`'
    then token (lowercase (until_backtick cs)) (after_backtick cs)
    else if is_word c
    then token (lowercase (word (c ∷ cs))) (after_word (c ∷ cs))
    else if c == b'('
    then stop
    else if c == b'.'
    then token (codes ".") cs
    else skip cs

-- The loop on fuel, with the number of tokens that may still be pushed.
unfoldable pub tokens : ℕ → ℕ → Text → List Text
unfolding round
tokens zero room bytes = []
tokens (suc fuel) room [] = []
tokens (suc fuel) zero (c ∷ cs) = []
tokens (suc fuel) (suc room) (c ∷ cs) = elim (round c cs) [
  | stop ↦ []
  | skip rest ↦ tokens fuel (suc room) rest
  | token t rest ↦ t ∷ tokens fuel room rest
]

unfoldable pub head_tokens : Text → List Text
unfolding tokens
head_tokens sql = tokens (suc (length sql)) 32 sql

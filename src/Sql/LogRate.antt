-- ===== src/Sql/LogRate.antt =====
-- src/sql.rs, `validate_log_player_write` and what it calls: the columns and values of an
-- insertion, and the plausibility of its rates. The separators are ASCII, so that walking over
-- characters and over bytes is one. Numbers are those of `i64`.
use whaletracker.Prelude.{
  ℕ, zero, suc, ◌+◌, ◌-◌, ◌*◌, ◌^◌, List, [], ◌∷◌, ◌++◌, Bool, true, false, not, ◌&&◌, ◌||◌, Option,
  none, some, ◌==◌, ltb, leb, if◌then◌else◌, length, take, drop, get_elem?, position, Text, codes,
  text_eq, map, ℤ, pos, negsuc,
}
use whaletracker.Ascii.{trim, trim_matches, lowercase, is_ascii_digit, starts_with}
use whaletracker.Sql.Statement.{
  missing_damage, missing_damage_taken, missing_playtime, implausible_rate, Checked, valid, invalid,
}

-- `(amount as f64 * 60.0 / playtime as f64) <= MAX_LOG_DAMAGE_PER_MINUTE`: floating point is a
-- parameter of the model.
abbrev pub RateTest : Type 0
RateTest = ℕ → ℕ → Bool

unfoldable pub is_log_rate_plausible : RateTest → ℤ → ℤ → Bool
is_log_rate_plausible rate (pos amount) (pos playtime) =
    if amount == 0 then true else ltb 0 playtime && rate amount playtime
is_log_rate_plausible rate _ _ = false

-- The state of the walk: in a quoted value, behind a backslash in it, and the depth.
pub record Walk : Type 0 where
  pub quote : Bool
  pub escaped : Bool
  pub depth : ℤ

abbrev down : ℤ → ℤ
down (pos zero) = negsuc 0
down (pos (suc n)) = pos n
down (negsuc n) = negsuc (suc n)

abbrev up : ℤ → ℤ
up (pos n) = pos (suc n)
up (negsuc zero) = pos 0
up (negsuc (suc n)) = negsuc n

abbrev is_zero : ℤ → Bool
is_zero (pos n) = n == 0
is_zero (negsuc n) = false

unfoldable pub walk : Walk → ℕ → Walk
walk w c =
    if w.quote
    then if w.escaped
      then record w { escaped = false }
      else if c == b'\\'
      then record w { escaped = true }
      else if c == b'\''
      then record w { quote = false }
      else w
    else if c == b'\''
    then record w { quote = true }
    else if c == b'('
    then record w { depth = up w.depth }
    else if c == b')'
    then record w { depth = down w.depth }
    else w

abbrev outside : Walk
outside = record { quote = false; escaped = false; depth = pos 0 }

-- The loop of `matching_paren`, from the open parenthesis on: how far behind it the match is.
unfoldable pub paren_loop : Walk → Text → Option ℕ
unfolding walk
paren_loop w [] = none
paren_loop w (c ∷ cs) = elim (not w.quote && c == b')' && is_zero (walk w c).depth) [
  | true ↦ some 0
  | false ↦ elim (paren_loop (walk w c) cs) [ none ↦ none | some n ↦ some (suc n) ]
]

unfoldable pub matching_paren : Text → ℕ → Option ℕ
unfolding paren_loop
matching_paren sql open' = elim (paren_loop outside (drop open' sql)) [
  | none ↦ none
  | some n ↦ some (open' + n)
]

-- `split_list`: the item that is open, and the items, each trimmed.
unfoldable pub split_loop : Walk → Text → Text → List Text
unfolding walk trim
split_loop w item [] = trim item ∷ []
split_loop w item (c ∷ cs) = elim (not w.quote && c == b',' && is_zero w.depth) [
  | true ↦ trim item ∷ split_loop w [] cs
  | false ↦ split_loop (walk w c) (item ++ c ∷ []) cs
]

unfoldable pub split_list : Text → List Text
unfolding split_loop
split_list input = split_loop outside [] input

-- `str::find`.
unfoldable pub find : Text → Text → Option ℕ
unfolding starts_with
find needle [] = if length needle == 0 then some 0 else none
find needle (b ∷ bs) = elim (starts_with needle (b ∷ bs)) [
  | true ↦ some 0
  | false ↦ elim (find needle bs) [ none ↦ none | some n ↦ some (suc n) ]
]

abbrev is_open : ℕ → Bool
is_open c = c == b'('

infixl 5 ◌>>=◌
abbrev ◌>>=◌ {ℓ κ} : {A : Type ℓ} {B : Type κ} → Option A → (A → Option B) → Option B
none >>= f = none
some a >>= f = f a

-- `&text[from..to]`.
abbrev slice : Text → ℕ → ℕ → Text
slice text from to = drop from (take to text)

abbrev is_insertion : Option Text → Bool
is_insertion none = false
is_insertion (some w) = text_eq w (codes "insert") || text_eq w (codes "replace")

unfoldable pub column_name : Text → Text
unfolding trim trim_matches lowercase
column_name column = lowercase (trim (trim_matches b'`' (trim column)))

unfoldable pub parse_insert_columns_values : Text → Option Text → Option (List Text × List Text)
unfolding matching_paren split_list find lowercase column_name text_eq
parse_insert_columns_values sql first = if not (is_insertion first) then none else do
  open' ← position is_open sql
  close ← matching_paren sql open'
  found ← find (codes "values") (lowercase (drop (close + 1) sql))
  let values_at = found + (close + 1)
  behind ← position is_open (drop values_at sql)
  let values_open = behind + values_at
  values_close ← matching_paren sql values_open
  let columns = map column_name (split_list (slice sql (open' + 1) close))
  let values = split_list (slice sql (values_open + 1) values_close)
  if length columns == length values then some (columns, values) else none

-- The digits of `str::parse::<i64>`, most significant first.
unfoldable pub digits_value : ℕ → Text → Option ℕ
unfolding is_ascii_digit
digits_value acc [] = some acc
digits_value acc (b ∷ bs) =
    let rest = digits_value (acc * 10 + (b - b'0')) bs in if is_ascii_digit b then rest else none

abbrev negated : ℕ → ℤ
negated zero = pos 0
negated (suc n) = negsuc n

abbrev bounded : ℕ → (ℕ → ℤ) → Option ℕ → Option ℤ
bounded limit f none = none
bounded limit f (some n) = if leb n limit then some (f n) else none

unfoldable pub parse_digits : ℕ → (ℕ → ℤ) → Text → Option ℤ
unfolding digits_value
parse_digits limit f [] = none
parse_digits limit f (b ∷ bs) = bounded limit f (digits_value 0 (b ∷ bs))

unfoldable pub parse_i64 : Text → Option ℤ
unfolding parse_digits
parse_i64 [] = none
parse_i64 (b ∷ bs) =
    if b == b'+'
    then parse_digits (2 ^ 63 - 1) pos bs
    else if b == b'-'
    then parse_digits (2 ^ 63) negated bs
    else parse_digits (2 ^ 63 - 1) pos (b ∷ bs)

unfoldable pub int_column : List Text → List Text → Text → Option ℤ
unfolding trim trim_matches lowercase parse_i64 text_eq
int_column columns values name = do
  index ← position (λ column. text_eq column name) columns
  value ← get_elem? values index
  if text_eq (lowercase (trim value)) (codes "null")
      then some (pos 0)
      else parse_i64 (trim_matches b'\'' (trim value))

-- The three columns are looked up in turn, and both rates must be plausible.
unfoldable pub validate_rates : RateTest → Option ℤ → Option ℤ → Option ℤ → Checked
unfolding is_log_rate_plausible
validate_rates rate none taken time = invalid missing_damage
validate_rates rate (some damage) none time = invalid missing_damage_taken
validate_rates rate (some damage) (some taken) none = invalid missing_playtime
validate_rates rate (some damage) (some taken) (some time) =
    if not (is_log_rate_plausible rate damage time) || not (is_log_rate_plausible rate taken time)
    then invalid (implausible_rate damage taken time)
    else valid

unfoldable pub validate_log_player_write : RateTest → Text → Option Text → Checked
unfolding parse_insert_columns_values int_column validate_rates
validate_log_player_write rate sql first = elim (parse_insert_columns_values sql first) [
  | none ↦ valid
  | some (columns, values) ↦
      validate_rates rate (int_column columns values (codes "damage"))
        (int_column columns values (codes "damage_taken"))
        (int_column columns values (codes "playtime"))
]

-- ===== src/Prelude/Texts.antt =====
-- Rust strings as their bytes, and a `HashSet<String>` as a list of texts without repetition.
use Prim.Native.Nat.{ℕ}
use Prim.Native.Char.{code}
use Prim.Native.String.{String}
use mathlib.Core.Path.{◌≡◌, refl}
use mathlib.Core.Logic.{◌↔◌, inl, inr}
use mathlib.Core.Bool.{Bool, true, false, not, ◌&&◌, ◌||◌}
use Prim.Native.Nat.{◌+◌}
use whaletracker.Prelude.Lists.{length}
use mathlib.Core.List.{List, [], ◌∷◌, ◌++◌}
use native.Mathlib.Omega.{arith}
use whaletracker.Prelude.Tests.{◌==◌, if◌then◌else◌, Bool-cases}

abbrev pub Text : Type 0
Text = List ℕ

-- The bytes of an ASCII literal.
abbrev pub codes : String → Text
codes String.[] = []
codes (String.◌∷◌ c s) = code c ∷ codes s

unfoldable pub text_eq : Text → Text → Bool
text_eq [] [] = true
text_eq (a ∷ as') (b ∷ bs) = a == b && text_eq as' bs
text_eq _ _ = false

pub text_eq_iff : (s t : Text) → (text_eq s t ≡ true) ↔ (s ≡ t)
unfolding text_eq
text_eq_iff (a ∷ s) (b ∷ t) = ground (arith, text_eq_iff s t)
text_eq_iff _ _ = ground arith

pub text_eq_refl : (s : Text) → text_eq s s ≡ true
text_eq_refl s = (text_eq_iff s s).1 refl

pub text_eq_comm : (s t : Text) → text_eq s t ≡ text_eq t s
text_eq_comm s t = ground (arith, text_eq_iff s t, text_eq_iff t s)

abbrev pub TextSet : Type 0
TextSet = List Text

unfoldable pub contains : Text → TextSet → Bool
contains k [] = false
contains k (x ∷ xs) = text_eq k x || contains k xs

unfoldable pub insert : Text → TextSet → TextSet
insert k s = if contains k s then s else k ∷ s

unfoldable pub remove : Text → TextSet → TextSet
remove k [] = []
remove k (x ∷ xs) = let rest = remove k xs in if text_eq k x then rest else x ∷ rest

pub contains-nil : (j : Text) → contains j [] ≡ false
unfolding contains
contains-nil j = refl

pub contains-cons :
    (j x : Text) (xs : TextSet) → contains j (x ∷ xs) ≡ (text_eq j x || contains j xs)
unfolding contains
contains-cons j x xs = refl

-- No text occurs twice.
abbrev pub Distinct : TextSet → Type 0
Distinct [] = Unit {0}
Distinct (x ∷ xs) = (contains x xs ≡ false) × Distinct xs

pub contains-insert :
    (j k : Text) (s : TextSet) → contains j (insert k s) ≡ (text_eq j k || contains j s)
unfolding contains insert
contains-insert j k s = elim (Bool-cases (contains k s)) [
  | inl h ↦ rw h (ground (arith, text_eq_iff j k))
  | inr h ↦ rw h
]

pub contains-remove :
    (j k : Text) (s : TextSet) → contains j (remove k s) ≡ (not (text_eq j k) && contains j s)
unfolding contains remove
contains-remove j k [] = ground arith
contains-remove j k (x ∷ xs) =
    ground (arith, contains-remove j k xs, text_eq_iff j k, text_eq_iff k x, text_eq_iff j x)

pub contains-append :
    (j : Text) (xs ys : TextSet) → contains j (xs ++ ys) ≡ (contains j xs || contains j ys)
unfolding contains
contains-append j [] ys = refl
contains-append j (x ∷ xs) ys = ground (arith, contains-append j xs ys)

-- Where an element stands in a list does not matter to `Distinct`.
pub Distinct-middle :
    (xs : TextSet) (y : Text) (ys : TextSet) → Distinct (xs ++ y ∷ ys) ↔ Distinct (y ∷ (xs ++ ys))
Distinct-middle [] y ys = (λ h. h, λ h. h)
Distinct-middle (x ∷ xs) y ys = ground (
  arith,
  Distinct-middle xs y ys,
  contains-append x xs (y ∷ ys),
  contains-append x xs ys,
  contains-cons x y ys,
  contains-cons y x (xs ++ ys),
  text_eq_comm x y,
)

pub Distinct-append_left : (xs ys : TextSet) → Distinct (xs ++ ys) → Distinct xs
Distinct-append_left [] ys d = tt
Distinct-append_left (x ∷ xs) ys d =
    ground (arith, contains-append x xs ys, Distinct-append_left xs ys d.1)

pub Distinct-append_apart :
    (xs ys : TextSet) (j : Text)
    → Distinct (xs ++ ys)
    → contains j xs ≡ true
    → contains j ys ≡ false
Distinct-append_apart [] ys j d h = cc (contains-nil j)
Distinct-append_apart (x ∷ xs) ys j d h = ground (
  arith,
  contains-cons j x xs,
  contains-append x xs ys,
  text_eq_iff j x,
  Distinct-append_apart xs ys j d.1,
)

pub length-remove :
    (k : Text) (s : TextSet)
    → Distinct s
    → length s ≡ length (remove k s) + (if contains k s then 1 else 0)
unfolding remove contains
length-remove k [] d = omega arith
length-remove k (x ∷ xs) d = ground (arith, length-remove k xs d.1, text_eq_iff k x)

pub remove-Distinct : (k : Text) (s : TextSet) → Distinct s → Distinct (remove k s)
unfolding remove
remove-Distinct k [] d = tt
remove-Distinct k (x ∷ xs) d = ground (arith, remove-Distinct k xs d.1, contains-remove x k xs)

pub insert-Distinct : (k : Text) (s : TextSet) → Distinct s → Distinct (insert k s)
unfolding insert
insert-Distinct k s d = ground arith

pub contains-push :
    (j k : Text) (xs : TextSet) → contains j (xs ++ k ∷ []) ≡ (text_eq j k || contains j xs)
contains-push j k xs =
    ground (arith, contains-append j xs (k ∷ []), contains-cons j k [], contains-nil j)

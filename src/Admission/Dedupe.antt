-- ===== src/Admission/Dedupe.antt =====
-- src/admission.rs, `Dedupe`: the set of the last completed IDs, bounded by a FIFO eviction.
pub mod Recent
use whaletracker.Prelude.{
  ℕ, zero, suc, ◌+◌, ◌-◌, ◌≤◌, ◌<◌, ◌≡◌, refl, sym, ap, ◌∙◌, List, [], ◌∷◌, ◌++◌, Bool, true, false,
  not, ◌&&◌, ◌||◌, arith, ltb, ◌==◌, if◌then◌else◌, length, length-append, drop, length-drop,
  Bool-cases, inl, inr, Text, TextSet, contains, insert, remove, text_eq, text_eq_iff,
  contains-insert, contains-remove, contains-append, contains-cons, contains-nil, Distinct,
  Distinct-middle, append-nil,
}

-- The pair under the mutex, and the capacity.
pub record Dedupe : Type 0 where
  pub known : TextSet
  pub order : List Text
  pub capacity : ℕ

unfoldable pub new_dedupe : ℕ → Dedupe
new_dedupe n = record { known = []; order = []; capacity = n }

unfoldable pub dedupe_contains : Dedupe → Text → Bool
dedupe_contains d id = contains id d.known

unfoldable pub dedupe_len : Dedupe → ℕ
dedupe_len d = length d.known

-- The eviction loop, on the queue with the new ID at its end.
unfoldable pub evict_known : ℕ → TextSet → List Text → TextSet
evict_known n known [] = known
evict_known n known (q ∷ qs) =
    let rest = evict_known n (remove q known) qs in if ltb n (length (q ∷ qs)) then rest else known

unfoldable pub evict_order : ℕ → List Text → List Text
evict_order n [] = []
evict_order n (q ∷ qs) =
    let rest = evict_order n qs in if ltb n (length (q ∷ qs)) then rest else q ∷ qs

unfoldable pub remember : Dedupe → Text → Dedupe
remember d id =
    if d.capacity == 0
    then d
    else if contains id d.known
    then d
    else let pushed = d.order ++ id ∷ [] in
      record d {
        known = evict_known d.capacity (insert id d.known) pushed;
        order = evict_order d.capacity pushed;
      }

unfoldable pub remember_all : Dedupe → List Text → Dedupe
remember_all d [] = d
remember_all d (x ∷ xs) = remember_all (remember d x) xs

-- The set and the queue hold the same IDs, each once, and no more than the capacity.
pub record IsDedupe (d : Dedupe) : Type 0 where
  pub same : (j : Text) → contains j d.known ≡ contains j d.order
  pub distinct : Distinct d.order
  pub distinct_known : Distinct d.known
  pub bounded : length d.order ≤ d.capacity
  pub size : length d.known ≡ length d.order

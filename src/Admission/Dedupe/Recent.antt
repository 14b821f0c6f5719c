-- ===== src/Admission/Dedupe/Recent.antt =====
-- src/admission.rs, `Dedupe`: it remembers the last `capacity` new IDs, in order.
use whaletracker.Prelude.{
  ℕ, zero, suc, ◌-◌, ◌≤◌, ◌<◌, ◌≡◌, refl, sym, ap, ◌∙◌, List, [], ◌∷◌, ◌++◌, true, false, ◌||◌,
  arith, ltb, ◌==◌, if◌then◌else◌, length, length-append, drop, Bool-cases, inl, inr, Text, TextSet,
  contains, insert, remove, text_eq, text_eq_iff, contains-insert, contains-remove, contains-append,
  contains-cons, contains-push, Distinct, Distinct-middle, append-nil, append_assoc, length-remove,
  remove-Distinct, insert-Distinct,
}
use whaletracker.Admission.Dedupe.{
  Dedupe, new_dedupe, dedupe_contains, dedupe_len, evict_known, evict_order, remember, remember_all,
  IsDedupe,
}

evict_order-drop : (n : ℕ) (xs : List Text) → evict_order n xs ≡ drop (length xs - n) xs
unfolding evict_order
evict_order-drop n [] = ground arith
evict_order-drop n (x ∷ xs) = elim (Bool-cases (ltb n (length (x ∷ xs)))) [
  | inl h ↦
      let e : length (x ∷ xs) - n ≡ suc (length xs - n) = ground arith in
      rw (h, e) (evict_order-drop n xs)
  | inr h ↦ let e : length (x ∷ xs) - n ≡ 0 = ground arith in rw (h, e)
]

-- The set under the mutex, as the loop leaves it.
record Evicted (n : ℕ) (known : TextSet) (order : List Text) : Type 0 where
  same : (j : Text) → contains j known ≡ contains j order
  distinct : Distinct order
  distinct_known : Distinct known
  size : length known ≡ length order

evict-Evicted :
    (n : ℕ) (known : TextSet) (order : List Text)
    → Evicted n known order
    → Evicted n (evict_known n known order) (evict_order n order)
unfolding evict_known evict_order
evict-Evicted n known [] v = v
evict-Evicted n known (q ∷ qs) v = elim (Bool-cases (ltb n (length (q ∷ qs)))) [
  | inl h ↦ rw h (
      evict-Evicted n (remove q known) qs (record {
        same = λ j.
            ground
              (arith, contains-remove j q known, v.same j, contains-cons j q qs, text_eq_iff j q);
        distinct = v.distinct.1;
        distinct_known = remove-Distinct q known v.distinct_known;
        size = ground (
          arith,
          length-remove q known v.distinct_known,
          v.same q,
          contains-cons q q qs,
          text_eq_iff q q,
        );
      }))
  | inr h ↦ rw h v
]

length-evict_order : (n : ℕ) (xs : List Text) → length (evict_order n xs) ≤ n
unfolding evict_order
length-evict_order n [] = omega arith
length-evict_order n (x ∷ xs) = ground (arith, length-evict_order n xs)

pushed-Evicted :
    (d : Dedupe) (id : Text)
    → IsDedupe d
    → contains id d.known ≡ false
    → Evicted d.capacity (insert id d.known) (d.order ++ id ∷ [])
unfolding insert
pushed-Evicted d id v h = record {
  same = λ j.
      contains-insert j id d.known
      ∙ ap (λ b. text_eq j id || b) (v.same j)
      ∙ sym (contains-push j id d.order);
  distinct = (Distinct-middle d.order id []).1 (rw append-nil (sym (v.same id) ∙ h, v.distinct));
  distinct_known = insert-Distinct id d.known v.distinct_known;
  size = ground (arith, length-append d.order (id ∷ []), v.size);
}

remember_capacity : (d : Dedupe) (id : Text) → (remember d id).capacity ≡ d.capacity
unfolding remember
remember_capacity d id = ground arith

-- Where the set and the queue hold the same IDs, each once and no more than the capacity, they do
-- so after `remember`.
pub remember-IsDedupe : (d : Dedupe) (id : Text) → IsDedupe d → IsDedupe (remember d id)
unfolding remember
remember-IsDedupe d id v = elim (Bool-cases (d.capacity == 0)) [
  | inl z ↦ rw z v
  | inr nz ↦ rw nz (elim (Bool-cases (contains id d.known)) [
    | inl old ↦ rw old v
    | inr new ↦
        let e = evict-Evicted d.capacity _ _ (pushed-Evicted d id v new) in
        rw new (record {
          same = e.same;
          distinct = e.distinct;
          distinct_known = e.distinct_known;
          bounded = length-evict_order d.capacity (d.order ++ id ∷ []);
          size = e.size;
        })
  ])
]

-- The specification: a list of the last IDs, oldest first.
abbrev pub recent : ℕ → List Text → Text → List Text
recent n xs id = if contains id xs then xs else drop (length (xs ++ id ∷ []) - n) (xs ++ id ∷ [])

-- In a well-formed set with a capacity that is not 0, the queue after `remember` is the list of the
-- last `capacity` new IDs: an ID that is known changes nothing, and a new one pushes the oldest out
-- when the list is full.
pub remember-recent :
    (d : Dedupe) (id : Text)
    → IsDedupe d
    → 0 < d.capacity
    → (remember d id).order ≡ recent d.capacity d.order id
unfolding remember
remember-recent d id v pos =
    ground (arith, v.same id, evict_order-drop d.capacity (d.order ++ id ∷ []))

contains-drop_last :
    (k : ℕ) (xs : List Text) (id : Text)
    → k ≤ length xs
    → contains id (drop k (xs ++ id ∷ [])) ≡ true
contains-drop_last zero xs id h = ground (arith, contains-push id id xs, text_eq_iff id id)
contains-drop_last (suc k) [] id h = absurd (omega arith)
contains-drop_last (suc k) (x ∷ xs) id h = contains-drop_last k xs id (omega arith)

contains-recent : (n : ℕ) (xs : List Text) (id : Text) → 0 < n → contains id (recent n xs id) ≡ true
contains-recent n xs id h = elim (Bool-cases (contains id xs)) [
  | inl old ↦ rw old old
  | inr new ↦ rw new (
      contains-drop_last (length (xs ++ id ∷ []) - n) xs id
        (ground (arith, length-append xs (id ∷ []))))
]

-- In a well-formed set with a capacity that is not 0, an ID is known right after it is remembered,
-- and the set holds no more IDs than the capacity.
pub remember_knows :
    (d : Dedupe) (id : Text)
    → IsDedupe d
    → 0 < d.capacity
    → (dedupe_contains (remember d id) id ≡ true) × (dedupe_len (remember d id) ≤ d.capacity)
unfolding dedupe_contains dedupe_len
remember_knows d id v pos =
    let v' = remember-IsDedupe d id v in
    (
      v'.same id ∙ rw (remember-recent d id v pos) (contains-recent d.capacity d.order id pos),
      ground (arith, v'.size, v'.bounded, remember_capacity d id),
    )

remember_fits :
    (d : Dedupe) (id : Text)
    → IsDedupe d
    → length d.order < d.capacity
    → contains id d.order ≡ false
    → (remember d id).order ≡ d.order ++ id ∷ []
remember_fits d id v room new =
    let e : length (d.order ++ id ∷ []) - d.capacity ≡ 0 =
      ground (arith, length-append d.order (id ∷ [])) in
    remember-recent d id v (omega arith) ∙ rw (new, e)

-- IDs that are new, distinct and fit within the capacity are all kept, in order.
pub remember_all-fits :
    (xs : List Text) (d : Dedupe)
    → IsDedupe d
    → Distinct (d.order ++ xs)
    → length (d.order ++ xs) ≤ d.capacity
    → (remember_all d xs).order ≡ d.order ++ xs
unfolding remember_all
remember_all-fits [] d v distinct room = sym (append-nil d.order)
remember_all-fits (x ∷ xs) d v distinct room =
    let new : contains x d.order ≡ false =
      ground (arith, ((Distinct-middle d.order x xs).0 distinct).0, contains-append x d.order xs) in
    let one = remember_fits d x v (ground (arith, length-append d.order (x ∷ xs))) new in
    let regroup : (remember d x).order ++ xs ≡ d.order ++ x ∷ xs =
      rw one (append_assoc d.order (x ∷ []) xs) in
    remember_all-fits xs (remember d x) (remember-IsDedupe d x v) (rw regroup distinct)
      (rw (regroup, remember_capacity d x) room)
    ∙ regroup

contains-evict_known :
    (n : ℕ) (known : TextSet) (order : List Text) (j : Text)
    → contains j (evict_known n known order) ≡ true
    → contains j known ≡ true
unfolding evict_known
contains-evict_known n known [] j h = h
contains-evict_known n known (q ∷ qs) j h =
    ground (arith, contains-evict_known n (remove q known) qs j, contains-remove j q known)

-- `remember` makes no ID known but its own.
pub remember_only :
    (d : Dedupe) (id j : Text)
    → contains j (remember d id).known ≡ true
    → (text_eq j id || contains j d.known) ≡ true
unfolding remember
remember_only d id j h = ground (
  arith,
  contains-evict_known d.capacity (insert id d.known) (d.order ++ id ∷ []) j,
  contains-insert j id d.known,
)

pub new-IsDedupe : (n : ℕ) → IsDedupe (new_dedupe n)
unfolding new_dedupe
new-IsDedupe n = record {
  same = λ j. refl;
  distinct = tt;
  distinct_known = tt;
  bounded = omega arith;
  size = refl;
}

-- ===== src/Schema/Waiter.antt =====
-- src/schema.rs: an instance that does not own the cache waits for the schema. The clock is in
-- milliseconds; what a query finds, and how long it takes, depends on when it starts.
use native.Mathlib.Decide.{dec_lt}
use whaletracker.Prelude.{
  ℕ, suc, zero, ◌+◌, ◌-◌, ◌*◌, ◌≤◌, ◌<◌, ◌≡◌, ◌≢◌, refl, arith, Bool, true, false, Option, none,
  some, leb, if◌then◌else◌, Bool-cases, inl, inr, codes,
}
use whaletracker.Config.{Environment, number, clamp}

abbrev pub schema_version : ℕ
schema_version = 8

pub data Prepared : Type 0 where
  ready timed_out : Prepared
  -- The fuel of the model; the source's loop has none.
  out_of_fuel : Prepared

abbrev pub is_ready : Prepared → Bool
is_ready ready = true
is_ready timed_out = false
is_ready out_of_fuel = false

-- `matches!(result, Ok(version) if version >= SCHEMA_VERSION)`.
abbrev pub is_current : Option ℕ → Bool
is_current none = false
is_current (some version) = leb schema_version version

unfoldable pub wait_for_owner : ℕ → (ℕ → Option ℕ) → (ℕ → ℕ) → ℕ → ℕ → Prepared
wait_for_owner zero found takes deadline now = out_of_fuel
wait_for_owner (suc fuel) found takes deadline now =
    let again = wait_for_owner fuel found takes deadline (now + takes now + 1000) in
    if is_current (found now)
    then ready
    else if leb deadline (now + takes now)
    then timed_out
    else again

unfoldable pub wait_timeout : Environment → ℕ
unfolding number clamp
wait_timeout env = 1000 * clamp (number env (codes "WT_SCHEMA_WAIT_TIMEOUT_SECS") 120) 1 3600

-- A round for each millisecond up to the deadline, and two.
abbrev pub rounds : ℕ → ℕ → ℕ
rounds deadline now = suc (suc (deadline - now))

ends_with_fuel :
    (fuel : ℕ) (found : ℕ → Option ℕ) (takes : ℕ → ℕ) (deadline now : ℕ)
    → deadline < now + fuel
    → wait_for_owner (suc fuel) found takes deadline now ≢ out_of_fuel
unfolding wait_for_owner
ends_with_fuel zero found takes deadline now h e = ground arith
ends_with_fuel (suc fuel) found takes deadline now h e =
    ground (arith, ends_with_fuel fuel found takes deadline (now + takes now + 1000))

-- Whatever the queries find and however long they take, the loop returns within a round for each
-- millisecond up to the deadline.
pub wait_for_owner-ends :
    (found : ℕ → Option ℕ) (takes : ℕ → ℕ) (deadline now : ℕ)
    → wait_for_owner (rounds deadline now) found takes deadline now ≢ out_of_fuel
wait_for_owner-ends found takes deadline now =
    ends_with_fuel (suc (deadline - now)) found takes deadline now (omega arith)

before_published :
    (version : Option ℕ) (now published : ℕ)
    → is_current version ≡ false
    → (published ≤ now → is_current version ≡ true)
    → now < published
before_published version now published c f = elim (dec_lt now published) [
  | yes lt ↦ lt
  | no ge ↦ let t = f (omega arith) in cc
]

ready_only : (p : Prepared) → p ≢ out_of_fuel → p ≢ timed_out → p ≡ ready
ready_only ready a b = refl
ready_only timed_out a b = absurd (b refl)
ready_only out_of_fuel a b = absurd (a refl)

not_timed_out :
    (fuel : ℕ) (found : ℕ → Option ℕ) (takes : ℕ → ℕ) (deadline now published slowest : ℕ)
    → ((t : ℕ) → published ≤ t → is_current (found t) ≡ true)
    → ((t : ℕ) → takes t ≤ slowest)
    → published + slowest ≤ deadline
    → wait_for_owner fuel found takes deadline now ≢ timed_out
unfolding wait_for_owner
not_timed_out zero found takes deadline now published slowest f q le e = cc
not_timed_out (suc fuel) found takes deadline now published slowest f q le e =
    elim (Bool-cases (is_current (found now))) [
      | inl c ↦ let e' = rw (c, wait_for_owner) at e in cc
      | inr c ↦ ground (
        arith,
        c,
        q now,
        before_published (found now) now published c (f now),
        not_timed_out fuel found takes deadline (now + takes now + 1000) published slowest f q le,
      )
    ]

-- If every query from some time on finds the schema current, and that time is before the deadline
-- by as long as a query takes, the loop ends with success.
pub wait_for_owner-ready :
    (found : ℕ → Option ℕ) (takes : ℕ → ℕ) (deadline now published slowest : ℕ)
    → ((t : ℕ) → published ≤ t → is_current (found t) ≡ true)
    → ((t : ℕ) → takes t ≤ slowest)
    → published + slowest ≤ deadline
    → wait_for_owner (rounds deadline now) found takes deadline now ≡ ready
wait_for_owner-ready found takes deadline now published slowest f q le =
    ready_only _ (wait_for_owner-ends found takes deadline now)
      (not_timed_out (rounds deadline now) found takes deadline now published slowest f q le)

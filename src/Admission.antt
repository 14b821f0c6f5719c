-- ===== src/Admission.antt =====
-- src/admission.rs, `Admission` and `Permit`: capacity and event IDs reserved together.
-- Each operation runs under the mutex, so it is one function of the state.
pub mod Held
pub mod Capacity
pub mod Reach
pub mod Completion
pub mod Dedupe
use whaletracker.Prelude.{
  ℕ, List, [], ◌∷◌, Option, none, some, Bool, ◌||◌, ltb, if◌then◌else◌, length, Text, TextSet, ◌⊎◌,
  inl, inr, refl, ◌≡◌, contains, insert, remove, wrapping_add, wrapping_sub, saturating_sub,
  checked_add,
}
use whaletracker.Sql.Lane.{Lane, PerLane, at_lane, set_lane}

pub record Usage : Type 0 where
  pub rows : ℕ
  pub bytes : ℕ
  pub lanes : PerLane ℕ

-- The contents of the mutex.
pub record State : Type 0 where
  pub usage : Usage
  pub active : TextSet

pub record Admission : Type 0 where
  pub state : State
  pub row_limit : ℕ
  pub byte_limit : ℕ

pub record Spec : Type 0 where
  pub id : Text
  pub bytes : ℕ
  pub lane : Lane

-- The owner is the one admission of the process.
pub record Permit : Type 0 where
  pub id : Text
  pub bytes : ℕ
  pub lane : Lane

-- The texts of the `Err` results of `reserve`, in the order of its guards.
pub data Refusal : Type 0 where
  byte_limit_reached queue_full duplicate_in_batch still_pending : Refusal

pub data Reserved : Type 0 where
  granted : Admission → List Permit → Reserved
  refused : Refusal → Reserved

pub Reserved-cases :
    (r : Reserved)
    → ((a : Admission) × (ps : List Permit) × (r ≡ granted a ps))
      ⊎ ((why : Refusal) × (r ≡ refused why))
Reserved-cases (granted a ps) = inl (a, ps, refl)
Reserved-cases (refused why) = inr (why, refl)

abbrev pub no_usage : Usage
no_usage = record {
  rows = 0;
  bytes = 0;
  lanes = record { at_online = 0; at_stats = 0; at_logs = 0 };
}

unfoldable pub new_admission : ℕ → ℕ → Admission
new_admission rows bytes = record {
  state = record { usage = no_usage; active = [] };
  row_limit = rows;
  byte_limit = bytes;
}

-- The `try_fold` over the sizes: `none` where a sum passes `usize`.
unfoldable pub total_bytes : ℕ → List Spec → Option ℕ
total_bytes sum [] = some sum
total_bytes sum (x ∷ xs) = elim (checked_add sum x.bytes) [
  | none ↦ none
  | some more ↦ total_bytes more xs
]

-- The first loop: an ID that repeats in the batch, or is in use.
unfoldable pub check_ids : TextSet → TextSet → List Spec → Option Refusal
check_ids unique active [] = none
check_ids unique active (x ∷ xs) =
    let rest = check_ids (insert x.id unique) active xs in
    if contains x.id unique
    then some duplicate_in_batch
    else if contains x.id active
    then some still_pending
    else rest

abbrev pub permit_of : Spec → Permit
permit_of x = record { id = x.id; bytes = x.bytes; lane = x.lane }

-- One round of the second loop.
unfoldable pub admit : State → Spec → State
admit s x = record {
  usage = record {
    rows = wrapping_add s.usage.rows 1;
    bytes = wrapping_add s.usage.bytes x.bytes;
    lanes = set_lane s.usage.lanes x.lane (wrapping_add (at_lane s.usage.lanes x.lane) 1);
  };
  active = insert x.id s.active;
}

-- The second loop: the state, and the permits in the order of the batch.
unfoldable pub admit_all : State → List Spec → State
admit_all s [] = s
admit_all s (x ∷ xs) = admit_all (admit s x) xs

unfoldable pub permits_of : List Spec → List Permit
permits_of [] = []
permits_of (x ∷ xs) = permit_of x ∷ permits_of xs

-- The comparison of the batch with what is left.
unfoldable pub exceeds : Admission → ℕ → ℕ → Bool
exceeds a rows bytes =
    ltb (saturating_sub a.row_limit a.state.usage.rows) rows
    || ltb (saturating_sub a.byte_limit a.state.usage.bytes) bytes

unfoldable pub reserve : Admission → List Spec → Reserved
reserve a specs = elim (total_bytes 0 specs) [
  | none ↦ refused byte_limit_reached
  | some bytes ↦
      if exceeds a (length specs) bytes
      then refused queue_full
      else elim (check_ids [] a.state.active specs) [
        | some why ↦ refused why
        | none ↦ granted (record a { state = admit_all a.state specs }) (permits_of specs)
      ]
]

-- The four updates of `Drop for Permit`.
unfoldable pub retired : Admission → Permit → Admission
retired a p = record a {
  state = record {
    usage = record {
      rows = wrapping_sub a.state.usage.rows 1;
      bytes = wrapping_sub a.state.usage.bytes p.bytes;
      lanes =
          set_lane a.state.usage.lanes p.lane (wrapping_sub (at_lane a.state.usage.lanes p.lane) 1);
    };
    active = remove p.id a.state.active;
  };
}

-- `Drop for Permit`: `none` is the panic "permit retired twice".
unfoldable pub retire : Admission → Permit → Option Admission
retire a p = if contains p.id a.state.active then some (retired a p) else none

-- Dropping a vector of permits drops each in turn.
unfoldable pub retire_all : Admission → List Permit → Option Admission
retire_all a [] = some a
retire_all a (p ∷ ps) = elim (retire a p) [ none ↦ none | some b ↦ retire_all b ps ]

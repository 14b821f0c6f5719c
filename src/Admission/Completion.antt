-- ===== src/Admission/Completion.antt =====
-- src/admission.rs, `Completion`: the count that an acknowledgement waits for. The mutex makes
-- `finish` one step. The waiting thread is run over what it meets: each time it looks at the
-- clock, and how many jobs the other threads finish while it sleeps.
use whaletracker.Prelude.{
  ℕ, zero, suc, ◌+◌, ◌-◌, ◌≡◌, inl, inr, Option-cases, List, [], ◌∷◌, Option, none, some, arith,
  leb, ltb, if◌then◌else◌,
}

pub record Completion : Type 0 where
  pub remaining : ℕ
  pub executed : ℕ

unfoldable pub new_completion : ℕ → Completion
new_completion n = record { remaining = n; executed = 0 }

-- `none` is the panic "job completed twice".
unfoldable pub finish : Completion → Option Completion
finish c =
    if ltb 0 c.remaining
    then some (record { remaining = c.remaining - 1; executed = c.executed + 1 })
    else none

unfoldable pub finish_all : ℕ → Completion → Option Completion
finish_all zero c = some c
finish_all (suc n) c = elim (finish c) [ none ↦ none | some d ↦ finish_all n d ]

pub record Wake : Type 0 where
  pub now : ℕ
  pub finished : ℕ

pub data Waited : Type 0 where
  timed_out : Waited
  confirmed : ℕ → Waited
  -- The list of wake-ups ended while the thread slept.
  asleep : Waited
  panicked : Waited

-- One round of the loop per wake-up, tested before it sleeps.
unfoldable pub wait : ℕ → Completion → List Wake → Waited
wait deadline c [] = if ltb 0 c.remaining then asleep else confirmed c.executed
wait deadline c (w ∷ ws) =
    if ltb 0 c.remaining
    then if leb deadline w.now
      then timed_out
      else elim (finish_all w.finished c) [ none ↦ panicked | some d ↦ wait deadline d ws ]
    else confirmed c.executed

-- `total` jobs were accepted: each is finished or not.
abbrev pub IsCompletion : ℕ → Completion → Type 0
IsCompletion total c = c.remaining + c.executed ≡ total

finish-IsCompletion :
    (total : ℕ) (c d : Completion) → IsCompletion total c → finish c ≡ some d → IsCompletion total d
unfolding finish
finish-IsCompletion total c d h e = ground arith

pub finish_all-IsCompletion :
    (n total : ℕ) (c d : Completion)
    → IsCompletion total c
    → finish_all n c ≡ some d
    → IsCompletion total d
unfolding finish_all
finish_all-IsCompletion zero total c d h e = ground arith
finish_all-IsCompletion (suc n) total c d h e = elim (Option-cases (finish c)) [
  | inl none' ↦ cc (rw (none', finish_all) at e)
  | inr (b, s) ↦
      finish_all-IsCompletion n total b d (finish-IsCompletion total c b h s)
        (rw (s, finish_all) at e)
]

-- Where a completion counts `total` jobs as finished or remaining, a wait that confirms reports
-- `total`, whenever it wakes and looks at the clock: it never acknowledges a part of the jobs.
pub wait-confirmed :
    (ws : List Wake) (deadline total : ℕ) (c : Completion) (n : ℕ)
    → IsCompletion total c
    → wait deadline c ws ≡ confirmed n
    → n ≡ total
unfolding wait
wait-confirmed [] deadline total c n h e = ground arith
wait-confirmed (w ∷ ws) deadline total c n h e = elim (Option-cases (finish_all w.finished c)) [
  | inl none' ↦ ground (arith, none')
  | inr (d, s) ↦ ground (
    arith,
    s,
    wait-confirmed ws deadline total d n (finish_all-IsCompletion w.finished total c d h s),
  )
]

-- Exactly as many jobs as remain can finish: after them none remains and all of them are counted
-- as executed, and one more panics.
pub finish_all_total :
    (n : ℕ) (c : Completion)
    → n ≡ c.remaining
    → (finish_all n c ≡ some (record { remaining = 0; executed = c.executed + n }))
      × (finish_all (suc n) c ≡ none)
unfolding finish_all finish
finish_all_total zero c e = ground arith
finish_all_total (suc n) c e =
    ground (
      arith,
      finish_all_total n (record { remaining = c.remaining - 1; executed = c.executed + 1 }),
    )

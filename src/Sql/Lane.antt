-- ===== src/Sql/Lane.antt =====
-- src/sql.rs: the three writer lanes and their array of counters.
use whaletracker.Prelude.{
  if◌then◌else◌, Bool, true, false, List, [], ◌∷◌, Text, codes, ◌≡◌, ◌↔◌, arith,
}

pub data Lane : Type 0 where
  online stats logs : Lane

abbrev pub all_lanes : List Lane
all_lanes = online ∷ stats ∷ logs ∷ []

unfoldable pub label : Lane → Text
label online = codes "online"
label stats = codes "stats"
label logs = codes "logs"

-- The derived `==` of the enum.
unfoldable pub lane_eq : Lane → Lane → Bool
lane_eq online online = true
lane_eq stats stats = true
lane_eq logs logs = true
lane_eq _ _ = false

-- `[T; 3]`, indexed by `lane as usize`.
pub record PerLane {ℓ} (A : Type ℓ) : Type ℓ where
  pub at_online : A
  pub at_stats : A
  pub at_logs : A

unfoldable pub at_lane {ℓ} : {A : Type ℓ} → PerLane A → Lane → A
at_lane t online = t.at_online
at_lane t stats = t.at_stats
at_lane t logs = t.at_logs

unfoldable pub set_lane {ℓ} : {A : Type ℓ} → PerLane A → Lane → A → PerLane A
set_lane t online a = record t { at_online = a }
set_lane t stats a = record t { at_stats = a }
set_lane t logs a = record t { at_logs = a }

pub lane_eq_iff : (a b : Lane) → (lane_eq a b ≡ true) ↔ (a ≡ b)
unfolding lane_eq
lane_eq_iff a b = ground arith

pub at_lane-set_lane {ℓ} :
    {A : Type ℓ} (t : PerLane A) (l k : Lane) (a : A)
    → at_lane (set_lane t l a) k ≡ (if lane_eq l k then a else at_lane t k)
unfolding at_lane set_lane lane_eq
at_lane-set_lane t online k a = ground arith
at_lane-set_lane t stats k a = ground arith
at_lane-set_lane t logs k a = ground arith

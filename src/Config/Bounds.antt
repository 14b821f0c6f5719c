-- ===== src/Config/Bounds.antt =====
-- src/config.rs: the ranges of the configuration, whatever the environment holds.
use whaletracker.Prelude.{
  ℕ, ◌*◌, ◌^◌, ◌≤◌, ◌≡◌, ◌∷◌, [], inl, inr, arith, some, word_max, Text, Option-cases,
}
use whaletracker.Sql.LogRate.{digits_value}
use whaletracker.Config.{
  Environment, Config, from_env, number, clamp, at_most, parse_digits, parse_unsigned, bind_port,
  last_part,
}

clamp_bounds : (n low high : ℕ) → low ≤ high → (low ≤ clamp n low high) × (clamp n low high ≤ high)
unfolding clamp
clamp_bounds n low high h = ground arith

parse_digits-le : (limit : ℕ) (t : Text) {n : ℕ} → parse_digits limit t ≡ some n → n ≤ limit
unfolding parse_digits at_most
parse_digits-le limit [] h = cc
parse_digits-le limit (b ∷ bs) h = elim (Option-cases (digits_value 0 (b ∷ bs))) [
  | inl e ↦ let e' = rw (e, at_most) at h in cc
  | inr (m, e) ↦ let e' = rw (e, at_most) at h in ground arith
]

parse_unsigned-le : (limit : ℕ) (t : Text) {n : ℕ} → parse_unsigned limit t ≡ some n → n ≤ limit
unfolding parse_unsigned
parse_unsigned-le limit [] h = cc
parse_unsigned-le limit (b ∷ bs) h =
    ground (arith, parse_digits-le limit bs, parse_digits-le limit (b ∷ bs))

in_seconds :
    {n low high : ℕ} → (low ≤ n) × (n ≤ high) → (1000 * low ≤ 1000 * n) × (1000 * n ≤ 1000 * high)
in_seconds h = omega arith

-- What each setting is confined to.
pub record IsBounded (c : Config) : Type 0 where
  pub flush : (1 ≤ c.flush_interval) × (c.flush_interval ≤ 60000)
  pub batch_rows : (1 ≤ c.max_batch_rows) × (c.max_batch_rows ≤ 4096)
  pub queue_rows : (1 ≤ c.max_queue_rows) × (c.max_queue_rows ≤ 1000000)
  pub queue_bytes : (2 ^ 20 ≤ c.max_queue_bytes) × (c.max_queue_bytes ≤ 2 ^ 30)
  pub dedupe : c.dedupe_events ≤ 1000000
  pub compact : c.compact_bytes ≤ word_max
  pub frame_bytes : (1024 ≤ c.max_frame_bytes) × (c.max_frame_bytes ≤ 2 ^ 20)
  pub inbound : (1 ≤ c.max_inbound_writes) × (c.max_inbound_writes ≤ 4096)
  pub sql_bytes : (256 ≤ c.max_sql_bytes) × (c.max_sql_bytes ≤ 2 ^ 20)
  pub clients : (1 ≤ c.max_clients) × (c.max_clients ≤ 1024)
  pub frame : (1000 ≤ c.frame_timeout) × (c.frame_timeout ≤ 3600000)
  pub ack : (1000 ≤ c.ack_timeout) × (c.ack_timeout ≤ 3600000)
  pub port : (1 ≤ c.cache_owner_port) × (c.cache_owner_port ≤ 65535)
  pub debounce : (1 ≤ c.cache_debounce) × (c.cache_debounce ≤ 3600000)
  pub poll : (1 ≤ c.cache_poll) × (c.cache_poll ≤ 60000)
  pub touch : (1 ≤ c.cache_touch) × (c.cache_touch ≤ 60000)

number-le :
    (env : Environment) (key : Text) (default : ℕ)
    → default ≤ word_max
    → number env key default ≤ word_max
unfolding number
number-le env key default h = elim (Option-cases (env key)) [
  | inl e ↦ rw e h
  | inr (t, e) ↦ rw e (elim (Option-cases (parse_unsigned word_max t)) [
    | inl e' ↦ rw e' h
    | inr (n, e') ↦ rw e' (parse_unsigned-le word_max t e')
  ])
]

-- Whatever the environment holds, every setting of `Config::from_env` lies in its range.
pub from_env-IsBounded : (env : Environment) → IsBounded (from_env env)
unfolding from_env
from_env-IsBounded env = record {
  flush = clamp_bounds _ 1 60000 (omega arith);
  batch_rows = clamp_bounds _ 1 4096 (omega arith);
  queue_rows = clamp_bounds _ 1 1000000 (omega arith);
  queue_bytes = clamp_bounds _ (1024 * 1024) (1024 * 1024 * 1024) (omega arith);
  dedupe = omega arith;
  compact = number-le env _ _ (omega arith);
  frame_bytes = clamp_bounds _ 1024 (1024 * 1024) (omega arith);
  inbound = clamp_bounds _ 1 4096 (omega arith);
  sql_bytes = clamp_bounds _ 256 (1024 * 1024) (omega arith);
  clients = clamp_bounds _ 1 1024 (omega arith);
  frame = in_seconds (clamp_bounds _ 1 3600 (omega arith));
  ack = in_seconds (clamp_bounds _ 1 3600 (omega arith));
  port = clamp_bounds _ 1 65535 (omega arith);
  debounce = clamp_bounds _ 1 3600000 (omega arith);
  poll = clamp_bounds _ 1 60000 (omega arith);
  touch = clamp_bounds _ 1 60000 (omega arith);
}

pub bind_port-le : (c : Config) → bind_port c ≤ 65535
unfolding bind_port
bind_port-le c = elim (Option-cases (parse_unsigned 65535 (last_part c.bind c.bind))) [
  | inl e ↦ rw e (omega arith)
  | inr (n, e) ↦ rw e (parse_unsigned-le 65535 (last_part c.bind c.bind) e)
]

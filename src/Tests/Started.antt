-- ===== src/Tests/Started.antt =====
-- src/config.rs, src/main.rs and src/runtime_limits.rs: an outlet that starts from an environment,
-- serves its clients and refuses others.
use whaletracker.Prelude.{
  ℕ, ◌+◌, ◌≤◌, ◌≡◌, ◌≢◌, ◌⊎◌, refl, List, [], ◌∷◌, true, not, ◌&&◌, ◌||◌, none, some, ltb,
  if◌then◌else◌, length, codes, text_eq,
}
use whaletracker.Sql.LogRate.{digits_value}
use whaletracker.Ascii.{is_ascii_digit}
use whaletracker.Config.{
  Environment, from_env, number, boolean, clamp, parse_unsigned, bind_port, last_part,
}
use whaletracker.Config.Bounds.{IsBounded, from_env-IsBounded}
use whaletracker.Limits.Connections.{new_limit, try_acquire, release}
use whaletracker.Limits.Deadline.{
  fragment, closed, DeadlineStream, begin_frame, read, read_all, socket_read, work_of,
  read_all-begin_frame,
}
use whaletracker.Server.{
  IpAddr, v4, v6, is_loopback, Outcomes, Server, start, serving, stream, accept,
}
use whaletracker.Server.Reach.{
  Reach, started, next, comes, Serves, Reach-Serves, AllLoopback, Reach-token_or_loopback,
  accept-Reach,
}

-- One client at most, by a text that is clamped; a port for the cache that is not a number.
abbrev env : Environment
env key =
    if text_eq key (codes "WT_RUST_MAX_CLIENTS")
    then some (codes "+0")
    else if text_eq key (codes "WT_RUST_BIND")
    then some (codes "[::]:2801")
    else if text_eq key (codes "WT_POINTS_CACHE_OWNER_PORT")
    then some (codes "28o17")
    else none

config_of_env :
    ((from_env env).max_clients ≡ 1)
    × ((from_env env).cache_owner_port ≡ 28017)
    × ((from_env env).max_queue_rows ≡ 8192)
    × (bind_port (from_env env) ≡ 2801)
unfolding from_env number boolean clamp text_eq parse_unsigned digits_value is_ascii_digit bind_port
    last_part
config_of_env = (refl, refl, refl, refl)

overflowing : parse_unsigned 65535 (codes "65536") ≡ none
unfolding parse_unsigned digits_value is_ascii_digit
overflowing = refl

signs_only : (parse_unsigned 65535 (codes "+") ≡ none) × (parse_unsigned 65535 (codes "-1") ≡ none)
unfolding parse_unsigned digits_value is_ascii_digit
signs_only = (refl, refl)

from_env-IsBounded_example : IsBounded (from_env env)
from_env-IsBounded_example = from_env-IsBounded env

abbrev all_well : Outcomes
all_well = record {
  bind = true;
  connect_pool = true;
  prepare = true;
  new_sink = true;
  replay = true;
  spawn_workers = true;
  spawn_cache = true;
}

abbrev idle : Server
idle = record { limit = record { active = 0; maximum = 1 }; clients = [] }

abbrev local : IpAddr
local = v4 127 0 0 1

abbrev busy : Server
busy = record { limit = record { active = 1; maximum = 1 }; clients = local ∷ [] }

idle_starts : start (from_env env) all_well ≡ serving idle
unfolding start from_env number boolean clamp text_eq parse_unsigned digits_value is_ascii_digit
    new_limit
idle_starts = refl

idle-Reach : Reach (from_env env) idle
idle-Reach = started all_well idle_starts

idle_accepts : busy ≡ accept (from_env env) idle (stream local true)
unfolding accept try_acquire release is_loopback from_env number boolean clamp text_eq
    parse_unsigned digits_value is_ascii_digit
idle_accepts = refl

busy-Reach : Reach (from_env env) busy
busy-Reach = next idle-Reach (comes (stream local true) idle_accepts)

Reach-Serves_example : Serves (from_env env) busy
Reach-Serves_example = Reach-Serves env busy-Reach

Reach-token_or_loopback_example : (length (from_env env).auth_token ≢ 0) ⊎ AllLoopback busy.clients
Reach-token_or_loopback_example = Reach-token_or_loopback env busy-Reach

accept-Reach_example :
    (accept (from_env env) busy (stream (v6 (0 ∷ 0 ∷ 0 ∷ 0 ∷ 0 ∷ 0 ∷ 0 ∷ 1 ∷ [])) true)).clients ≡ (
      if (is_loopback (v6 (0 ∷ 0 ∷ 0 ∷ 0 ∷ 0 ∷ 0 ∷ 0 ∷ 1 ∷ []))
          || not (from_env env).require_localhost)
        && ltb (length busy.clients) (from_env env).max_clients
      then v6 (0 ∷ 0 ∷ 0 ∷ 0 ∷ 0 ∷ 0 ∷ 0 ∷ 1 ∷ []) ∷ busy.clients
      else busy.clients)
accept-Reach_example = accept-Reach env (v6 (0 ∷ 0 ∷ 0 ∷ 0 ∷ 0 ∷ 0 ∷ 0 ∷ 1 ∷ [])) busy-Reach

-- A peer that sends a byte every 9 units: the frame of 20 units ends all the same.
abbrev dripping : DeadlineStream
dripping = record {
  stream =
      fragment 9 (codes "a") ∷ fragment 18 (codes "b") ∷ fragment 27 (codes "c") ∷ closed 28 ∷ [];
  deadline = 0;
}

abbrev three_reads : List (ℕ × ℕ)
three_reads = (0, 64) ∷ (0, 64) ∷ (1, 64) ∷ []

dripped : read_all (begin_frame dripping 0 20) 0 three_reads ≡ (codes "ab", 20)
unfolding read_all begin_frame read socket_read
dripped = refl

read_all-begin_frame_example :
    (read_all (begin_frame dripping 0 20) 0 three_reads).1 ≤ 0 + 20 + work_of three_reads
read_all-begin_frame_example = read_all-begin_frame dripping 0 20 three_reads

-- ===== src/Server.antt =====
-- src/main.rs: the start of the process and its accept loop. An accepted stream is the address of
-- its peer; a handler that runs is that address, kept until `handle_client` returns and its permit
-- is dropped.
pub mod Reach
use whaletracker.Prelude.{
  ℕ, List, [], ◌∷◌, Bool, true, false, not, ◌&&◌, ◌==◌, Option, none, some, if◌then◌else◌, length,
  Text,
}
use whaletracker.Config.{Config}
use whaletracker.Limits.Connections.{ConnectionLimit, new_limit, try_acquire, release}

-- `IpAddr`: four bytes, or eight words of 16 bits.
pub data IpAddr : Type 0 where
  v4 : ℕ → ℕ → ℕ → ℕ → IpAddr
  v6 : List ℕ → IpAddr

words_eq : List ℕ → List ℕ → Bool
words_eq [] [] = true
words_eq (a ∷ as') (b ∷ bs) = a == b && words_eq as' bs
words_eq _ _ = false

unfoldable pub is_loopback : IpAddr → Bool
unfolding words_eq
is_loopback (v4 a b c d) = a == 127
is_loopback (v6 words) = words_eq words (0 ∷ 0 ∷ 0 ∷ 0 ∷ 0 ∷ 0 ∷ 0 ∷ 1 ∷ [])

pub data StartError : Type 0 where
  token_required bind_failed pool_failed schema_failed sink_failed replay_failed workers_failed
        cache_failed :
      StartError

-- What each step outside of this file returns: whether it succeeds.
pub record Outcomes : Type 0 where
  pub bind : Bool
  pub connect_pool : Bool
  pub prepare : Bool
  pub new_sink : Bool
  pub replay : Bool
  pub spawn_workers : Bool
  pub spawn_cache : Bool

pub record Server : Type 0 where
  pub limit : ConnectionLimit
  pub clients : List IpAddr

pub data Started : Type 0 where
  serving : Server → Started
  not_started : StartError → Started
  panicked : Started

abbrev with_limit : Option ConnectionLimit → Started
with_limit none = panicked
with_limit (some limit) = serving (record { limit = limit; clients = [] })

-- `?` on a step: the next ones run only if it succeeds.
abbrev step_then : Bool → StartError → Started → Started
step_then true e k = k
step_then false e k = not_started e

-- `main`, up to the accept loop.
unfoldable pub start : Config → Outcomes → Started
unfolding new_limit
start cfg o =
    if not cfg.require_localhost && length cfg.auth_token == 0
    then not_started token_required
    else step_then o.bind bind_failed (
        step_then o.connect_pool pool_failed (
          step_then o.prepare schema_failed (
            step_then o.new_sink sink_failed (
              step_then o.replay replay_failed (
                step_then o.spawn_workers workers_failed (
                  step_then o.spawn_cache cache_failed
                    (with_limit (new_limit cfg.max_clients))))))))

-- An incoming connection: `accept` fails, the peer has no address any more, or a stream, with
-- whether a thread can be spawned for it.
pub data Incoming : Type 0 where
  accept_failed no_address : Incoming
  stream : IpAddr → Bool → Incoming

-- A handler that cannot be spawned drops the closure, and with it the permit.
abbrev spawn : Server → IpAddr → Bool → Option ConnectionLimit → Server
spawn s peer spawned none = s
spawn s peer true (some limit) = record { limit = limit; clients = peer ∷ s.clients }
spawn s peer false (some limit) = record s { limit = release limit }

-- One round of the accept loop.
unfoldable pub accept : Config → Server → Incoming → Server
unfolding try_acquire release is_loopback
accept cfg s accept_failed = s
accept cfg s no_address = s
accept cfg s (stream peer spawned) =
    if cfg.require_localhost && not (is_loopback peer)
    then s
    else spawn s peer spawned (try_acquire s.limit)

-- ===== src/Server/Reach.antt =====
-- src/main.rs under any interleaving of connections that come in and handlers that end.
use whaletracker.Prelude.{
  ◌≢◌, ◌⊎◌, ◌&&◌, ltb, if◌then◌else◌, ◌==◌, ap, subst, ◌≤◌, ◌<◌, ◌≡◌, arith, List, [], ◌∷◌, ◌++◌,
  true, false, not, ◌||◌, length, length-append, word_mod, inl, inr, Bool-cases,
}
use whaletracker.Config.{Config, Environment, from_env}
use whaletracker.Config.Bounds.{from_env-IsBounded}
use whaletracker.Limits.Connections.{new_limit, try_acquire, release}
use whaletracker.Server.{
  panicked, IpAddr, is_loopback, Outcomes, Server, serving, start, Incoming, accept_failed,
  no_address, stream, accept,
}

-- The events: a connection comes in, or a handler ends, and its permit is dropped.
pub data Step (cfg : Config) (s t : Server) : Type 0 where
  comes : (i : Incoming) → t ≡ accept cfg s i → Step cfg s t
  ends :
      (before : List IpAddr) (peer : IpAddr) (after : List IpAddr)
      → s.clients ≡ before ++ peer ∷ after
      → t ≡ record { limit = release s.limit; clients = before ++ after }
      → Step cfg s t

pub data Reach (cfg : Config) : Server → Type 0 where
  started : (o : Outcomes) {s : Server} → start cfg o ≡ serving s → Reach cfg s
  next : {s t : Server} → Reach cfg s → Step cfg s t → Reach cfg t

-- A peer that may be served.
abbrev pub Permitted : Config → IpAddr → Type 0
Permitted cfg peer = (is_loopback peer || not cfg.require_localhost) ≡ true

abbrev pub AllPermitted : Config → List IpAddr → Type 0
AllPermitted cfg [] = Unit {0}
AllPermitted cfg (peer ∷ peers) = Permitted cfg peer × AllPermitted cfg peers

pub record Serves (cfg : Config) (s : Server) : Type 0 where
  pub counted : s.limit.active ≡ length s.clients
  pub within : s.limit.active ≤ s.limit.maximum
  pub limited : s.limit.maximum ≡ cfg.max_clients
  pub peers : AllPermitted cfg s.clients

AllPermitted-middle :
    (cfg : Config) (before : List IpAddr) (peer : IpAddr) (after : List IpAddr)
    → AllPermitted cfg (before ++ peer ∷ after)
    → AllPermitted cfg (before ++ after)
AllPermitted-middle cfg [] peer after h = h.1
AllPermitted-middle cfg (p ∷ before) peer after h =
    (h.0, AllPermitted-middle cfg before peer after h.1)

accept-Serves :
    (cfg : Config) (s : Server) (i : Incoming)
    → cfg.max_clients < word_mod
    → Serves cfg s
    → Serves cfg (accept cfg s i)
unfolding accept try_acquire release
accept-Serves cfg s accept_failed m v = v
accept-Serves cfg s no_address m v = v
accept-Serves cfg s (stream peer true) m v = ground arith
accept-Serves cfg s (stream peer false) m v = ground arith

Step-Serves :
    {cfg : Config} {s t : Server}
    → Step cfg s t
    → cfg.max_clients < word_mod
    → Serves cfg s
    → Serves cfg t
unfolding release
Step-Serves {cfg} {s} {t} (comes i e) m v = rw e (accept-Serves cfg s i m v)
Step-Serves {cfg} {s} {t} (ends before peer after e e') m v = rw e' (record {
  counted = omega (
    arith,
    v.counted,
    v.within,
    v.limited,
    ap length e,
    length-append before (peer ∷ after),
    length-append before after,
  );
  within =
      omega
        (arith, v.counted, v.within, v.limited, ap length e, length-append before (peer ∷ after));
  limited = v.limited;
  peers = AllPermitted-middle cfg before peer after (subst (AllPermitted cfg) e v.peers);
})

start-Serves : (cfg : Config) (o : Outcomes) {s : Server} → start cfg o ≡ serving s → Serves cfg s
unfolding start new_limit
start-Serves cfg o h = ground arith

-- Whatever the environment holds, after any sequence of connections and of handlers that end, the
-- counter is the number of handlers that run, it is at most `WT_RUST_MAX_CLIENTS` as confined to
-- its range, and each of their peers is on loopback or need not be.
pub Reach-Serves :
    (env : Environment) {s : Server} → Reach (from_env env) s → Serves (from_env env) s
Reach-Serves env (started o e) = start-Serves (from_env env) o e
Reach-Serves env (next r st) =
    Step-Serves st (omega (arith, (from_env-IsBounded env).clients)) (Reach-Serves env r)

start-Guarded :
    (cfg : Config) (o : Outcomes) {s : Server}
    → start cfg o ≡ serving s
    → (cfg.require_localhost || not (length cfg.auth_token == 0)) ≡ true
unfolding start
start-Guarded cfg o h = ground arith

Reach-Guarded :
    {cfg : Config} {s : Server}
    → Reach cfg s
    → (cfg.require_localhost || not (length cfg.auth_token == 0)) ≡ true
Reach-Guarded {cfg} (started o e) = start-Guarded cfg o e
Reach-Guarded (next r st) = Reach-Guarded r

abbrev pub AllLoopback : List IpAddr → Type 0
AllLoopback [] = Unit {0}
AllLoopback (peer ∷ peers) = (is_loopback peer ≡ true) × AllLoopback peers

AllPermitted-loopback :
    (cfg : Config) (peers : List IpAddr)
    → cfg.require_localhost ≡ true
    → AllPermitted cfg peers
    → AllLoopback peers
AllPermitted-loopback cfg [] l h = tt
AllPermitted-loopback cfg (p ∷ ps) l h = (ground (arith, h.0), AllPermitted-loopback cfg ps l h.1)

-- Whatever the environment holds, an outlet that serves at all asks its clients for a token that
-- is not empty, or serves only peers on loopback.
pub Reach-token_or_loopback :
    (env : Environment) {s : Server}
    → Reach (from_env env) s
    → (length (from_env env).auth_token ≢ 0) ⊎ AllLoopback s.clients
Reach-token_or_loopback env r = elim (Bool-cases (from_env env).require_localhost) [
  | inl l ↦ inr (AllPermitted-loopback (from_env env) _ l (Reach-Serves env r).peers)
  | inr n ↦ inl (λ z. let g = Reach-Guarded r in ground (arith, n, g))
]

-- The process does not panic while it starts, whatever the environment holds.
pub start-no_panic : (env : Environment) (o : Outcomes) → start (from_env env) o ≢ panicked
unfolding start new_limit
start-no_panic env o h = ground (arith, (from_env-IsBounded env).clients)

-- In every reachable state a connection whose handler can be spawned is served exactly when its
-- peer is permitted and fewer handlers run than the configuration allows; else nothing changes.
pub accept-Reach :
    (env : Environment) {s : Server} (peer : IpAddr)
    → Reach (from_env env) s
    → (accept (from_env env) s (stream peer true)).clients ≡ (
        if (is_loopback peer || not (from_env env).require_localhost)
          && ltb (length s.clients) (from_env env).max_clients
        then peer ∷ s.clients
        else s.clients)
unfolding accept try_acquire
accept-Reach env peer r = let v = Reach-Serves env r in ground (arith, v.counted, v.limited)

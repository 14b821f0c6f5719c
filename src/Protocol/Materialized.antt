-- ===== src/Protocol/Materialized.antt =====
-- src/protocol.rs, `materialize`: what an accepted write of a client is.
use whaletracker.Prelude.{
  ℕ, ◌≤◌, ◌<◌, ◌≡◌, ◌⊎◌, inl, inr, refl, sym, true, false, not, Option, some, arith, ◌++◌, length,
  all, Text, codes, text_eq, ℤ, Bool-cases, Option-cases,
}
use whaletracker.Ascii.{is_ascii_digit, is_ascii_control}
use whaletracker.Journal.{StoredWrite, bad_id}
use whaletracker.Protocol.Message.{
  RawWrite, TypedWrite, InboundWrite, typed, stored, RawOr, raw_is, bad_raw, MessageError, decimal,
  positive, is_steamid, online_remove, remove_player, typed_sql, raw_write, id_of, is_bad_id,
  check_write, materialize,
}

RawOr-cases :
    (x : RawOr) → ((r : RawWrite) × (x ≡ raw_is r)) ⊎ ((e : MessageError) × (x ≡ bad_raw e))
RawOr-cases (raw_is r) = inl (r, refl)
RawOr-cases (bad_raw e) = inr (e, refl)

-- The statements of typed writes: of the client's text they hold at most the digits of a player.
pub data Shaped : Text → Type 0 where
  removes :
      (steam : Text) (port : ℕ)
      → all is_ascii_digit steam ≡ true
      → 16 ≤ length steam
      → length steam ≤ 20
      → 0 < port
      → Shaped (online_remove steam port)
  clears_host :
      (port : ℕ)
      → 0 < port
      → Shaped (codes "DELETE FROM whaletracker_online WHERE host_port = " ++ decimal port)
  clears_port :
      (port : ℕ)
      → 0 < port
      → Shaped (codes "DELETE FROM whaletracker_servers WHERE port = " ++ decimal port)

remove_player-Shaped :
    (w : TypedWrite) (port : ℕ) (r : RawWrite)
    → 0 < port
    → remove_player w port ≡ raw_is r
    → Shaped r.sql
unfolding remove_player is_steamid
remove_player-Shaped w port r pos e = elim (Option-cases w.steamid) [
  | inl missing ↦ absurd (ground (arith, missing))
  | inr (steam, here) ↦ elim (Bool-cases (is_steamid steam)) [
    | inr bad ↦ absurd (ground (arith, here, bad))
    | inl good ↦
        let same : r.sql ≡ online_remove steam port = ground (arith, here, good) in
        rw same (
          removes steam port (ground (arith, good)) (ground (arith, good)) (ground (arith, good))
            pos)
  ]
]

typed_sql-Shaped :
    (w : TypedWrite) (port : ℕ) (r : RawWrite)
    → 0 < port
    → typed_sql w port ≡ raw_is r
    → Shaped r.sql
unfolding typed_sql
typed_sql-Shaped w port r pos e = elim (Bool-cases (text_eq w.kind (codes "online_remove"))) [
  | inl k ↦ remove_player-Shaped w port r pos (ground (arith, k))
  | inr k ↦ elim (Bool-cases (text_eq w.kind (codes "online_clear_host"))) [
    | inl h ↦
        let same : r.sql
            ≡ codes "DELETE FROM whaletracker_online WHERE host_port = " ++ decimal port =
          ground (arith, k, h) in
        rw same (clears_host port pos)
    | inr h ↦ elim (Bool-cases (text_eq w.kind (codes "server_clear_port"))) [
      | inl m ↦
          let same : r.sql
              ≡ codes "DELETE FROM whaletracker_servers WHERE port = " ++ decimal port =
            ground (arith, k, h, m) in
          rw same (clears_port port pos)
      | inr m ↦ absurd (ground (arith, k, h, m))
    ]
  ]
]

typed-Shaped : (w : TypedWrite) (r : RawWrite) → raw_write (typed w) ≡ raw_is r → Shaped r.sql
unfolding raw_write positive
typed-Shaped w r e = elim (Option-cases (positive w.host_port)) [
  | inl missing ↦ absurd (ground (arith, missing))
  | inr (port, here) ↦ typed_sql-Shaped w port r (ground (arith, here)) (ground (arith, here))
]

-- What `materialize` has made of a raw write.
pub record Checks (r : RawWrite) (batch_id : Option ℤ) (max_sql_bytes stamp : ℕ) (s : StoredWrite)
    : Type 0 where
  pub sql_same : s.sql ≡ r.sql
  pub sql_fits : length s.sql ≤ max_sql_bytes
  pub id_valid : bad_id s.event_id ≡ false
  pub id_printable : all (λ b. not (is_ascii_control b)) s.event_id ≡ true
  pub id_kept : (id : Text) → r.event_id ≡ some id → s.event_id ≡ id
  pub user_same : s.user_id ≡ r.user_id
  pub batch_same : s.batch_id ≡ batch_id
  pub stamped_at : s.ts_ms ≡ stamp

check_write-Checks :
    (r : RawWrite) (batch_id : Option ℤ) (max_sql_bytes : ℕ) (generated : Text) (stamp : ℕ)
    (s : StoredWrite)
    → check_write r batch_id max_sql_bytes generated stamp ≡ stored s
    → Checks r batch_id max_sql_bytes stamp s
unfolding check_write is_bad_id id_of
check_write-Checks r batch_id max_sql_bytes generated stamp s e = record {
  sql_same = ground arith;
  sql_fits = ground arith;
  id_valid = ground arith;
  id_printable = ground arith;
  id_kept = λ id h. ground (arith, h);
  user_same = ground arith;
  batch_same = ground arith;
  stamped_at = ground arith;
}

-- A write that `materialize` accepts has the statement and the user of the raw write, which is
-- within the limit; its event ID is that of the client where there is one, is of 1 to 192 bytes,
-- as the journal demands, and holds no control character; and where the write was typed, the
-- statement has one of three forms in which nothing of the client's text stands but 16 to 20
-- digits.
pub materialize-Checks :
    (w : InboundWrite) (batch_id : Option ℤ) (max_sql_bytes : ℕ) (generated : Text) (stamp : ℕ)
    (s : StoredWrite)
    → materialize w batch_id max_sql_bytes generated stamp ≡ stored s
    → (r : RawWrite) × (raw_write w ≡ raw_is r)
      × Checks r batch_id max_sql_bytes stamp s
      × ((t : TypedWrite) → w ≡ typed t → Shaped s.sql)
unfolding materialize
materialize-Checks w batch_id max_sql_bytes generated stamp s e = elim (RawOr-cases (raw_write w)) [
  | inr (why, bad) ↦ absurd (ground (arith, bad))
  | inl (r, made) ↦
      let c =
        check_write-Checks r batch_id max_sql_bytes generated stamp s (ground (arith, made)) in
      (r, made, c, λ t h. rw (c.sql_same) (typed-Shaped t r (rw (sym h) made)))
]

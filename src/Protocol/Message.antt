-- ===== src/Protocol/Message.antt =====
-- src/protocol.rs: the messages of a client, and `InboundWrite::materialize`. The clock, the
-- process ID and the serial number of a generated event ID are arguments.
use whaletracker.Prelude.{
  ℕ, zero, suc, ◌+◌, ◌/◌, ◌%◌, [], ◌∷◌, ◌++◌, Bool, not, ◌&&◌, ◌||◌, Option, none, some, ltb, leb,
  if◌then◌else◌, length, all, Text, text_eq, codes, ℤ,
}
use whaletracker.Ascii.{is_ascii_digit, is_ascii_control}
use whaletracker.Journal.{StoredWrite, bad_id}

pub record RawWrite : Type 0 where
  pub sql : Text
  pub user_id : Option ℕ
  pub event_id : Option Text
  pub force_sync : Option Bool

pub record TypedWrite : Type 0 where
  pub kind : Text
  pub steamid : Option Text
  pub host_port : Option ℕ
  pub user_id : Option ℕ
  pub event_id : Option Text

pub data InboundWrite : Type 0 where
  raw : RawWrite → InboundWrite
  typed : TypedWrite → InboundWrite

-- The texts of the errors.
pub data MessageError : Type 0 where
  no_host_port missing_steamid invalid_steamid unknown_kind sql_too_large invalid_event_id :
      MessageError

pub data Materialized : Type 0 where
  stored : StoredWrite → Materialized
  bad_write : MessageError → Materialized

pub data RawOr : Type 0 where
  raw_is : RawWrite → RawOr
  bad_raw : MessageError → RawOr

-- `{}` of a number, in decimal. A `u64` has at most 20 digits.
unfoldable pub decimal_loop : ℕ → ℕ → Text → Text
decimal_loop zero n digits = digits
decimal_loop (suc fuel) n digits =
    let more = decimal_loop fuel (n / 10) ((b'0' + n % 10) ∷ digits) in
    if ltb n 10 then (b'0' + n) ∷ digits else more

unfoldable pub decimal : ℕ → Text
unfolding decimal_loop
decimal n = decimal_loop 20 n []

-- `.filter(|port| *port > 0)`.
unfoldable pub positive : Option ℕ → Option ℕ
positive none = none
positive (some port) = if ltb 0 port then some port else none

unfoldable pub is_steamid : Text → Bool
is_steamid steam = (leb 16 (length steam) && leb (length steam) 20) && all is_ascii_digit steam

unfoldable pub online_remove : Text → ℕ → Text
online_remove steam port =
    codes "DELETE FROM whaletracker_online WHERE steamid = '"
    ++ (steam ++ (codes "' AND host_port = " ++ decimal port))

abbrev raw_of : TypedWrite → Text → RawOr
raw_of w sql =
    raw_is (record { sql = sql; user_id = w.user_id; event_id = w.event_id; force_sync = none })

unfoldable pub remove_player : TypedWrite → ℕ → RawOr
unfolding is_steamid online_remove
remove_player w port = elim w.steamid [
  | none ↦ bad_raw missing_steamid
  | some steam ↦
      if is_steamid steam then raw_of w (online_remove steam port) else bad_raw invalid_steamid
]

-- The match on the kind.
unfoldable pub typed_sql : TypedWrite → ℕ → RawOr
unfolding remove_player decimal
typed_sql w port =
    if text_eq w.kind (codes "online_remove")
    then remove_player w port
    else if text_eq w.kind (codes "online_clear_host")
    then raw_of w (codes "DELETE FROM whaletracker_online WHERE host_port = " ++ decimal port)
    else if text_eq w.kind (codes "server_clear_port")
    then raw_of w (codes "DELETE FROM whaletracker_servers WHERE port = " ++ decimal port)
    else bad_raw unknown_kind

unfoldable pub raw_write : InboundWrite → RawOr
unfolding typed_sql positive
raw_write (raw w) = raw_is w
raw_write (typed w) = elim (positive w.host_port) [
  | none ↦ bad_raw no_host_port
  | some port ↦ typed_sql w port
]

-- `rust-{pid}-{now}-{serial}`.
unfoldable pub generated_id : ℕ → ℕ → ℕ → Text
unfolding decimal
generated_id pid now serial =
    codes "rust-" ++ (decimal pid ++ (codes "-" ++ (decimal now ++ (codes "-" ++ decimal serial))))

unfoldable pub id_of : RawWrite → Text → Text
id_of w generated = elim w.event_id [ none ↦ generated | some id ↦ id ]

unfoldable pub is_bad_id : Text → Bool
is_bad_id id = bad_id id || not (all (λ b. not (is_ascii_control b)) id)

-- The steps behind the raw write; `stamp` is the time that it is given.
unfoldable pub check_write : RawWrite → Option ℤ → ℕ → Text → ℕ → Materialized
unfolding is_bad_id id_of
check_write w batch_id max_sql_bytes generated stamp =
    if ltb max_sql_bytes (length w.sql)
    then bad_write sql_too_large
    else if is_bad_id (id_of w generated)
    then bad_write invalid_event_id
    else stored (record {
      event_id = id_of w generated;
      sql = w.sql;
      user_id = w.user_id;
      batch_id = batch_id;
      ts_ms = stamp;
    })

unfoldable pub materialize : InboundWrite → Option ℤ → ℕ → Text → ℕ → Materialized
unfolding raw_write check_write
materialize w batch_id max_sql_bytes generated stamp = elim (raw_write w) [
  | bad_raw e ↦ bad_write e
  | raw_is r ↦ check_write r batch_id max_sql_bytes generated stamp
]

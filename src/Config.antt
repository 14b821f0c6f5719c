-- ===== src/Config.antt =====
-- src/config.rs: the configuration that the outlet reads from its environment. Durations are in
-- milliseconds. An environment gives each variable its text, or nothing where it is unset or not
-- UTF-8; `SystemTime` enters where a time is used.
pub mod Bounds
use whaletracker.Prelude.{
  ℕ, ◌+◌, ◌*◌, [], ◌∷◌, Option, none, some, Bool, true, false, ◌||◌, ◌==◌, ltb, leb, if◌then◌else◌,
  min, word_max, Text, codes, text_eq,
}
use whaletracker.Sql.LogRate.{digits_value}

abbrev pub Environment : Type 0
Environment = Text → Option Text

-- `parse` of an unsigned integer with at most `limit`: an optional sign, then digits.
at_most : ℕ → Option ℕ → Option ℕ
at_most limit none = none
at_most limit (some n) = if leb n limit then some n else none

parse_digits : ℕ → Text → Option ℕ
unfolding at_most digits_value
parse_digits limit [] = none
parse_digits limit (b ∷ bs) = at_most limit (digits_value 0 (b ∷ bs))

unfoldable pub parse_unsigned : ℕ → Text → Option ℕ
unfolding parse_digits
parse_unsigned limit [] = none
parse_unsigned limit (b ∷ bs) =
    if b == b'+' then parse_digits limit bs else parse_digits limit (b ∷ bs)

abbrev pub unwrap_or {ℓ} : {A : Type ℓ} → Option A → A → A
unwrap_or none d = d
unwrap_or (some a) d = a

abbrev pub and_then {ℓ κ} : {A : Type ℓ} {B : Type κ} → Option A → (A → Option B) → Option B
and_then none f = none
and_then (some a) f = f a

unfoldable pub number : Environment → Text → ℕ → ℕ
unfolding parse_unsigned
number env key default = unwrap_or (and_then (env key) (parse_unsigned word_max)) default

unfoldable pub is_true : Text → Bool
unfolding text_eq
is_true value =
    text_eq value (codes "1")
    || text_eq value (codes "true")
    || text_eq value (codes "TRUE")
    || text_eq value (codes "yes")
    || text_eq value (codes "YES")

unfoldable pub boolean : Environment → Text → Bool → Bool
unfolding is_true
boolean env key default = unwrap_or (and_then (env key) (λ value. some (is_true value))) default

-- `Ord::clamp`.
unfoldable pub clamp : ℕ → ℕ → ℕ → ℕ
clamp n low high = if ltb n low then low else if ltb high n then high else n

pub record Config : Type 0 where
  pub bind : Text
  pub flush_interval : ℕ
  pub max_batch_rows : ℕ
  pub max_queue_rows : ℕ
  pub max_queue_bytes : ℕ
  pub dedupe_events : ℕ
  pub journal_path : Text
  pub dead_letter_path : Text
  pub compact_bytes : ℕ
  pub max_frame_bytes : ℕ
  pub max_inbound_writes : ℕ
  pub max_sql_bytes : ℕ
  pub max_clients : ℕ
  pub frame_timeout : ℕ
  pub ack_timeout : ℕ
  pub auth_token : Text
  pub require_localhost : Bool
  pub debug : Bool
  pub cache_owner_port : ℕ
  pub cache_debounce : ℕ
  pub cache_poll : ℕ
  pub cache_touch : ℕ

unfoldable pub from_env : Environment → Config
from_env env = record {
  bind = unwrap_or (env (codes "WT_RUST_BIND")) (codes "127.0.0.1:28017");
  flush_interval = clamp (number env (codes "WT_RUST_FLUSH_MS") 100) 1 60000;
  max_batch_rows = clamp (number env (codes "WT_RUST_MAX_BATCH_ROWS") 256) 1 4096;
  max_queue_rows = clamp (number env (codes "WT_RUST_MAX_QUEUE_ROWS") 8192) 1 1000000;
  max_queue_bytes =
      clamp (number env (codes "WT_RUST_MAX_QUEUE_BYTES") (64 * 1024 * 1024)) (1024 * 1024)
        (1024 * 1024 * 1024);
  dedupe_events = min (number env (codes "WT_RUST_DEDUPE_EVENTS") 65536) 1000000;
  journal_path =
      unwrap_or (env (codes "WT_RUST_PENDING_JOURNAL_PATH")) (codes "sql_pending_journal.log");
  dead_letter_path =
      unwrap_or (env (codes "WT_RUST_DEAD_LETTER_PATH")) (codes "sql_dead_letters.log");
  compact_bytes = number env (codes "WT_RUST_PENDING_JOURNAL_COMPACT_BYTES") (16 * 1024 * 1024);
  max_frame_bytes = clamp (number env (codes "WT_RUST_MAX_FRAME_BYTES") 32768) 1024 (1024 * 1024);
  max_inbound_writes = clamp (number env (codes "WT_RUST_MAX_INBOUND_WRITES") 256) 1 4096;
  max_sql_bytes = clamp (number env (codes "WT_RUST_MAX_SQL_BYTES") 8192) 256 (1024 * 1024);
  max_clients = clamp (number env (codes "WT_RUST_MAX_CLIENTS") 32) 1 1024;
  frame_timeout = 1000 * clamp (number env (codes "WT_RUST_FRAME_TIMEOUT_SECS") 90) 1 3600;
  ack_timeout = 1000 * clamp (number env (codes "WT_RUST_ACK_TIMEOUT_SECS") 30) 1 3600;
  auth_token = unwrap_or (env (codes "WT_RUST_AUTH_TOKEN")) [];
  require_localhost = boolean env (codes "WT_RUST_REQUIRE_LOCALHOST") true;
  debug = boolean env (codes "WT_RUST_DEBUG") false;
  cache_owner_port = clamp (number env (codes "WT_POINTS_CACHE_OWNER_PORT") 28017) 1 65535;
  cache_debounce = clamp (number env (codes "WT_POINTS_CACHE_DEBOUNCE_MS") 3000) 1 3600000;
  cache_poll = clamp (number env (codes "WT_POINTS_CACHE_POLL_MS") 1000) 1 60000;
  cache_touch = clamp (number env (codes "WT_POINTS_CACHE_TOUCH_MS") 1000) 1 60000;
}

-- `rsplit(':').next()`: what follows the last colon, or the whole text.
unfoldable pub last_part : Text → Text → Text
last_part part [] = part
last_part part (b ∷ bs) = last_part (if b == b':' then bs else part) bs

unfoldable pub bind_port : Config → ℕ
unfolding last_part parse_unsigned
bind_port cfg = unwrap_or (parse_unsigned 65535 (last_part cfg.bind cfg.bind)) 0

-- ===== src/Database.antt =====
-- src/database.rs: the options of the pool; `NamedLock` and `with_named_lock`, on one session.
pub mod Lock
use whaletracker.Prelude.{
  ℕ, ◌*◌, [], Bool, true, false, not, Option, none, some, ◌==◌, if◌then◌else◌, Text, codes, text_eq,
}
use whaletracker.Ascii.{lowercase}
use whaletracker.Config.{Environment, number, clamp, unwrap_or}

-- What `connect_pool` asks of the pool; durations are in milliseconds.
pub record PoolOptions : Type 0 where
  pub host : Text
  pub port : ℕ
  pub db_name : Text
  pub user : Text
  pub password : Text
  pub connect_timeout : ℕ
  pub io_timeout : ℕ
  pub smallest : ℕ
  pub largest : ℕ

-- `none` is the error on a driver that is not supported.
unfoldable pub pool_options : Environment → Option PoolOptions
unfolding number clamp lowercase text_eq
pool_options env =
    if not
      (text_eq (lowercase (unwrap_or (env (codes "WT_DB_DRIVER")) (codes "mysql"))) (codes "mysql"))
    then none
    else some (record {
      host = unwrap_or (env (codes "WT_DB_HOST")) (codes "127.0.0.1");
      port = clamp (number env (codes "WT_DB_PORT") 3306) 1 65535;
      db_name = unwrap_or (env (codes "WT_DB_NAME")) (codes "appdb");
      user = unwrap_or (env (codes "WT_DB_USER")) (codes "dbuser");
      password = unwrap_or (env (codes "WT_DB_PASS")) [];
      connect_timeout = 5000;
      io_timeout = 1000 * clamp (number env (codes "WT_DB_IO_TIMEOUT_SECS") 30) 1 3600;
      smallest = 1;
      largest = 4;
    })

-- `Result<Option<u8>, mysql::Error>`: a row, the value NULL, or a failed query.
pub data Answer : Type 0 where
  row : ℕ → Answer
  null failed : Answer

pub data LockError : Type 0 where
  acquisition_failed release_failed : Answer → LockError
  operation_failed : LockError

-- What the operation under the lock does: it returns, or it unwinds.
pub data Ran {ℓ} (A : Type ℓ) : Type ℓ where
  ran : A → Ran A
  refused unwinds : Ran A

pub data Outcome {ℓ} (A : Type ℓ) : Type ℓ where
  -- `Ok(Some(value))` and `Ok(None)`.
  done : A → Outcome A
  not_acquired : Outcome A
  err : LockError → Outcome A
  panicking : Outcome A

-- Where the session ends: in the pool, with whether the server holds the lock for it; or closed,
-- and with it all that it held.
pub data Fate : Type 0 where
  pooled : Bool → Fate
  closed : Fate

-- What the server answers, and whether it holds the lock for the session then.
pub record Server : Type 0 where
  pub get_lock : Answer
  pub got : Bool
  pub release_lock : Answer
  pub kept : Bool

pub data Released : Type 0 where
  released : Fate → Released
  not_released : LockError → Released

-- `NamedLock::release` of a lock that has its session: `conn.unwrap()` takes it out of the pool.
unfoldable pub release : Server → Released
release server = elim server.release_lock [
  | row n ↦ if n == 1 then released (pooled server.kept) else not_released (release_failed (row n))
  | null ↦ not_released (release_failed null)
  | failed ↦ not_released (release_failed failed)
]

-- The operation's result and the release's: an error of the operation goes first, and a release in
-- `Drop` is only logged.
unfoldable pub finish {ℓ} : {A : Type ℓ} → Ran A → Released → Outcome A × Fate
finish (ran a) (released f) = (done a, f)
finish (ran a) (not_released e) = (err e, closed)
finish refused (released f) = (err operation_failed, f)
finish refused (not_released e) = (err operation_failed, closed)
finish unwinds (released f) = (panicking, f)
finish unwinds (not_released e) = (panicking, closed)

module _ {ℓ κ} {S : Type ℓ} {A : Type κ} where
  abbrev under_lock : Server → Ran A × S → S × Outcome A × Fate
  under_lock server (r, s) = let (o, f) = finish r (release server) in (s, o, f)

  -- The state that the operation changes, the outcome, and where the session ends.
  unfoldable pub with_named_lock : Server → (S → Ran A × S) → S → S × Outcome A × Fate
  unfolding release finish
  with_named_lock server operation s = elim server.get_lock [
    | row n ↦
        if n == 1
        then under_lock server (operation s)
        else if n == 0
        then (s, not_acquired, pooled server.got)
        else (s, err (acquisition_failed (row n)), closed)
    | null ↦ (s, err (acquisition_failed null), closed)
    | failed ↦ (s, err (acquisition_failed failed), closed)
  ]

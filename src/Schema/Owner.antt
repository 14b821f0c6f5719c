-- ===== src/Schema/Owner.antt =====
-- src/schema.rs: the instance that owns the cache applies the migrations, under the named lock.
use whaletracker.Prelude.{
  ℕ, suc, zero, Option, none, some, List, [], ◌∷◌, Bool, true, false, ◌||◌, ◌==◌, ltb,
  if◌then◌else◌, max, Text,
}
use whaletracker.Database.{Server, Ran, ran, refused, Outcome, done, with_named_lock}
use whaletracker.Schema.Migrations.{Migration}

-- What the database keeps: the versions in whaletracker_schema_migrations, the latest first, if the
-- table is there; and the statements that were executed, the latest first.
pub record Db : Type 0 where
  pub has_table : Bool
  pub versions : List ℕ
  pub executed : List Text

-- A session executes so many queries and then fails; the one that fails may have its effect, where
-- only its answer is lost.
pub record Session : Type 0 where
  pub db : Db
  pub answers : ℕ
  pub late : Bool

pub data Query : Type 0 where
  answered : Session → Query
  query_failed : Session → Query

unfoldable pub query_with : Session → ℕ → Db → Query
query_with s zero db = query_failed (record s { db = if s.late then db else s.db })
query_with s (suc n) db = answered (record s { db = db; answers = n })

unfoldable pub query : Session → Db → Query
unfolding query_with
query s db = query_with s s.answers db

abbrev pub and_query : Query → (Session → Query) → Query
and_query (answered s) f = f s
and_query (query_failed s) f = query_failed s

-- `COALESCE(MAX(version), 0)`.
unfoldable pub max_version : List ℕ → ℕ
max_version [] = 0
max_version (v ∷ vs) = max v (max_version vs)

-- It reads a table that may not be there.
unfoldable pub current_version : Db → Option ℕ
unfolding max_version
current_version db = if db.has_table then some (max_version db.versions) else none

unfoldable pub has : ℕ → List ℕ → Bool
has version [] = false
has version (v ∷ vs) = version == v || has version vs

unfoldable pub ensure_version_table : Session → Query
unfolding query
ensure_version_table s = query s (record (s.db) { has_table = true })

unfoldable pub run_statements : Session → List Text → Query
unfolding query
run_statements s [] = answered s
run_statements s (statement ∷ more) =
    and_query (query s (record (s.db) { executed = statement ∷ s.db.executed }))
      (λ s'. run_statements s' more)

-- The version is the primary key.
unfoldable pub record_version : Session → ℕ → Query
unfolding query
record_version s version =
    if has version s.db.versions
    then query_failed s
    else query s (record (s.db) { versions = version ∷ s.db.versions })

unfoldable pub apply_migration : Session → Migration → Query
unfolding run_statements record_version
apply_migration s m = and_query (run_statements s m.statements) (λ s'. record_version s' m.version)

-- The loop over the migrations later than the current version.
unfoldable pub apply_migrations : ℕ → Session → List Migration → Query
unfolding apply_migration
apply_migrations current s [] = answered s
apply_migrations current s (m ∷ ms) =
    and_query (if ltb current m.version then apply_migration s m else answered s)
      (λ s'. apply_migrations current s' ms)

abbrev pub apply_later : List Migration → Session → Option ℕ → Query
apply_later ms s none = query_failed s
apply_later ms s (some current) = apply_migrations current s ms

unfoldable pub apply_from : List Migration → Session → Query
unfolding query current_version
apply_from ms s = and_query (query s s.db) (λ s'. apply_later ms s' (current_version s'.db))

unfoldable pub migrate : List Migration → Session → Query
unfolding ensure_version_table apply_from
migrate ms s = and_query (ensure_version_table s) (apply_from ms)

unfoldable pub operation : List Migration → Session → Ran (Unit {0}) × Session
unfolding migrate
operation ms s = elim (migrate ms s) [ answered t ↦ (ran tt, t) | query_failed t ↦ (refused, t) ]

-- Whether `prepare` succeeds; a lock that is not given within 30 seconds is an error.
abbrev pub succeeds {ℓ} : {A : Type ℓ} → Outcome A → Bool
succeeds (done a) = true
succeeds _ = false

unfoldable pub prepare_owner : List Migration → Server → Session → Bool × Session
unfolding operation with_named_lock
prepare_owner ms server s =
    let (t, o, f) = with_named_lock server (operation ms) s in (succeeds o, t)

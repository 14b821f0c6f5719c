-- ===== src/Tests/Migrated.antt =====
-- src/schema.rs: an owner that is cut off, and starts again; an instance that waits for it.
use whaletracker.Prelude.{
  ℕ, ◌≡◌, refl, arith, [], true, false, Option, none, some, max, ltb, if◌then◌else◌,
}
use whaletracker.Database.{Server, row}
use whaletracker.Schema.Migrations.{migrations, cost-migrations}
use whaletracker.Schema.Owner.{Db, Session, prepare_owner, current_version, max_version}
use whaletracker.Schema.Sound.{Sound}
use whaletracker.Schema.Waiter.{
  wait_for_owner, rounds, ready, timed_out, schema_version, wait_for_owner-ready,
}
use whaletracker.Schema.Prepared.{prepare_owner-Sound, prepare_owner-completes, empty-Sound}

abbrev empty_db : Db
empty_db = record { has_table = false; versions = []; executed = [] }

abbrev willing : Server
willing = record { get_lock = row 1; got = true; release_lock = row 1; kept = false }

-- It fails in the upgrade, and the query that fails has its effect.
abbrev cut_off : Session
cut_off = record { db = empty_db; answers = 20; late = true }

prepare_owner-Sound_example : Sound migrations (prepare_owner migrations willing cut_off).1.db
prepare_owner-Sound_example = prepare_owner-Sound willing cut_off (empty-Sound empty_db refl)

abbrev patient : Session
patient = record { db = empty_db; answers = 400; late = false }

prepare_owner-completes_example :
    ((prepare_owner migrations willing patient).0 ≡ true)
    × (current_version (prepare_owner migrations willing patient).1.db
        ≡ some (max (max_version patient.db.versions) schema_version))
prepare_owner-completes_example =
    prepare_owner-completes willing patient (empty-Sound empty_db refl) refl refl
      (omega (arith, cost-migrations))

patient_succeeds : (prepare_owner migrations willing patient).0 ≡ true
patient_succeeds =
    (prepare_owner-completes willing patient (empty-Sound empty_db refl) refl refl
      (omega (arith, cost-migrations))).0

-- The schema is there after 2500, and a query takes 10.
abbrev found : ℕ → Option ℕ
found t = if ltb t 2500 then none else some 8

waited : wait_for_owner (rounds 5000 0) found (λ t. 10) 5000 0 ≡ ready
unfolding wait_for_owner
waited = refl

never_there : wait_for_owner (rounds 5000 0) (λ t. some 7) (λ t. 10) 5000 0 ≡ timed_out
unfolding wait_for_owner
never_there = refl

wait_for_owner-ready_example : wait_for_owner (rounds 5000 0) found (λ t. 10) 5000 0 ≡ ready
wait_for_owner-ready_example =
    wait_for_owner-ready found (λ t. 10) 5000 0 2500 10 (λ t h. ground arith) (λ t. omega arith)
      (omega arith)

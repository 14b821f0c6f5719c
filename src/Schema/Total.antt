-- ===== src/Schema/Total.antt =====
-- src/schema.rs: a session that answers enough queries applies all the migrations.
use whaletracker.Prelude.{
  ℕ, suc, zero, Text, ◌+◌, ◌≤◌, ◌≡◌, refl, arith, ap, subst, ◌∙◌, List, [], ◌∷◌, true, false, ltb,
  ltb→lt, max, length, Bool-cases, inl, inr,
}
use whaletracker.Schema.Migrations.{Migration, Numbered, cost}
use whaletracker.Schema.Owner.{
  Db, Session, answered, query_with, query, max_version, has, current_version, ensure_version_table,
  run_statements, record_version, apply_migration, apply_migrations, apply_from, migrate,
}
use whaletracker.Schema.Sound.{Sound, has_table-Sound}
use whaletracker.Schema.Applied.{
  Ends, HasRun, Reached, Reached-eq, Consistent, run_statements-Ends, apply_migration-Ends,
  current_version-some,
}

query_with_total :
    (s : Session) (n : ℕ) (db : Db)
    → 1 ≤ n
    → (t : Session) × (query_with s n db ≡ answered t) × (t.answers + 1 ≡ n) × (t.db ≡ db)
unfolding query_with
query_with_total s zero db h = absurd (omega arith)
query_with_total s (suc n) db h = (record s { db = db; answers = n }, refl, omega arith, refl)

query_total :
    (s : Session) (db : Db)
    → 1 ≤ s.answers
    → (t : Session) × (query s db ≡ answered t) × (t.answers + 1 ≡ s.answers) × (t.db ≡ db)
unfolding query
query_total s db h = query_with_total s s.answers db h

run_statements_total :
    (ss : List Text) (s : Session)
    → length ss ≤ s.answers
    → (t : Session) × (run_statements s ss ≡ answered t) × (t.answers + length ss ≡ s.answers)
unfolding run_statements
run_statements_total [] s h = (s, refl, omega arith)
run_statements_total (x ∷ ss) s h =
    let (t, e, left, d) =
      query_total s (record (s.db) { executed = x ∷ s.db.executed }) (omega arith) in
    let (u, e', left') = run_statements_total ss t (omega (arith, left)) in
    (u, rw e e', omega (arith, left, left'))

record_version_total :
    (s : Session) (version : ℕ)
    → 1 ≤ s.answers
    → has version s.db.versions ≡ false
    → (t : Session) × (record_version s version ≡ answered t) × (t.answers + 1 ≡ s.answers)
unfolding record_version
record_version_total s version h f =
    let (t, e, left, d) = query_total s (record (s.db) { versions = version ∷ s.db.versions }) h in
    (t, rw f e, left)

module _ (ms : List Migration) where
  -- A sound database does not have the next version yet.
  has-next :
      (db : Db) (n version : ℕ)
      → version ≡ suc n
      → max_version db.versions ≡ n
      → Sound ms db
      → has version db.versions ≡ false
  has-next db n version e l v = ground (arith, v.contiguous version)

  apply_migration_total :
      (s : Session) (m : Migration) (n : ℕ)
      → m.version ≡ suc n
      → Reached ms n s
      → length m.statements + 1 ≤ s.answers
      → (t : Session) × (apply_migration s m ≡ answered t)
        × (t.answers + (length m.statements + 1) ≡ s.answers)
  unfolding apply_migration
  apply_migration_total s m n e r h =
      let (t, e', left) = run_statements_total m.statements s (omega arith) in
      let run : HasRun ms m.statements s t =
        subst (Ends ms (HasRun ms m.statements s)) e'
          (run_statements-Ends ms m.statements s r.reached_sound) in
      let (u, e'', left') =
        record_version_total t m.version (omega (arith, left))
          (has-next t.db n m.version e (ap max_version run.versions ∙ r.latest) run.sound) in
      (u, rw e' e'', omega (arith, left, left'))

  apply_migrations_total :
      (rest : List Migration) (n current : ℕ) (s : Session)
      → Numbered n rest
      → Consistent ms rest
      → Reached ms (max current n) s
      → cost rest ≤ s.answers
      → (t : Session) × (apply_migrations current s rest ≡ answered t)
  unfolding apply_migrations
  apply_migrations_total [] n current s num c r h = (s, refl)
  apply_migrations_total (m ∷ rest) n current s num c r h =
      elim (Bool-cases (ltb current m.version)) [
        | inl l ↦
            let lt = ltb→lt current m.version l in
            let r' = Reached-eq ms s (omega (arith, num.0)) r in
            let (t, e, left) = apply_migration_total s m n num.0 r' (omega arith) in
            let reached : Reached ms m.version t =
              subst (Ends ms (Reached ms m.version)) e
                (apply_migration-Ends ms s m n num.0 c.0 r') in
            let (u, e') =
              apply_migrations_total rest (suc n) current t num.1 c.1
                (Reached-eq ms t (omega (arith, num.0)) reached) (omega (arith, left)) in
            (u, rw (l, e) e')
        | inr l ↦ rw l (
            apply_migrations_total rest (suc n) current s num.1 c.1
              (Reached-eq ms s (ground (arith, num.0)) r) (omega arith))
      ]

  apply_from_total :
      (s : Session)
      → Numbered 0 ms
      → Consistent ms ms
      → Sound ms s.db
      → s.db.has_table ≡ true
      → 1 + cost ms ≤ s.answers
      → (t : Session) × (apply_from ms s ≡ answered t)
  unfolding apply_from
  apply_from_total s num c v table h =
      let (t, e, left, d) = query_total s s.db (omega arith) in
      let (u, e') =
        apply_migrations_total ms 0 (max_version s.db.versions) t num c
          (record {
            reached_sound = rw d v;
            latest = ap (λ (db : Db). max_version db.versions) d ∙ omega arith;
            table = ap (λ (db : Db). db.has_table) d ∙ table;
          })
          (omega (arith, left)) in
      (u, rw e (rw (ap current_version d ∙ current_version-some s.db table) e'))

  pub migrate_total :
      (s : Session)
      → Numbered 0 ms
      → Consistent ms ms
      → Sound ms s.db
      → 2 + cost ms ≤ s.answers
      → (t : Session) × (migrate ms s ≡ answered t)
  unfolding migrate ensure_version_table
  migrate_total s num c v h =
      let (t, e, left, d) = query_total s (record (s.db) { has_table = true }) (omega arith) in
      let (u, e') =
        apply_from_total t num c (rw d (has_table-Sound ms s.db true v))
          (ap (λ (db : Db). db.has_table) d) (omega (arith, left)) in
      (u, rw e e')

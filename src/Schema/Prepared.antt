-- ===== src/Schema/Prepared.antt =====
-- src/schema.rs: `prepare` on the migrations of the repository, for the owner.
use whaletracker.Prelude.{
  ℕ, suc, ◌+◌, ◌≤◌, ◌≡◌, refl, arith, List, [], ◌∷◌, Bool, true, if◌then◌else◌, max, Option, some,
  length, ◌==◌, ap, ◌∙◌, inl, inr, ◌⊎◌,
}
use whaletracker.Config.{Config, Environment, bind_port}
use whaletracker.Database.{Server, ran, row, Outcome, done, with_named_lock}
use whaletracker.Database.Lock.{with_named_lock-keeps, with_named_lock-done, with_named_lock-gives}
use whaletracker.Schema.Migrations.{
  Migration, migrations, Numbered, migrations-Numbered, length-migrations, cost,
}
use whaletracker.Schema.Owner.{
  Db, Session, Query, answered, query_failed, max_version, has, current_version, migrate, operation,
  prepare_owner, succeeds,
}
use whaletracker.Schema.Sound.{statements_of, Sound}
use whaletracker.Schema.Total.{migrate_total}
use whaletracker.Schema.Waiter.{schema_version, wait_for_owner, wait_timeout, rounds, is_ready}
use whaletracker.Schema.Applied.{Consistent, Ends, Reached, migrate-Ends, current_version-some}

-- `prepare`, for the owner and for the instances that wait. The latter see the version that each
-- query finds.
unfoldable pub prepare :
    Config → Environment → Server → Session → (ℕ → Option ℕ) → (ℕ → ℕ) → ℕ → Bool × Session
unfolding prepare_owner wait_for_owner wait_timeout
prepare cfg env server s found takes now =
    if bind_port cfg == cfg.cache_owner_port then prepare_owner migrations server s else (
      is_ready (
          wait_for_owner (rounds (now + wait_timeout env) now) found takes (now + wait_timeout env)
            now),
      s,
    )

later-Consistent :
    (m : Migration) (all rest : List Migration) (n : ℕ)
    → m.version ≤ n
    → Numbered n rest
    → Consistent all rest
    → Consistent (m ∷ all) rest
unfolding statements_of
later-Consistent m all [] n le num c = tt
later-Consistent m all (x ∷ rest) n le num c =
    (ground (arith, num.0, c.0), later-Consistent m all rest (suc n) (omega arith) num.1 c.1)

Numbered-Consistent : (ms : List Migration) (n : ℕ) → Numbered n ms → Consistent ms ms
unfolding statements_of
Numbered-Consistent [] n num = tt
Numbered-Consistent (m ∷ ms) n num = (
  ground arith,
  later-Consistent m ms ms (suc n) (omega (arith, num.0)) num.1
      (Numbered-Consistent ms (suc n) num.1),
)

module _ (ms : List Migration) where
  Ends-Sound :
      (n : ℕ) (q : Query)
      → Ends ms (Reached ms n) q
      → ((t : Session) × (q ≡ answered t) × Reached ms n t)
        ⊎ ((t : Session) × (q ≡ query_failed t) × Sound ms t.db)
  Ends-Sound n (answered t) h = inl (t, refl, h)
  Ends-Sound n (query_failed t) h = inr (t, refl, h)

  operation-Sound : (s : Session) → Numbered 0 ms → Sound ms s.db → Sound ms (operation ms s).1.db
  unfolding operation
  operation-Sound s num v =
      elim (Ends-Sound _ (migrate ms s) (migrate-Ends ms s num (Numbered-Consistent ms 0 num) v)) [
        | inl (t, e, r) ↦ rw (e, operation) r.reached_sound
        | inr (t, e, r) ↦ rw (e, operation) r
      ]

  operation-ran :
      (s : Session)
      → Numbered 0 ms
      → Sound ms s.db
      → (operation ms s).0 ≡ ran tt
      → current_version (operation ms s).1.db ≡ some (max (max_version s.db.versions) (length ms))
  unfolding operation
  operation-ran s num v h =
      elim (Ends-Sound _ (migrate ms s) (migrate-Ends ms s num (Numbered-Consistent ms 0 num) v)) [
        | inl (t, e, r) ↦ rw (e, operation) (current_version-some t.db r.table ∙ ap some r.latest)
        | inr (t, e, r) ↦ let h' = rw (e, operation) at h in cc
      ]

-- From a database whose recorded versions are those from 1 on to the latest, each with all its
-- statements executed, whatever the server answers, wherever the run is cut off, and whether
-- or not the query that fails has its effect: the database is left like that.
pub prepare_owner-Sound :
    (server : Server) (s : Session)
    → Sound migrations s.db
    → Sound migrations (prepare_owner migrations server s).1.db
unfolding prepare_owner
prepare_owner-Sound server s v =
    with_named_lock-keeps (λ (t : Session). Sound migrations t.db) server (operation migrations) s v
      (operation-Sound migrations s migrations-Numbered v)

succeeds-done {ℓ} : {A : Type ℓ} (o : Outcome A) → succeeds o ≡ true → (a : A) × (o ≡ done a)
succeeds-done (done a) h = (a, refl)
succeeds-done _ h = cc

-- From a database whose recorded versions are those from 1 on to the latest, each with all its
-- statements executed, where `prepare` succeeds the current version is the one that the instances
-- wait for, or a later one that was there before.
pub prepare_owner-latest :
    (server : Server) (s : Session)
    → Sound migrations s.db
    → (prepare_owner migrations server s).0 ≡ true
    → current_version (prepare_owner migrations server s).1.db
      ≡ some (max (max_version s.db.versions) schema_version)
unfolding prepare_owner
prepare_owner-latest server s v h =
    let (a, e) = succeeds-done (with_named_lock server (operation migrations) s).1 h in
    let (r, same) = with_named_lock-done server (operation migrations) s a e in
    ap (λ (t : Session). current_version t.db) same
    ∙ operation-ran migrations s migrations-Numbered v r
    ∙ ap (λ (n : ℕ). some (max (max_version s.db.versions) n)) length-migrations

prepare_owner-succeeds :
    (server : Server) (s : Session)
    → Sound migrations s.db
    → server.get_lock ≡ row 1
    → server.release_lock ≡ row 1
    → 2 + cost migrations ≤ s.answers
    → (prepare_owner migrations server s).0 ≡ true
unfolding prepare_owner operation
prepare_owner-succeeds server s v got ended h =
    let (t, e) =
      migrate_total migrations s migrations-Numbered
        (Numbered-Consistent migrations 0 migrations-Numbered) v h in
    ap succeeds
      (with_named_lock-gives server (operation migrations) s tt got ended (rw (e, operation) refl))

-- From a database whose recorded versions are those from 1 on to the latest, each with all its
-- statements executed, with a server that gives the lock and ends it and a session that answers
-- enough queries, the `prepare` of the owner succeeds, and the current version is then the one that the instances
-- wait for, or the later one that was there before.
pub prepare_owner-completes :
    (server : Server) (s : Session)
    → Sound migrations s.db
    → server.get_lock ≡ row 1
    → server.release_lock ≡ row 1
    → 2 + cost migrations ≤ s.answers
    → ((prepare_owner migrations server s).0 ≡ true)
      × (current_version (prepare_owner migrations server s).1.db
          ≡ some (max (max_version s.db.versions) schema_version))
prepare_owner-completes server s v got ended h =
    let success = prepare_owner-succeeds server s v got ended h in
    (success, prepare_owner-latest server s v success)

statements_of-zero : (ms : List Migration) (n : ℕ) → Numbered n ms → statements_of 0 ms ≡ []
unfolding statements_of
statements_of-zero [] n num = refl
statements_of-zero (m ∷ ms) n num = ground (arith, num.0, statements_of-zero ms (suc n) num.1)

-- A database with no version is one of these.
pub empty-Sound : (db : Db) → db.versions ≡ [] → Sound migrations db
unfolding max_version has
empty-Sound db e = record {
  contiguous = λ v. rw e (ground arith);
  complete = λ v le.
      let z : v ≡ 0 = omega (arith, rw e at le) in
      rw z (rw (statements_of-zero migrations 0 migrations-Numbered) tt);
}

-- ===== src/Schema/Applied.antt =====
-- src/schema.rs: a version is recorded only after all its statements, wherever a run is cut off.
use whaletracker.Prelude.{
  ℕ, suc, ◌+◌, ◌≡◌, inl, inr, refl, arith, ap, ◌∙◌, List, [], ◌∷◌, true, ltb, subst, ltb→lt,
  if◌then◌else◌, max, some, Text, contains, contains-cons, text_eq_iff, length, Bool-cases,
}
use whaletracker.Schema.Migrations.{Migration, Numbered}
use whaletracker.Schema.Owner.{
  Db, Session, Query, answered, query_failed, query, and_query, max_version, has, current_version,
  ensure_version_table, run_statements, record_version, apply_migration, apply_migrations,
  apply_from, migrate,
}
use whaletracker.Schema.Sound.{
  statements_of, AllIn, Sound, grows, executed-Sound, has_table-Sound, recorded-Sound, late-Sound,
  query-cases,
}

pub current_version-some :
    (db : Db) → db.has_table ≡ true → current_version db ≡ some (max_version db.versions)
unfolding current_version
current_version-some db h = rw h

max_zero : (n : ℕ) → n ≡ max n 0
max_zero n = omega arith

-- A run that is answered to its end leaves a state that P says; one that is cut off, a sound one.
abbrev pub Ends : List Migration → (Session → Type 0) → Query → Type 0
Ends ms P (answered t) = P t
Ends ms P (query_failed t) = Sound ms t.db

module _ (ms : List Migration) where
  and_query-Ends :
      (P Q : Session → Type 0) (q : Query) (f : Session → Query)
      → Ends ms P q
      → ((t : Session) → P t → Ends ms Q (f t))
      → Ends ms Q (and_query q f)
  and_query-Ends P Q (answered t) f h k = k t h
  and_query-Ends P Q (query_failed t) f h k = h

  Ends-map :
      (P Q : Session → Type 0) (q : Query) → Ends ms P q → ((t : Session) → P t → Q t) → Ends ms Q q
  Ends-map P Q (answered t) h f = f t h
  Ends-map P Q (query_failed t) h f = h

  query-Ends :
      (s : Session) (db : Db) → Sound ms s.db → Sound ms db → Ends ms (λ t. t.db ≡ db) (query s db)
  query-Ends s db v v' = elim (query-cases s db) [
    | inl (n, e) ↦ rw e refl
    | inr e ↦ rw e (late-Sound ms s.db db s.late v v')
  ]

  pub record HasRun (ss : List Text) (s t : Session) : Type 0 where
    pub sound : Sound ms t.db
    pub versions : t.db.versions ≡ s.db.versions
    pub has_table : t.db.has_table ≡ s.db.has_table
    pub grown : (x : Text) → contains x s.db.executed ≡ true → contains x t.db.executed ≡ true
    pub all_in : AllIn ss t.db.executed

  HasRun-cons :
      (x : Text) (ss : List Text) (s t u : Session)
      → t.db ≡ record (s.db) { executed = x ∷ s.db.executed }
      → HasRun ss t u
      → HasRun (x ∷ ss) s u
  HasRun-cons x ss s t u e r = record {
    sound = r.sound;
    versions = r.versions ∙ ap (λ (db : Db). db.versions) e;
    has_table = r.has_table ∙ ap (λ (db : Db). db.has_table) e;
    grown = λ y h. r.grown y (rw e (grows x s.db.executed y h));
    all_in = (
      r.grown x (rw e (ground (arith, contains-cons x x s.db.executed, text_eq_iff x x))),
      r.all_in,
    );
  }

  pub run_statements-Ends :
      (ss : List Text) (s : Session) → Sound ms s.db → Ends ms (HasRun ss s) (run_statements s ss)
  unfolding run_statements
  run_statements-Ends [] s v = record {
    sound = v;
    versions = refl;
    has_table = refl;
    grown = λ x h. h;
    all_in = tt;
  }
  run_statements-Ends (x ∷ ss) s v =
      let v' = executed-Sound ms s.db x v in
      and_query-Ends _ _ (query s (record (s.db) { executed = x ∷ s.db.executed })) _
        (query-Ends s _ v v')
        (λ t e.
          Ends-map (HasRun ss t) (HasRun (x ∷ ss) s) (run_statements t ss)
            (run_statements-Ends ss t (rw e v')) (λ u r. HasRun-cons x ss s t u e r))

  -- The versions recorded so far end at n.
  pub record Reached (n : ℕ) (t : Session) : Type 0 where
    pub reached_sound : Sound ms t.db
    pub latest : max_version t.db.versions ≡ n
    pub table : t.db.has_table ≡ true

  recorded-Reached :
      (s t : Session) (n version : ℕ)
      → version ≡ suc n
      → Reached n s
      → t.db ≡ record (s.db) { versions = version ∷ s.db.versions }
      → AllIn (statements_of version ms) s.db.executed
      → Reached version t
  unfolding max_version
  recorded-Reached s t n version e r d all = record {
    reached_sound =
        rw d (recorded-Sound ms s.db version (omega (arith, r.latest)) all r.reached_sound);
    latest = rw d (omega (arith, r.latest));
    table = rw d r.table;
  }

  record_version-Ends :
      (s : Session) (n version : ℕ)
      → version ≡ suc n
      → Reached n s
      → AllIn (statements_of version ms) s.db.executed
      → Ends ms (Reached version) (record_version s version)
  unfolding record_version
  record_version-Ends s n version e r all = elim (Bool-cases (has version s.db.versions)) [
    | inl h ↦ rw h r.reached_sound
    | inr h ↦ rw h (
        Ends-map _ _ (query s (record (s.db) { versions = version ∷ s.db.versions }))
          (query-Ends s _ r.reached_sound
            (recorded-Sound ms s.db version (omega (arith, r.latest)) all r.reached_sound))
          (λ t d. recorded-Reached s t n version e r d all))
  ]

  pub Reached-eq : {a b : ℕ} (t : Session) → a ≡ b → Reached a t → Reached b t
  Reached-eq t e r = subst (λ (n : ℕ). Reached n t) e r

  pub apply_migration-Ends :
      (s : Session) (m : Migration) (n : ℕ)
      → m.version ≡ suc n
      → statements_of m.version ms ≡ m.statements
      → Reached n s
      → Ends ms (Reached m.version) (apply_migration s m)
  unfolding apply_migration
  apply_migration-Ends s m n e c r =
      and_query-Ends (HasRun m.statements s) (Reached m.version) (run_statements s m.statements)
        (λ t. record_version t m.version) (run_statements-Ends m.statements s r.reached_sound)
        (λ t h.
          record_version-Ends t n m.version e
            (record {
              reached_sound = h.sound;
              latest = ap max_version h.versions ∙ r.latest;
              table = h.has_table ∙ r.table;
            })
            (rw c h.all_in))

  abbrev pub Consistent : List Migration → Type 0
  Consistent [] = Unit {0}
  Consistent (m ∷ rest) = (statements_of m.version ms ≡ m.statements) × Consistent rest

  apply_migrations-Ends :
      (rest : List Migration) (n current : ℕ) (s : Session)
      → Numbered n rest
      → Consistent rest
      → Reached (max current n) s
      → Ends ms (Reached (max current (n + length rest))) (apply_migrations current s rest)
  unfolding apply_migrations
  apply_migrations-Ends [] n current s num c r = Reached-eq s (omega arith) r
  apply_migrations-Ends (m ∷ rest) n current s num c r =
      and_query-Ends (Reached (max current (suc n))) _
        (if ltb current m.version then apply_migration s m else answered s) _
        (elim (Bool-cases (ltb current m.version)) [
          | inl h ↦
              let lt = ltb→lt current m.version h in
              rw h (
                Ends-map (Reached m.version) _ (apply_migration s m)
                  (apply_migration-Ends s m n num.0 c.0 (Reached-eq s (omega (arith, num.0)) r))
                  (λ t q. Reached-eq t (omega (arith, num.0)) q))
          | inr h ↦ rw h (Reached-eq s (ground (arith, num.0)) r)
        ])
        (λ t q.
          Ends-map _ _ (apply_migrations current t rest)
            (apply_migrations-Ends rest (suc n) current t num.1 c.1 q)
            (λ u p. Reached-eq u (omega arith) p))

  apply_from-Ends :
      (s : Session)
      → Numbered 0 ms
      → Consistent ms
      → Sound ms s.db
      → s.db.has_table ≡ true
      → Ends ms (Reached (max (max_version s.db.versions) (length ms))) (apply_from ms s)
  unfolding apply_from
  apply_from-Ends s num c v h =
      and_query-Ends (λ t. t.db ≡ s.db) _ (query s s.db) _ (query-Ends s s.db v v)
        (λ t e. rw (ap current_version e ∙ current_version-some s.db h) (
          Ends-map _ _ (apply_migrations (max_version s.db.versions) t ms)
            (apply_migrations-Ends ms 0 (max_version s.db.versions) t num c (record {
              reached_sound = rw e v;
              latest = ap (λ (db : Db). max_version db.versions) e ∙ max_zero _;
              table = ap (λ (db : Db). db.has_table) e ∙ h;
            }))
            (λ u p. Reached-eq u (omega arith) p)))

  pub migrate-Ends :
      (s : Session)
      → Numbered 0 ms
      → Consistent ms
      → Sound ms s.db
      → Ends ms (Reached (max (max_version s.db.versions) (length ms))) (migrate ms s)
  unfolding migrate ensure_version_table
  migrate-Ends s num c v =
      let v' = has_table-Sound ms s.db true v in
      and_query-Ends (λ t. t.db ≡ record (s.db) { has_table = true }) _
        (query s (record (s.db) { has_table = true })) _
        (query-Ends s (record (s.db) { has_table = true }) v v')
        (λ t e.
          Ends-map _ _ (apply_from ms t)
            (apply_from-Ends t num c (rw e v') (ap (λ (db : Db). db.has_table) e))
            (λ u p. Reached-eq u (ap (λ (db : Db). max (max_version db.versions) (length ms)) e) p))

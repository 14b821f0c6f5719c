-- ===== src/Schema/Sound.antt =====
-- src/schema.rs: what a database that the owner migrates is like, and what keeps it so.
use whaletracker.Prelude.{
  ℕ, suc, zero, ◌≤◌, ◌≡◌, ◌⊎◌, inl, inr, refl, arith, List, [], ◌∷◌, Bool, true, false, ◌&&◌, ◌==◌,
  ==_iff, ltb, leb, if◌then◌else◌, Text, contains, contains-cons, Bool-cases,
}
use whaletracker.Schema.Migrations.{Migration}
use whaletracker.Schema.Owner.{
  Db, Session, answered, query_failed, query_with, query, max_version, has,
}

-- The statements of a version, or none.
unfoldable pub statements_of : ℕ → List Migration → List Text
statements_of version [] = []
statements_of version (m ∷ ms) =
    if m.version == version then m.statements else statements_of version ms

abbrev pub AllIn : List Text → List Text → Type 0
AllIn [] executed = Unit {0}
AllIn (s ∷ ss) executed = (contains s executed ≡ true) × AllIn ss executed

-- The recorded versions are those from 1 to the latest, and all their statements were executed.
pub record Sound (ms : List Migration) (db : Db) : Type 0 where
  pub contiguous : (v : ℕ) → has v db.versions ≡ (ltb 0 v && leb v (max_version db.versions))
  pub complete : (v : ℕ) → v ≤ max_version db.versions → AllIn (statements_of v ms) db.executed

pub AllIn-mono :
    (ss xs ys : List Text)
    → ((t : Text) → contains t xs ≡ true → contains t ys ≡ true)
    → AllIn ss xs
    → AllIn ss ys
AllIn-mono [] xs ys f h = tt
AllIn-mono (s ∷ ss) xs ys f h = (f s h.0, AllIn-mono ss xs ys f h.1)

pub grows :
    (x : Text) (xs : List Text) (t : Text) → contains t xs ≡ true → contains t (x ∷ xs) ≡ true
grows x xs t h = ground (arith, contains-cons t x xs)

module _ (ms : List Migration) where
  pub executed-Sound :
      (db : Db) (x : Text) → Sound ms db → Sound ms (record db { executed = x ∷ db.executed })
  executed-Sound db x v = record {
    contiguous = v.contiguous;
    complete = λ n le. AllIn-mono (statements_of n ms) _ _ (grows x db.executed) (v.complete n le);
  }

  pub has_table-Sound : (db : Db) (b : Bool) → Sound ms db → Sound ms (record db { has_table = b })
  has_table-Sound db b v = record { contiguous = v.contiguous; complete = v.complete }

  pub recorded-Sound :
      (db : Db) (version : ℕ)
      → version ≡ suc (max_version db.versions)
      → AllIn (statements_of version ms) db.executed
      → Sound ms db
      → Sound ms (record db { versions = version ∷ db.versions })
  unfolding has max_version
  recorded-Sound db version e all v = record {
    contiguous = λ n. ground (arith, v.contiguous n);
    complete = λ n le. elim (Bool-cases (n == version)) [
      | inl same ↦ rw ((==_iff n version).0 same) all
      | inr other ↦ v.complete n (ground arith)
    ];
  }

  pub late-Sound :
      (db db' : Db) (b : Bool) → Sound ms db → Sound ms db' → Sound ms (if b then db' else db)
  late-Sound db db' true v v' = v'
  late-Sound db db' false v v' = v

query_with-cases :
    (s : Session) (n : ℕ) (db : Db)
    → ((k : ℕ) × (query_with s n db ≡ answered (record s { db = db; answers = k })))
      ⊎ (query_with s n db ≡ query_failed (record s { db = if s.late then db else s.db }))
unfolding query_with
query_with-cases s zero db = inr refl
query_with-cases s (suc k) db = inl (k, refl)

pub query-cases :
    (s : Session) (db : Db)
    → ((n : ℕ) × (query s db ≡ answered (record s { db = db; answers = n })))
      ⊎ (query s db ≡ query_failed (record s { db = if s.late then db else s.db }))
unfolding query
query-cases s db = query_with-cases s s.answers db

-- ===== src/PointsCache/Good.antt =====
-- src/points_cache.rs: what holds of the tables between the statements of a rebuild, and what a
-- write and an invalidation do to it.
use whaletracker.Prelude.{
  ℕ, ◌+◌, ◌≤◌, ◌<◌, ◌≡◌, ◌≢◌, ◌⊎◌, inl, inr, arith, Option, none, some, Option-cases,
}
use whaletracker.PointsCache.{StateRow, persist_invalidation, Tables}
use whaletracker.PointsCache.Steps.{
  Builder, unlocked, locked, chosen, emptied, filled, swapped, with_row,
}

abbrev pub IsDirty : Option StateRow → Type 0
IsDirty none = ⊥
IsDirty (some r) = r.dirty ≢ 0

-- The row is dirty, at the generation or a later one.
abbrev pub DirtySince : ℕ → Option StateRow → Type 0
DirtySince g none = ⊥
DirtySince g (some r) = (r.dirty ≢ 0) × (g ≤ r.dirty_generation)

abbrev pub Later : ℕ → Option StateRow → Type 0
Later g none = ⊥
Later g (some r) = g < r.dirty_generation

-- A version is that of the source tables, or an invalidation will say otherwise: one that is on
-- its way, or one that the row has got since the generation.
abbrev pub Covered : Type 0 → Tables → ℕ → ℕ → Type 0
Covered O t g version = (version ≡ t.source) ⊎ (O ⊎ Later g t.row)

abbrev pub BuilderOk : Type 0 → Tables → Builder → Type 0
BuilderOk O t unlocked = Unit {0}
BuilderOk O t locked = Unit {0}
BuilderOk O t (chosen g) = DirtySince g t.row
BuilderOk O t (emptied g) = DirtySince g t.row
BuilderOk O t (filled g) =
    DirtySince g t.row × ((version : ℕ) × (t.build ≡ some version) × Covered O t g version)
BuilderOk O t (swapped g) = DirtySince g t.row × Covered O t g t.cache

-- The cache is up to date, or an invalidation is on its way or in the row.
abbrev pub IsFresh : Type 0 → Tables → Type 0
IsFresh O t = (t.cache ≡ t.source) ⊎ (O ⊎ IsDirty t.row)

abbrev pub Good : Type 0 → Tables → Builder → Type 0
Good O t b = IsFresh O t × BuilderOk O t b

module _ {O O' : Type 0} (f : O → O') (t : Tables) where
  IsFresh-mono : IsFresh O t → IsFresh O' t
  IsFresh-mono (inl e) = inl e
  IsFresh-mono (inr (inl o)) = inr (inl (f o))
  IsFresh-mono (inr (inr d)) = inr (inr d)

  Covered-mono : (g version : ℕ) → Covered O t g version → Covered O' t g version
  Covered-mono g version (inl e) = inl e
  Covered-mono g version (inr (inl o)) = inr (inl (f o))
  Covered-mono g version (inr (inr l)) = inr (inr l)

  pub Good-mono : (b : Builder) → Good O t b → Good O' t b
  Good-mono unlocked h = (IsFresh-mono h.0, tt)
  Good-mono locked h = (IsFresh-mono h.0, tt)
  Good-mono (chosen g) h = (IsFresh-mono h.0, h.1)
  Good-mono (emptied g) h = (IsFresh-mono h.0, h.1)
  Good-mono (filled g) (fresh, (d, (version, e, c))) =
      (IsFresh-mono fresh, (d, (version, e, Covered-mono g version c)))
  Good-mono (swapped g) (fresh, (d, c)) = (IsFresh-mono fresh, (d, Covered-mono g t.cache c))

module _ {O O' : Type 0} (o : O') (t : Tables) where
  -- A write to the source tables, with an invalidation to come.
  pub Good-commit : (b : Builder) → Good O t b → Good O' (record t { source = t.source + 1 }) b
  Good-commit unlocked h = (inr (inl o), tt)
  Good-commit locked h = (inr (inl o), tt)
  Good-commit (chosen g) h = (inr (inl o), h.1)
  Good-commit (emptied g) h = (inr (inl o), h.1)
  Good-commit (filled g) (fresh, (d, (version, e, c))) =
      (inr (inl o), (d, (version, e, inr (inl o))))
  Good-commit (swapped g) (fresh, (d, c)) = (inr (inl o), (d, inr (inl o)))

module _ (O O' : Type 0) (t : Tables) (now : ℕ) where
  abbrev pub invalidated : Tables
  invalidated = with_row t (some (persist_invalidation t.row now))

  persist-IsDirty : IsDirty invalidated.row
  unfolding persist_invalidation
  persist-IsDirty = elim (Option-cases t.row) [
    | inl e ↦ rw e (omega arith)
    | inr (r, e) ↦ rw e (omega arith)
  ]

  persist-DirtySince : (g : ℕ) → DirtySince g t.row → DirtySince g invalidated.row
  unfolding persist_invalidation
  persist-DirtySince g d = elim (Option-cases t.row) [
    | inl e ↦ absurd (rw e at d)
    | inr (r, e) ↦ let d' = rw e at d in rw e (omega arith)
  ]

  persist-Later : (g : ℕ) → DirtySince g t.row → Later g invalidated.row
  unfolding persist_invalidation
  persist-Later g d = elim (Option-cases t.row) [
    | inl e ↦ absurd (rw e at d)
    | inr (r, e) ↦ let d' = rw e at d in rw e (omega arith)
  ]

  -- An invalidation of the row is a new generation.
  pub Good-persist : (b : Builder) → Good O t b → Good O' invalidated b
  Good-persist unlocked h = (inr (inr persist-IsDirty), tt)
  Good-persist locked h = (inr (inr persist-IsDirty), tt)
  Good-persist (chosen g) h = (inr (inr persist-IsDirty), persist-DirtySince g h.1)
  Good-persist (emptied g) h = (inr (inr persist-IsDirty), persist-DirtySince g h.1)
  Good-persist (filled g) (fresh, (d, (version, e, c))) = (
    inr (inr persist-IsDirty),
    (persist-DirtySince g d, (version, e, inr (inr (persist-Later g d)))),
  )
  Good-persist (swapped g) (fresh, (d, c)) =
      (inr (inr persist-IsDirty), (persist-DirtySince g d, inr (inr (persist-Later g d))))

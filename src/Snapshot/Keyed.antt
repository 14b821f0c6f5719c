-- ===== src/Snapshot/Keyed.antt =====
-- src/bin/frontend_metric_snapshot.rs: the unique key of the table, under a collation.
use whaletracker.Prelude.{
  ◌≡◌, inl, inr, refl, arith, [], ◌∷◌, true, false, Option, none, some, if◌then◌else◌, Text,
  Bool-cases, all, text_eq, ◌∙◌,
}
use whaletracker.Ascii.{lowercase}
use whaletracker.Sql.Tokens.{is_word}
use whaletracker.Snapshot.Program.{MetricSnapshot, Table, Collation, same_key, updated, upsert}

abbrev pub Row : Type 0
Row = MetricSnapshot × Text

-- What is documented of utf8mb4_unicode_ci: it is an equivalence, and texts of ASCII letters, digits
-- and underscores are compared without their case.
pub record IsCollation (c : Collation) : Type 0 where
  pub refl_law : (s : Text) → c s s ≡ true
  pub sym_law : (s t : Text) → c s t ≡ c t s
  pub trans_law : (s t u : Text) → c s t ≡ true → c s u ≡ c t u
  pub on_words :
      (s t : Text)
      → all is_word s ≡ true
      → all is_word t ≡ true
      → c s t ≡ text_eq (lowercase s) (lowercase t)

-- The row with a key: there is one at most.
unfoldable pub row_with : Collation → Row → Table → Option Row
row_with c k [] = none
row_with c k (x ∷ xs) = if same_key c x k then some x else row_with c k xs

-- The columns that are not of the key.
pub record SameValues (a b : MetricSnapshot) : Type 0 where
  pub sampled_same : a.sampled_at ≡ b.sampled_at
  pub start_same : a.window_start ≡ b.window_start
  pub end_same : a.window_end ≡ b.window_end
  pub value_same : a.value ≡ b.value

-- A row has the key of `k` and its values.
pub record Holds (c : Collation) (k x : Row) : Type 0 where
  pub key_same : same_key c x k ≡ true
  pub values_same : SameValues (x.0) (k.0)

module _ (c : Collation) (l : IsCollation c) where
  same_key_trans : (x y z : Row) → same_key c x y ≡ true → same_key c x z ≡ same_key c y z
  unfolding same_key
  same_key_trans (a, s) (b, t) (d, u) h = ground (
    arith,
    l.trans_law a.snapshot_key b.snapshot_key d.snapshot_key,
    l.trans_law a.metric_group b.metric_group d.metric_group,
    l.trans_law a.metric_name b.metric_name d.metric_name,
    l.trans_law a.window_kind b.window_kind d.window_kind,
    l.trans_law s t u,
  )

  same_key_refl : (k : Row) → same_key c k k ≡ true
  unfolding same_key
  same_key_refl (k, source) = ground (
    arith,
    l.refl_law k.snapshot_key,
    l.refl_law k.metric_group,
    l.refl_law k.metric_name,
    l.refl_law k.window_kind,
    l.refl_law source,
  )

  updated-key : (x r k : Row) → same_key c (updated x r) k ≡ same_key c x k
  unfolding same_key
  updated-key x r k = refl

  -- The rows with other keys stay.
  pub row_with-upsert_other :
      (k r : Row) (table : Table)
      → same_key c r k ≡ false
      → row_with c k (upsert c table r) ≡ row_with c k table
  unfolding row_with upsert
  row_with-upsert_other k r [] h = ground (arith, h)
  row_with-upsert_other k r (x ∷ xs) h = elim (Bool-cases (same_key c x r)) [
    | inl e ↦ rw e (ground (arith, updated-key x r k, same_key_trans x r k e, h))
    | inr e ↦ rw e (ground (arith, row_with-upsert_other k r xs h))
  ]

  pub row_with-upsert :
      (r : Row) (table : Table)
      → (x : Row) × (row_with c r (upsert c table r) ≡ some x) × Holds c r x
  unfolding row_with upsert
  row_with-upsert r [] = (
    r,
    ground (arith, same_key_refl r),
    record {
      key_same = same_key_refl r;
      values_same = record {
        sampled_same = refl;
        start_same = refl;
        end_same = refl;
        value_same = refl;
      };
    },
  )
  row_with-upsert r (x ∷ xs) = elim (Bool-cases (same_key c x r)) [
    | inl e ↦
        let here : same_key c (updated x r) r ≡ true = updated-key x r r ∙ e in
        rw e (
          updated x r,
          ground (arith, here),
          record {
            key_same = here;
            values_same = record {
              sampled_same = refl;
              start_same = refl;
              end_same = refl;
              value_same = refl;
            };
          },
        )
    | inr e ↦
        let (y, found, holds) = row_with-upsert r xs in rw e (y, ground (arith, e, found), holds)
  ]

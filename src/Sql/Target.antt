-- ===== src/Sql/Target.antt =====
-- src/sql.rs, `target_table_from_tokens` and the routing by table.
use whaletracker.Prelude.{
  ℕ, ◌+◌, List, [], ◌∷◌, Bool, false, ◌&&◌, ◌||◌, Option, none, some, if◌then◌else◌, drop,
  get_elem?, position, Text, codes, text_eq,
}
use whaletracker.Ascii.{trim_start, starts_with}
use whaletracker.Sql.Lane.{Lane, online, stats, logs}

abbrev is_text : Text → Text → Bool
is_text t w = text_eq w t

-- `words.get(i).is_some_and(|word| word == t)`.
unfoldable pub word_at_is : List Text → ℕ → Text → Bool
unfolding text_eq
word_at_is words i t = elim (get_elem? words i) [ none ↦ false | some w ↦ text_eq w t ]

abbrev succ? : Option ℕ → Option ℕ
succ? none = none
succ? (some i) = some (i + 1)

abbrev or_else : Option ℕ → ℕ → ℕ
or_else none d = d
or_else (some i) d = i

-- Where the table name is looked for, by the first word.
unfoldable pub table_index : Text → List Text → Option ℕ
unfolding text_eq word_at_is
table_index first words =
    if text_eq first (codes "insert") || text_eq first (codes "replace")
    then some (or_else (succ? (position (is_text (codes "into")) words)) 1)
    else if text_eq first (codes "update")
    then some 1
    else if text_eq first (codes "delete")
    then succ? (position (is_text (codes "from")) words)
    else if text_eq first (codes "alter") || text_eq first (codes "truncate")
    then some (if word_at_is words 1 (codes "table") then 2 else 1)
    else if text_eq first (codes "create") || text_eq first (codes "drop")
    then elim (position (is_text (codes "table")) words) [
      | some at ↦ some (at + 1)
      | none ↦ succ? (position (is_text (codes "on")) words)
    ]
    else none

unfoldable pub is_modifier : Text → Bool
unfolding text_eq
is_modifier w =
    text_eq w (codes "if")
    || text_eq w (codes "not")
    || text_eq w (codes "exists")
    || text_eq w (codes "low_priority")
    || text_eq w (codes "ignore")

-- The `while` loop, on the words from the index on.
unfoldable pub skip_modifiers : List Text → List Text
unfolding is_modifier
skip_modifiers [] = []
skip_modifiers (w ∷ ws) = let rest = skip_modifiers ws in if is_modifier w then rest else w ∷ ws

-- A database name and a dot are passed over.
unfoldable pub table_name : List Text → Option Text
unfolding word_at_is
table_name words = get_elem? words (if word_at_is words 1 (codes ".") then 2 else 0)

unfoldable pub target_table : List Text → Option Text
unfolding table_index skip_modifiers table_name
target_table [] = none
target_table (first ∷ ws) = elim (table_index first (first ∷ ws)) [
  | none ↦ none
  | some index ↦ table_name (skip_modifiers (drop index (first ∷ ws)))
]

unfoldable pub lane_for_table : Option Text → Lane
unfolding text_eq
lane_for_table none = logs
lane_for_table (some t) =
    if text_eq t (codes "whaletracker_online")
      || text_eq t (codes "whaletracker_online_meta")
      || text_eq t (codes "whaletracker_servers")
    then online
    else if text_eq t (codes "whaletracker")
        || text_eq t (codes "whaletracker_points_cache")
        || text_eq t (codes "whaletracker_points_cache_state")
        || text_eq t (codes "whaletracker_points_cache_build")
    then stats
    else logs

unfoldable pub is_table : Option Text → Text → Bool
unfolding text_eq
is_table none t = false
is_table (some s) t = text_eq s t

unfoldable pub invalidates_table : Text → Option Text → Bool
unfolding trim_start starts_with is_table
invalidates_table sql table =
    let text = trim_start sql in
    (starts_with (codes "/* wt_points_cache_finalize */") text
      || starts_with (codes "/* wt_points_cache_round_end */") text)
    && is_table table (codes "whaletracker_logs")

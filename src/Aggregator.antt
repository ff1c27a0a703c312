-- ===== src/Aggregator.antt =====
-- execution/aggregator.rs: the partial results of a query are merged one after another.
pub mod Complete
pub mod Numeric
use stats_cruncher.Base.{
  ℕ, ◌+◌, Bool, true, false, Option, none, some, List, [], ◌∷◌, leb, if◌then◌else◌,
}
use stats_cruncher.Text.{Text}
use stats_cruncher.Map.{Map, get, insert, text_key}
use stats_cruncher.Float.{Float}
use stats_cruncher.Query.{Response, NumericStats, merge_stats, add_u64, default_response}

pub record Aggregator (W : Type 0) : Type 0 where
  pub expected_chunks : ℕ
  pub received_chunks : ℕ
  pub acc : Response W

module _ {W : Type 0} where
  unfoldable pub new : ℕ → Aggregator W
  new expected_chunks = record {
    expected_chunks = expected_chunks;
    received_chunks = 0;
    acc = default_response;
  }

-- `*col_entry.entry(value).or_insert(0) += count`, for every value.
unfoldable pub add_values : Map Text ℕ → Map Text ℕ → Map Text ℕ
add_values [] entry = entry
add_values ((value, count) ∷ counts) entry =
    add_values counts
      (insert value (add_u64 (elim (get value entry) [ none ↦ 0 | some n ↦ n ]) count) entry)

unfoldable pub add_string_counts :
    Map Text (Map Text ℕ) → Map Text (Map Text ℕ) → Map Text (Map Text ℕ)
unfolding add_values
add_string_counts [] acc = acc
add_string_counts ((name, counts) ∷ rest) acc =
    add_string_counts rest
      (insert name (add_values counts (elim (get name acc) [ none ↦ [] | some entry ↦ entry ])) acc)

module _ {W : Type 0} ⦃f : Float W⦄ where
  -- `entry(name).and_modify(|existing| existing.merge(&stats)).or_insert(stats)`
  unfoldable pub add_numeric :
      Map Text (NumericStats W) → Map Text (NumericStats W) → Map Text (NumericStats W)
  unfolding merge_stats
  add_numeric [] acc = acc
  add_numeric ((name, stats) ∷ rest) acc = add_numeric rest (
      insert name
        (elim (get name acc) [ none ↦ stats | some existing ↦ merge_stats existing stats ]) acc)

  unfoldable pub add_partial : Response W → Response W → Response W
  unfolding add_numeric add_string_counts
  add_partial acc partial = record acc {
    matched_rows = add_u64 acc.matched_rows partial.matched_rows;
    numeric = add_numeric partial.numeric acc.numeric;
    string_counts = add_string_counts partial.string_counts acc.string_counts;
  }

  -- The response, once every chunk has been merged, and the aggregator; `take` leaves the default.
  unfoldable pub merge : Aggregator W → Response W → Option (Response W) × Aggregator W
  unfolding add_partial
  merge a partial =
      let acc = add_partial a.acc partial in
      let received = a.received_chunks + 1 in
      if leb a.expected_chunks received
      then (some acc, record a { received_chunks = received; acc = default_response })
      else (none, record a { received_chunks = received; acc = acc })

-- ===== src/Worker.antt =====
-- execution/worker.rs and execution/chunk.rs: a task, and what a worker does with it.
pub mod Evaluate
pub mod Aggregate
pub mod Meaning
pub mod Flow
pub mod Strings
pub mod Ranges
pub mod Filter
pub mod Folds
pub mod Columns
pub mod Totals
pub mod Entries
use stats_cruncher.Base.{
  ℕ, zero, suc, ◌+◌, ◌%◌, ◌^◌, Bool, true, false, not, ◌&&◌, ◌||◌, Option, none, some, List, [],
  ◌∷◌, ltb, if◌then◌else◌, range, AppResult, ok, panic, ◌>>=◌,
}
use stats_cruncher.Base.Int.{ℤ}
use stats_cruncher.Text.{Text}
use stats_cruncher.Map.{Map, insert, text_key}
use stats_cruncher.Float.{Float}
use stats_cruncher.Bitmap.{Bitmap}
use stats_cruncher.Query.{
  Query, StringMatch, RangeFilter, NumericBound, Comparison, gt, gte, lt, lte, NumericStats,
  Response, empty_stats, observe,
}
use stats_cruncher.Storage.Dictionary.{
  StringDictionary, code_of, postings_of, value_of, cardinality,
}
use stats_cruncher.Storage.Column.{Column}
use stats_cruncher.Storage.Store.{ColumnStore, column, index, null_rows_for, is_hidden}
use Evaluate.{evaluate_filter}
use Aggregate.{aggregate}

-- `rows` is `start..end`.
pub record Task (W : Type 0) : Type 0 where
  pub chunk_id : ℕ
  pub query_id : ℕ
  pub query : Query W
  pub start : ℕ
  pub end : ℕ

module _ {B W : Type 0} ⦃m : Bitmap B⦄ ⦃f : Float W⦄ where
  unfoldable pub execute : Task W → ColumnStore B W → Bool → AppResult (Response W)
  unfolding evaluate_filter aggregate
  execute task st string_value_counts = do
    matched ← evaluate_filter task.query st task.start task.end
    aggregate matched st string_value_counts

  -- `Worker::run` over the tasks of a channel that closes: what goes into the result channel.
  unfoldable pub run :
      ColumnStore B W → Bool → List (Task W) → AppResult (List (Task W × Response W))
  unfolding execute
  run st string_value_counts [] = ok []
  run st string_value_counts (task ∷ tasks) = do
    partial ← execute task st string_value_counts
    rest ← run st string_value_counts tasks
    ok ((task, partial) ∷ rest)

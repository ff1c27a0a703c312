-- ===== src/Worker/Aggregate.antt =====
-- execution/worker.rs: `aggregate` and `fold`.
use stats_cruncher.Base.{
  ℕ, ◌%◌, ◌^◌, Bool, not, Option, none, some, List, [], ◌∷◌, ltb, if◌then◌else◌, range, AppResult,
  ok, ◌>>=◌,
}
use stats_cruncher.Text.{Text}
use stats_cruncher.Map.{Map, insert, text_key}
use stats_cruncher.Float.{Float}
use stats_cruncher.Bitmap.{Bitmap}
use stats_cruncher.Query.{NumericStats, Response, empty_stats, observe}
use stats_cruncher.Storage.Dictionary.{StringDictionary, postings_of, value_of, cardinality}
use stats_cruncher.Storage.Column.{Column}
use stats_cruncher.Storage.Store.{ColumnStore, column, index, null_rows_for, is_hidden}

module _ {B : Type 0} ⦃m : Bitmap B⦄ where
  -- The rows of a value among the matched ones, if there are any.
  unfoldable pub count_code : B → StringDictionary B → ℕ → Map Text ℕ → Map Text ℕ
  unfolding postings_of value_of
  count_code matched d code counts = elim (postings_of d code) [
    | none ↦ counts
    | some p ↦
        let count = m.len (m.inter matched p) in
        if ltb 0 count
        then elim (value_of d code) [ none ↦ counts | some value ↦ insert value count counts ]
        else counts
  ]

  unfoldable pub count_codes : B → StringDictionary B → List ℕ → Map Text ℕ → Map Text ℕ
  unfolding count_code
  count_codes matched d [] counts = counts
  count_codes matched d (code ∷ codes) counts =
      count_codes matched d codes (count_code matched d code counts)

  unfoldable pub string_counts : B → StringDictionary B → Map Text ℕ
  unfolding count_codes cardinality
  string_counts matched d = count_codes matched d (range 0 (cardinality d % 2 ^ 32)) []

module _ {W : Type 0} where
  abbrev pub add_numeric : Text → NumericStats W → Response W → Response W
  add_numeric name stats partial = record partial { numeric = insert name stats partial.numeric }

  abbrev pub add_counts : Text → Map Text ℕ → Response W → Response W
  add_counts name [] partial = partial
  add_counts name (c ∷ counts) partial = record partial {
    string_counts = insert name (c ∷ counts) partial.string_counts;
  }

module _ {B W : Type 0} ⦃m : Bitmap B⦄ ⦃f : Float W⦄ where
  unfoldable pub fold_rows :
      (ℕ → AppResult W) → Option B → List ℕ → NumericStats W → AppResult (NumericStats W)
  unfolding observe
  fold_rows value_at nulls [] s = ok s
  fold_rows value_at nulls (row ∷ rows) s =
      let seen = value_at row >>= λ x. fold_rows value_at nulls rows (observe s x) in
      let rest = fold_rows value_at nulls rows s in
      elim nulls [ none ↦ seen | some n ↦ if m.contains n row then rest else seen ]

  unfoldable pub fold : B → (ℕ → AppResult W) → Option B → AppResult (NumericStats W)
  unfolding fold_rows empty_stats
  fold matched value_at nulls = fold_rows value_at nulls (m.iter matched) empty_stats

  unfoldable pub aggregate_column :
      B → ColumnStore B W → Bool → Text → Option (Column B W) → Response W → AppResult (Response W)
  unfolding fold string_counts is_hidden null_rows_for
  aggregate_column matched st string_value_counts name none partial = ok partial
  aggregate_column matched st string_value_counts name (some (Column.string sc)) partial =
      if not string_value_counts then ok partial else do
        hidden ← is_hidden st name
        ok (
            if hidden
            then partial
            else add_counts name (string_counts matched sc.dictionary) partial)
  aggregate_column matched st string_value_counts name (some (Column.integer v)) partial = do
    stats ← fold matched (λ row. index v row >>= λ i. ok (f.of_int i)) (null_rows_for st name)
    ok (add_numeric name stats partial)
  aggregate_column matched st string_value_counts name (some (Column.float v)) partial = do
    stats ← fold matched (index v) (null_rows_for st name)
    ok (add_numeric name stats partial)
  aggregate_column matched st string_value_counts name (some (Column.date_time v)) partial = do
    stats ← fold matched (λ row. index v row >>= λ i. ok (f.of_int i)) (null_rows_for st name)
    ok (add_numeric name stats partial)

  unfoldable pub aggregate_columns :
      B → ColumnStore B W → Bool → List Text → Response W → AppResult (Response W)
  unfolding aggregate_column column
  aggregate_columns matched st string_value_counts [] partial = ok partial
  aggregate_columns matched st string_value_counts (name ∷ names) partial = do
    c ← column st name
    partial' ← aggregate_column matched st string_value_counts name c partial
    aggregate_columns matched st string_value_counts names partial'

  unfoldable pub aggregate : B → ColumnStore B W → Bool → AppResult (Response W)
  unfolding aggregate_columns
  aggregate matched st string_value_counts =
      aggregate_columns matched st string_value_counts st.names (record {
        matched_rows = m.len matched;
        numeric = [];
        column_types = [];
        string_counts = [];
      })

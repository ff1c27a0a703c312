-- ===== src/Coordinator/Validate.antt =====
-- execution/coordinator.rs, `validate`: which queries a store accepts.
use stats_cruncher.Base.{
  Option, none, some, List, [], ◌∷◌, AppResult, ok, err, AppError, ◌>>=◌, ◌>>◌,
}
use stats_cruncher.Text.{Text}
use stats_cruncher.Map.{Map, text_key}
use stats_cruncher.Query.{Query, StringMatch, RangeFilter}
use stats_cruncher.Storage.Column.{Column}
use stats_cruncher.Storage.Store.{ColumnStore, column}

module _ {B W : Type 0} where
  unfoldable pub string_column : Option (Column B W) → AppResult (Unit {0})
  string_column none = err AppError.query
  string_column (some (Column.string sc)) = ok tt
  string_column (some (Column.integer v)) = err AppError.query
  string_column (some (Column.float v)) = err AppError.query
  string_column (some (Column.date_time v)) = err AppError.query

  unfoldable pub numeric_column : Option (Column B W) → AppResult (Unit {0})
  numeric_column none = err AppError.query
  numeric_column (some (Column.string sc)) = err AppError.query
  numeric_column (some (Column.integer v)) = ok tt
  numeric_column (some (Column.float v)) = ok tt
  numeric_column (some (Column.date_time v)) = ok tt

  unfoldable pub require_string_column : ColumnStore B W → Text → AppResult (Unit {0})
  unfolding string_column column
  require_string_column st name = do c ← column st name; string_column c

  unfoldable pub require_numeric_column : ColumnStore B W → Text → AppResult (Unit {0})
  unfolding numeric_column column
  require_numeric_column st name = do c ← column st name; numeric_column c

  unfoldable pub all_string : ColumnStore B W → Map Text StringMatch → AppResult (Unit {0})
  unfolding require_string_column
  all_string st [] = ok tt
  all_string st ((name, sm) ∷ rest) = do require_string_column st name; all_string st rest

  unfoldable pub all_numeric :
      ColumnStore B W → Map Text (List (RangeFilter W)) → AppResult (Unit {0})
  unfolding require_numeric_column
  all_numeric st [] = ok tt
  all_numeric st ((name, filters) ∷ rest) = do require_numeric_column st name; all_numeric st rest

  unfoldable pub validate : Query W → ColumnStore B W → AppResult (Unit {0})
  unfolding all_string all_numeric
  validate query st = do
    all_string st query.must
    all_string st query.must_not
    all_numeric st query.ranges

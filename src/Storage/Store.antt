-- ===== src/Storage/Store.antt =====
-- `ColumnStore` of storage.rs: its state and its operations but `sort_by`, which is in Storage/Sort.
use stats_cruncher.Base.{
  ℕ, ◌+◌, ◌/◌, ◌%◌, ◌^◌, Bool, false, Option, none, some, List, [], ◌∷◌, ◌++◌, map, ltb, ◌==◌,
  if◌then◌else◌, length, get_elem?, AppResult, ok, err, panic, AppError, ◌>>=◌,
}
use stats_cruncher.Base.Int.{ℤ}
use stats_cruncher.Text.{Text}
use stats_cruncher.Map.{Map, get, insert, text_key}
use stats_cruncher.Float.{Float}
use stats_cruncher.Bitmap.{Bitmap}
use stats_cruncher.Config.{AppConfig, ColumnType, SearchableColumn}
use stats_cruncher.Storage.Column.{Column, new_string, type_name}
use stats_cruncher.Storage.Coerce.{RawValue, push_value}

pub record ColumnStore (B W : Type 0) : Type 0 where
  pub names : List Text
  pub columns : List (Column B W)
  pub lookup : Map Text ℕ
  pub hidden : List Bool
  pub row_count : ℕ
  pub chunk_size : ℕ
  pub zone_stats : Option (Text × List (W × W))
  pub null_rows : Map Text B

-- `self.v[idx]`, which panics out of range.
abbrev pub index {ℓ} : {A : Type ℓ} → List A → ℕ → AppResult A
index v i = elim (get_elem? v i) [ none ↦ panic | some a ↦ ok a ]

module _ {B W : Type 0} where
  unfoldable pub new_column : ColumnType → Column B W
  unfolding new_string
  new_column ColumnType.integer = Column.integer []
  new_column ColumnType.float = Column.float []
  new_column ColumnType.string = Column.string new_string
  new_column ColumnType.date_time = Column.date_time []

  -- The loop of `new` over the declared columns, from the index on.
  unfoldable pub declare : ℕ → Map Text SearchableColumn → ColumnStore B W → ColumnStore B W
  unfolding new_column
  declare idx [] st = st
  declare idx ((name, col) ∷ rest) st = declare (idx + 1) rest (record st {
    names = st.names ++ name ∷ [];
    columns = st.columns ++ new_column col.column_type ∷ [];
    lookup = insert name idx st.lookup;
    hidden = st.hidden ++ col.hidden ∷ [];
  })

  unfoldable pub new : AppConfig → ColumnStore B W
  unfolding declare
  new cfg = declare 0 cfg.searchable (record {
    names = [];
    columns = [];
    lookup = [];
    hidden = [];
    row_count = 0;
    chunk_size = if ltb cfg.engine.chunk_size_rows 1 then 1 else cfg.engine.chunk_size_rows;
    zone_stats = none;
    null_rows = [];
  })

  abbrev pub column_names : ColumnStore B W → List Text
  column_names st = st.names

  unfoldable pub column_types : ColumnStore B W → List Text
  unfolding type_name
  column_types st = map type_name st.columns

  unfoldable pub column : ColumnStore B W → Text → AppResult (Option (Column B W))
  column st name = elim (get name st.lookup) [
    | none ↦ ok none
    | some idx ↦ do c ← index st.columns idx; ok (some c)
  ]

  -- `row_count.div_ceil(chunk_size)`
  unfoldable pub chunk_count : ColumnStore B W → ℕ
  chunk_count st =
      if st.row_count % st.chunk_size == 0
      then st.row_count / st.chunk_size
      else st.row_count / st.chunk_size + 1

  unfoldable pub null_rows_for : ColumnStore B W → Text → Option B
  null_rows_for st name = get name st.null_rows

  unfoldable pub is_hidden : ColumnStore B W → Text → AppResult Bool
  is_hidden st name = elim (get name st.lookup) [ none ↦ ok false | some idx ↦ index st.hidden idx ]

module _ {B : Type 0} ⦃m : Bitmap B⦄ where
  -- `null_rows.entry(name).or_default().insert(row)`
  unfoldable pub note_null : Text → ℕ → Map Text B → Map Text B
  note_null name row nulls =
      insert name (elim (get name nulls) [ none ↦ m.insert row m.new | some b ↦ m.insert row b ])
        nulls

module _ {B W : Type 0} ⦃m : Bitmap B⦄ ⦃f : Float W⦄ where
  -- The loop of `push_row`. Columns before the one that fails keep what was pushed.
  unfoldable pub push_values :
      (Text → Option ℤ)
      → List (Column B W)
      → List Text
      → Map Text B
      → List (RawValue W)
      → ℕ
      → AppResult (Unit {0}) × List (Column B W) × Map Text B
  push_values parse_rfc3339 columns names nulls [] row = (ok tt, columns, nulls)
  push_values parse_rfc3339 (c ∷ columns) (name ∷ names) nulls (value ∷ values) row =
      elim (push_value parse_rfc3339 c value row) [
        | ok (has_value, c') ↦
            let nulls' = if has_value then nulls else note_null name row nulls in
            let (r, columns', nulls'') =
              push_values parse_rfc3339 columns names nulls' values row in
            (r, c' ∷ columns', nulls'')
        | err e ↦ (err e, c ∷ columns, nulls)
        | panic ↦ (panic, c ∷ columns, nulls)
      ]
  push_values parse_rfc3339 columns _ nulls (value ∷ values) row = (panic, columns, nulls)

  -- `row_count` is a `u32`.
  unfoldable pub count_row :
      AppResult (Unit {0}) → ColumnStore B W → AppResult (Unit {0}) × ColumnStore B W
  count_row (ok tt) st =
      if ltb (st.row_count + 1) (2 ^ 32)
      then (ok tt, record st { row_count = st.row_count + 1 })
      else (err AppError.ingestion, st)
  count_row (err e) st = (err e, st)
  count_row panic st = (panic, st)

  -- The result, and the store as the call leaves it.
  unfoldable pub push_row :
      (Text → Option ℤ)
      → List (RawValue W)
      → ColumnStore B W
      → AppResult (Unit {0}) × ColumnStore B W
  unfolding push_values count_row note_null
  push_row parse_rfc3339 values st =
      if length values == length st.columns
      then (let (r, columns', nulls') =
            push_values parse_rfc3339 st.columns st.names st.null_rows values st.row_count in
          count_row r (record st { columns = columns'; null_rows = nulls' }))
      else (err AppError.ingestion, st)

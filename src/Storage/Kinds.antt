-- ===== src/Storage/Kinds.antt =====
-- storage.rs: the kinds of the columns of a store, which its rows leave as they are, and rows that are accepted.
use stats_cruncher.Base.{
  ℕ, ◌+◌, ◌^◌, ◌<◌, ◌≡◌, refl, sym, ◌∙◌, ap, ap₂, inl, inr, Bool, true, List, [], ◌∷◌, ◌++◌, arith,
  ◌==◌, if◌then◌else◌, length, ltb, AppResult, ok, err, panic, >>=-eq-ok, ok-injective, Bool-cases,
  ltb→lt, AppResult-cases, no_err, no_panic, Option,
}
use stats_cruncher.Base.Int.{ℤ}
use stats_cruncher.Text.{Text}
use stats_cruncher.Map.{Map}
use stats_cruncher.Float.{Float}
use stats_cruncher.Bitmap.{Bitmap}
use stats_cruncher.Config.{ColumnType}
use stats_cruncher.Storage.Column.{Column}
use stats_cruncher.Storage.Coerce.{
  RawValue, push_value, push_some, push_null, is_null, coerce_integer, coerce_float, coerce_str,
  coerce_datetime,
}
use stats_cruncher.Storage.Dictionary.{intern}
use stats_cruncher.Storage.Store.{
  ColumnStore, push_values, push_row, count_row, note_null, new_column,
}
use stats_cruncher.Storage.Table.{Cell}
use stats_cruncher.Storage.Push.{cell_of, some_cell_of, cell_of-is_null, some_cell_of-coerced}
use stats_cruncher.Storage.PushRow.{cells_of}

module _ {B W : Type 0} where
  abbrev pub kind : Column B W → ColumnType
  kind (Column.integer v) = ColumnType.integer
  kind (Column.float v) = ColumnType.float
  kind (Column.string sc) = ColumnType.string
  kind (Column.date_time v) = ColumnType.date_time

  abbrev pub kinds : List (Column B W) → List ColumnType
  kinds [] = []
  kinds (c ∷ columns) = kind c ∷ kinds columns

module _ {B W : Type 0} ⦃m : Bitmap B⦄ ⦃f : Float W⦄ (parse_rfc3339 : Text → Option ℤ) where
  same_kind :
      (c c' : Column B W) (value : RawValue W)
      → some_cell_of parse_rfc3339 c value ≡ some_cell_of parse_rfc3339 c' value
      → cell_of parse_rfc3339 c value ≡ cell_of parse_rfc3339 c' value
  same_kind c c' value e =
      cell_of-is_null parse_rfc3339 c value
      ∙ ap (λ r. if is_null value then ok Cell.null else r) e
      ∙ sym (cell_of-is_null parse_rfc3339 c' value)

  -- The cell that a value becomes in a column depends on the kind of the column only.
  cell_of-kind :
      (c : Column B W) (value : RawValue W)
      → cell_of parse_rfc3339 (new_column {B = B} (kind c)) value ≡ cell_of parse_rfc3339 c value
  unfolding new_column
  cell_of-kind (Column.integer v) value =
      same_kind (new_column (ColumnType.integer)) (Column.integer v) value (
        some_cell_of-coerced parse_rfc3339 (new_column (ColumnType.integer)) value
        ∙ sym (some_cell_of-coerced parse_rfc3339 (Column.integer v) value))
  cell_of-kind (Column.float v) value =
      same_kind (new_column (ColumnType.float)) (Column.float v) value (
        some_cell_of-coerced parse_rfc3339 (new_column (ColumnType.float)) value
        ∙ sym (some_cell_of-coerced parse_rfc3339 (Column.float v) value))
  cell_of-kind (Column.string sc) value =
      same_kind (new_column (ColumnType.string)) (Column.string sc) value (
        some_cell_of-coerced parse_rfc3339 (new_column (ColumnType.string)) value
        ∙ sym (some_cell_of-coerced parse_rfc3339 (Column.string sc) value))
  cell_of-kind (Column.date_time v) value =
      same_kind (new_column (ColumnType.date_time)) (Column.date_time v) value (
        some_cell_of-coerced parse_rfc3339 (new_column (ColumnType.date_time)) value
        ∙ sym (some_cell_of-coerced parse_rfc3339 (Column.date_time v) value))

  pub cells_of-kinds :
      (columns columns' : List (Column B W)) (values : List (RawValue W))
      → kinds columns' ≡ kinds columns
      → cells_of parse_rfc3339 columns' values ≡ cells_of parse_rfc3339 columns values
  unfolding cells_of
  cells_of-kinds [] [] values e = refl
  cells_of-kinds (c ∷ columns) (c' ∷ columns') [] e = refl
  cells_of-kinds (c ∷ columns) (c' ∷ columns') (value ∷ values) e =
      let same : kind c' ≡ kind c = cc in
      let rest : kinds columns' ≡ kinds columns = cc in
      rw
        (
          ← cell_of-kind c' value,
          ← cell_of-kind c value,
          same,
          cells_of-kinds columns columns' values rest,
        )
        refl
  cells_of-kinds [] (c' ∷ columns') values e = cc
  cells_of-kinds (c ∷ columns) [] values e = cc

  push_null-kind : (c : Column B W) → kind (push_null c) ≡ kind c
  unfolding push_null
  push_null-kind (Column.integer v) = refl
  push_null-kind (Column.float v) = refl
  push_null-kind (Column.string sc) = refl
  push_null-kind (Column.date_time v) = refl

  -- A value that is stored has a cell.
  push_some-cell :
      (c c' : Column B W) (value : RawValue W) (row : ℕ)
      → push_some parse_rfc3339 c value row ≡ ok c'
      → (cell : Cell W) × (some_cell_of parse_rfc3339 c value ≡ ok cell) × (kind c' ≡ kind c)
  unfolding push_some
  push_some-cell (Column.integer v) c' value row h =
      let (i, p, q) = >>=-eq-ok (coerce_integer value) (λ i. ok (Column.integer (v ++ i ∷ []))) h in
      (
        Cell.integer i,
        some_cell_of-coerced parse_rfc3339 (Column.integer v) value ∙ rw p refl,
        ap kind (sym (ok-injective _ _ q)),
      )
  push_some-cell (Column.float v) c' value row h =
      let (x, p, q) = >>=-eq-ok (coerce_float value) (λ x. ok (Column.float (v ++ x ∷ []))) h in
      (
        Cell.float x,
        some_cell_of-coerced parse_rfc3339 (Column.float v) value ∙ rw p refl,
        ap kind (sym (ok-injective _ _ q)),
      )
  push_some-cell (Column.string sc) c' value row h =
      let (s, p, q) = >>=-eq-ok (coerce_str value) _ h in
      let (d, p', q') = >>=-eq-ok (intern s row sc.dictionary) _ q in
      (
        Cell.str s,
        some_cell_of-coerced parse_rfc3339 (Column.string sc) value ∙ rw p refl,
        ap kind (sym (ok-injective _ _ q')),
      )
  push_some-cell (Column.date_time v) c' value row h =
      let (t, p, q) =
        >>=-eq-ok (coerce_datetime parse_rfc3339 value) (λ t. ok (Column.date_time (v ++ t ∷ [])))
          h in
      (
        Cell.date_time t,
        some_cell_of-coerced parse_rfc3339 (Column.date_time v) value ∙ rw p refl,
        ap kind (sym (ok-injective _ _ q)),
      )

  push_value-cell :
      (c c' : Column B W) (value : RawValue W) (row : ℕ) (has_value : Bool)
      → push_value parse_rfc3339 c value row ≡ ok (has_value, c')
      → (cell : Cell W) × (cell_of parse_rfc3339 c value ≡ ok cell) × (kind c' ≡ kind c)
  unfolding push_value
  push_value-cell c c' value row has_value h = elim (Bool-cases (is_null value)) [
    | inl blank ↦
        let q = rw blank at h in
        (
          Cell.null,
          cell_of-is_null parse_rfc3339 c value ∙ rw blank refl,
          ap (λ x. kind x.1) (sym (ok-injective _ _ q)) ∙ push_null-kind c,
        )
    | inr full ↦
        let (d, p, q) =
          >>=-eq-ok (push_some parse_rfc3339 c value row) (λ d. ok (true, d)) (rw full at h) in
        let (cell, e, k) = push_some-cell c d value row p in
        (
          cell,
          cell_of-is_null parse_rfc3339 c value ∙ rw full e,
          ap (λ x. kind x.1) (sym (ok-injective _ _ q)) ∙ k,
        )
  ]

  -- Values that are all stored have cells, and the columns keep their kinds.
  push_values-cells :
      (columns : List (Column B W)) (names : List Text) (nulls : Map Text B)
      (values : List (RawValue W)) (row : ℕ)
      → (push_values parse_rfc3339 columns names nulls values row).0 ≡ ok tt
      → length values ≡ length columns
      → (cells : List (Cell W)) × (cells_of parse_rfc3339 columns values ≡ ok cells)
        × (kinds (push_values parse_rfc3339 columns names nulls values row).1 ≡ kinds columns)
  unfolding push_values cells_of
  push_values-cells [] names nulls [] row h l = ([], refl, refl)
  push_values-cells (c ∷ columns) (name ∷ names) nulls (value ∷ values) row h l =
      elim (AppResult-cases (push_value parse_rfc3339 c value row)) [
        | inl ((v, c'), p) ↦
            let nulls' = if v then nulls else note_null name row nulls in
            let (cell, e, k) = push_value-cell c c' value row v p in
            let (cells, es, ks) =
              push_values-cells columns names nulls' values row (rw (push_values, p) at h)
                (omega (arith, l)) in
            (cell ∷ cells, rw (e, es) refl, rw (push_values, p) (ap₂ ◌∷◌ k ks))
        | inr (inl (x, p)) ↦ absurd (no_err x (rw (push_values, p) at h))
        | inr (inr p) ↦ absurd (no_panic (rw (push_values, p) at h))
      ]
  push_values-cells (c ∷ columns) [] nulls (value ∷ values) row h l = cc
  push_values-cells [] names nulls (value ∷ values) row h l = absurd (omega (arith, l))
  push_values-cells (c ∷ columns) names nulls [] row h l = absurd (omega (arith, l))

  -- What a row leaves as it is, with its cells.
  pub record Accepts (st st' : ColumnStore B W) (values : List (RawValue W)) (cells : List (Cell W))
      : Type 0 where
    pub have_cells : cells_of parse_rfc3339 st.columns values ≡ ok cells
    pub room : st.row_count + 1 < 2 ^ 32
    pub same_kinds : kinds st'.columns ≡ kinds st.columns
    pub same_zones : st'.zone_stats ≡ st.zone_stats

  count_row_inv :
      (r : AppResult (Unit {0})) (st st' : ColumnStore B W)
      → count_row r st ≡ (ok tt, st')
      → (r ≡ ok tt)
        × (st.row_count + 1 < 2 ^ 32)
        × (st' ≡ record st { row_count = st.row_count + 1 })
  unfolding count_row
  count_row_inv (ok u) st st' h = elim (Bool-cases (ltb (st.row_count + 1) (2 ^ 32))) [
    | inl room ↦ (refl, ltb→lt _ _ room, sym (ap (λ x. x.1) (rw room at h)))
    | inr full ↦ absurd (no_err _ (ap (λ x. x.0) (rw full at h)))
  ]
  count_row_inv (err x) st st' h = cc
  count_row_inv panic st st' h = cc

  -- A row that is accepted has a cell for each value.
  pub push_row-Accepts :
      (st st' : ColumnStore B W) (values : List (RawValue W))
      → push_row parse_rfc3339 values st ≡ (ok tt, st')
      → (cells : List (Cell W)) × Accepts st st' values cells
  unfolding push_row
  push_row-Accepts st st' values h = elim (Bool-cases (length values == length st.columns)) [
    | inl fits ↦
        let pushed =
          push_values parse_rfc3339 st.columns st.names st.null_rows values st.row_count in
        let (good, room, same) = count_row_inv pushed.0 _ st' (rw fits at h) in
        let (cells, e, k) =
          push_values-cells st.columns st.names st.null_rows values st.row_count good
            (ground (arith, fits)) in
        (
          cells,
          record {
            have_cells = e;
            room = room;
            same_kinds = ap (λ x. kinds x.columns) same ∙ k;
            same_zones = ap (λ x. x.zone_stats) same;
          },
        )
    | inr other ↦ absurd (no_err _ (ap (λ x. x.0) (rw other at h)))
  ]

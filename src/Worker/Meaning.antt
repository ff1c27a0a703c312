-- ===== src/Worker/Meaning.antt =====
-- What a query means on a table, with no bitmap, code or early return.
use stats_cruncher.Base.{Bool, true, false, not, ◌&&◌, Option, none, some, List, [], ◌∷◌, ℕ, any}
use stats_cruncher.Text.{Text}
use stats_cruncher.Map.{Map, get, text_key}
use stats_cruncher.Float.{Float}
use stats_cruncher.Query.{Query, StringMatch, RangeFilter, NumericBound, gt, gte, lt, lte}
use stats_cruncher.Storage.Table.{Cell, Table, is_str, test_at}

module _ {W : Type 0} where
  -- The cell in a row of a named column passes a test; there may be no such column.
  abbrev pub cell_passes : (Cell W → Bool) → Table W → Text → ℕ → Bool
  cell_passes p table name row = elim (get name table) [
    | none ↦ false
    | some cells ↦ test_at p cells row
  ]

  -- The cell is one of the texts.
  abbrev pub is_one_of : List Text → Cell W → Bool
  is_one_of values cell = any (λ v. is_str v cell) values

  abbrev pub musts : Table W → Map Text StringMatch → ℕ → Bool
  musts table [] row = true
  musts table ((name, sm) ∷ rest) row =
      cell_passes (is_one_of sm.values) table name row && musts table rest row

  abbrev pub must_nots : Table W → Map Text StringMatch → ℕ → Bool
  must_nots table [] row = true
  must_nots table ((name, sm) ∷ rest) row =
      not (cell_passes (is_one_of sm.values) table name row) && must_nots table rest row

module _ {W : Type 0} ⦃f : Float W⦄ where
  -- A bound on the wrong side is one that nothing satisfies.
  abbrev pub above_bound : W → NumericBound W → Bool
  above_bound x b = elim b.comparison [
    | gt ↦ f.lt b.value x
    | gte ↦ f.le b.value x
    | lt ↦ false
    | lte ↦ false
  ]

  abbrev pub below_bound : W → NumericBound W → Bool
  below_bound x b = elim b.comparison [
    | gt ↦ false
    | gte ↦ false
    | lt ↦ f.lt x b.value
    | lte ↦ f.le x b.value
  ]

  abbrev pub meets : (NumericBound W → Bool) → Option (NumericBound W) → Bool
  meets p none = true
  meets p (some b) = p b

  abbrev pub in_range : W → RangeFilter W → Bool
  in_range x rf = meets (above_bound x) rf.lower && meets (below_bound x) rf.upper

  -- The number of a cell that is neither null nor a text.
  abbrev pub number_of : Cell W → Option W
  number_of Cell.null = none
  number_of (Cell.integer i) = some (f.of_int i)
  number_of (Cell.float x) = some x
  number_of (Cell.str s) = none
  number_of (Cell.date_time t) = some (f.of_int t)

  abbrev pub in_ranges : List (RangeFilter W) → Cell W → Bool
  in_ranges filters cell = elim (number_of cell) [
    | none ↦ false
    | some x ↦ any (in_range x) filters
  ]

  abbrev pub ranges_hold : Table W → Map Text (List (RangeFilter W)) → ℕ → Bool
  ranges_hold table [] row = true
  ranges_hold table ((name, filters) ∷ rest) row =
      cell_passes (in_ranges filters) table name row && ranges_hold table rest row

  -- The row satisfies the query.
  unfoldable pub satisfies : Query W → Table W → ℕ → Bool
  satisfies query table row =
      musts table query.must row
      && must_nots table query.must_not row
      && ranges_hold table query.ranges row

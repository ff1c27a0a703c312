-- ===== src/Tests.antt =====
-- Examples: each theorem at a concrete input.
mod Store
mod Service
mod Loading
mod Counting
mod Pruning
mod Sorting
mod Statistics
use stats_cruncher.Base.{
  ℕ, zero, suc, ◌+◌, ◌%◌, ◌^◌, ◌≡◌, ◌≤◌, ◌<◌, ◌⊎◌, inl, inr, refl, Bool, true, false, not, Option,
  none, some, List, [], ◌∷◌, ◌++◌, arith, length, range, filter, All, AppResult, ok, subst, ◌&&◌,
}
use stats_cruncher.Base.Int.{ℤ}
use stats_cruncher.Text.{Text, text, beq, trim, is_empty}
use stats_cruncher.Map.{get, Map, text_key}
use stats_cruncher.Float.{Float}
use stats_cruncher.Float.Sample.{Sample, samples, samples-IsFloat, num, nan, low, high}
use stats_cruncher.Bitmap.{Bitmap}
use stats_cruncher.Bitmap.Sample.{Bits, bits, bits-IsBitmap}
use stats_cruncher.Query.{
  Query, StringMatch, RangeFilter, NumericBound, gt, gte, lt, lte, Response, NumericStats,
  merge_stats, default_response,
}
use stats_cruncher.Query.Stats.{stats_of}
use stats_cruncher.Query.Numbers.{IsStatsOf, merge_stats-IsStatsOf}
use stats_cruncher.Storage.Dictionary.{
  StringDictionary, IsDictionary, intern, Interned, cardinality, intern_lem,
}
use stats_cruncher.Storage.Column.{Column}
use stats_cruncher.Storage.Coerce.{RawValue, push_value, is_null, coerce_integer, coerce_str}
use stats_cruncher.Storage.Store.{ColumnStore, column, push_row}
use stats_cruncher.Storage.Table.{Cell, Table, Represents, HoldsValues, HoldsNulls, is_null_cell}
use stats_cruncher.Storage.Push.{cell_of, some_cell_of, push_value-HoldsValues}
use stats_cruncher.Storage.PushRow.{add_row, cells_of, push_row-Represents}
use stats_cruncher.Storage.Lookup.{column_lem}
use stats_cruncher.Worker.{Task, execute}
use stats_cruncher.Worker.Evaluate.{evaluate_filter, range_matches}
use stats_cruncher.Worker.Aggregate.{aggregate_column, add_numeric}
use stats_cruncher.Worker.Meaning.{satisfies, in_range}
use stats_cruncher.Worker.Filter.{evaluate_filter_lem}
use stats_cruncher.Worker.Ranges.{range_matches-eq-in_range}
use stats_cruncher.Worker.Folds.{numbers, IsNumeric, aggregate_column_numeric}
use stats_cruncher.Worker.Totals.{execute_lem}
use stats_cruncher.Aggregator.{new}
use stats_cruncher.Aggregator.Complete.{
  answers, silent_until, add_all, sum_matched, answers-silent_until, matched_rows-add_all,
}
use stats_cruncher.Coordinator.Chunks.{chunks, rows_of, rows_of-chunks}
use stats_cruncher.Coordinator.Zones.{zone_overlaps, zone_overlaps-in_range, zone_overlaps_nan}
use stats_cruncher.Coordinator.{present}
use stats_cruncher.Coordinator.Hidden.{present-hidden}
use stats_cruncher.Config.{AppConfig, ColumnType, SearchableColumn, SourceConfig}
use stats_cruncher.Api.Dto.{RangeDto, BoundValue, range_filter, one_bound, to_bound, bound_value}
use stats_cruncher.Api.Bounds.{passes, in_range-range_filter}
use stats_cruncher.Ingestion
use stats_cruncher.Ingestion.{Adapter, Ingestor, reload, quote_ident}
use stats_cruncher.Ingestion.Quoting.{read_ident, quote_ident-read_ident}
use stats_cruncher.Ingestion.Again.{reload-reload}
use Store.{
  nulls_n, two_rows, two_cells, a_from_3, two_rows-Represents, letters, letters-IsDictionary,
}

evaluate_filter_lem_example :
    (b : Bits) × (evaluate_filter a_from_3 two_rows 0 2 ≡ ok b)
    × (bits.iter b ≡ filter (satisfies a_from_3 two_cells) (range 0 2))
evaluate_filter_lem_example =
    evaluate_filter_lem bits-IsBitmap two_rows two_cells two_rows-Represents a_from_3 0 2
      (omega arith)

abbrev whole_task : Task Sample
whole_task = record { chunk_id = 0; query_id = 0; query = a_from_3; start = 0; end = 2 }

execute_lem_example :
    (partial : Response Sample) × (execute whole_task two_rows true ≡ ok partial)
    × (partial.matched_rows ≡ length (filter (satisfies a_from_3 two_cells) (range 0 2)))
    × ((name : Text) (c : Column Bits Sample) (cells : List (Cell Sample))
        → column two_rows name ≡ ok (some c)
        → IsNumeric c
        → get name two_cells ≡ some cells
        → get name partial.numeric
          ≡ some (stats_of (numbers cells (filter (satisfies a_from_3 two_cells) (range 0 2)))))
execute_lem_example =
    execute_lem two_rows two_cells two_rows-Represents bits-IsBitmap a_from_3 0 0 0 2 true
      (omega arith)

-- A source without date-times.
abbrev no_time : Text → Option ℤ
no_time t = none

abbrev third_row : List (RawValue Sample)
third_row = RawValue.integer (ℤ.pos 7) ∷ RawValue.str (text "b") ∷ []

abbrev third_cells : List (Cell Sample)
third_cells = Cell.integer (ℤ.pos 7) ∷ Cell.str (text "b") ∷ []

third_cells_of : cells_of no_time two_rows.columns third_row ≡ ok third_cells
unfolding cells_of cell_of some_cell_of is_null coerce_integer coerce_str trim is_empty
third_cells_of = refl

push_row-Represents_example :
    (st' : ColumnStore Bits Sample) × (push_row no_time third_row two_rows ≡ (ok tt, st'))
    × Represents st' (add_row two_cells third_cells)
    × (st'.row_count ≡ 3)
push_row-Represents_example =
    push_row-Represents no_time bits-IsBitmap two_rows two_cells third_row third_cells
      two_rows-Represents third_cells_of (omega arith)

merge_stats-IsStatsOf_example :
    IsStatsOf
      (merge_stats (stats_of (num 3 ∷ nan ∷ [])) (stats_of (num 1 ∷ num 5 ∷ [])))
      (num 3 ∷ nan ∷ num 1 ∷ num 5 ∷ [])
    × ((merge_stats (stats_of (num 3 ∷ nan ∷ [])) (stats_of (num 1 ∷ num 5 ∷ []))).count
        ≡ (stats_of (num 3 ∷ nan ∷ num 1 ∷ num 5 ∷ [])).count)
    × ((merge_stats (stats_of (num 3 ∷ nan ∷ [])) (stats_of (num 1 ∷ num 5 ∷ []))).min
        ≡ (stats_of (num 3 ∷ nan ∷ num 1 ∷ num 5 ∷ [])).min)
    × ((merge_stats (stats_of (num 3 ∷ nan ∷ [])) (stats_of (num 1 ∷ num 5 ∷ []))).max
        ≡ (stats_of (num 3 ∷ nan ∷ num 1 ∷ num 5 ∷ [])).max)
merge_stats-IsStatsOf_example =
    merge_stats-IsStatsOf samples-IsFloat (num 3 ∷ nan ∷ []) (num 1 ∷ num 5 ∷ [])

rows_of-chunks_example : rows_of (chunks 7 3) ≡ range 0 7
rows_of-chunks_example = rows_of-chunks 7 3 (omega arith)

abbrev from_3 : RangeFilter Sample
from_3 = record { lower = some (record { value = num 3; comparison = gte }); upper = none }

zone_overlaps-in_range_example : zone_overlaps (num 1) (num 9) from_3 ≡ true
zone_overlaps-in_range_example =
    zone_overlaps-in_range samples-IsFloat (num 1) (num 9) (num 4) from_3 refl refl refl

zone_overlaps_nan_example : zone_overlaps (num 1) nan from_3 ≡ false
zone_overlaps_nan_example =
    zone_overlaps_nan samples-IsFloat (num 1) nan from_3
      (record { value = num 3; comparison = gte }) refl refl (inr refl)

abbrev one_row : Response Sample
one_row = record { matched_rows = 1; numeric = []; column_types = []; string_counts = [] }

answers-silent_until_example :
    answers (new 2) (one_row ∷ one_row ∷ [])
    ≡ silent_until (add_all default_response (one_row ∷ one_row ∷ [])) (one_row ∷ one_row ∷ [])
answers-silent_until_example = answers-silent_until (one_row ∷ one_row ∷ [])

few_letters : cardinality letters < 2 ^ 32
unfolding cardinality
few_letters = omega arith

intern_lem_example :
    (d' : StringDictionary Bits) × (code : ℕ) × (intern (text "b") 1 letters ≡ ok (d', code))
    × Interned bits-IsBitmap letters (text "b") 1 d' code
intern_lem_example = intern_lem bits-IsBitmap letters (text "b") 1 letters-IsDictionary few_letters

abbrev just_3 : Column Bits Sample
just_3 = Column.integer (ℤ.pos 3 ∷ [])

seven : cell_of no_time just_3 (RawValue.integer (ℤ.pos 7)) ≡ ok (Cell.integer (ℤ.pos 7))
unfolding cell_of some_cell_of is_null coerce_integer
seven = refl

push_value-HoldsValues_example :
    (c' : Column Bits Sample) × (push_value no_time just_3 (RawValue.integer (ℤ.pos 7)) 1
      ≡ ok (true, c'))
    × HoldsValues c' (Cell.integer (ℤ.pos 3) ∷ Cell.integer (ℤ.pos 7) ∷ [])
push_value-HoldsValues_example =
    push_value-HoldsValues no_time bits-IsBitmap just_3 (Cell.integer (ℤ.pos 3) ∷ [])
      (RawValue.integer (ℤ.pos 7)) (Cell.integer (ℤ.pos 7)) 1 (refl, (tt, tt)) refl (omega arith)
      seven

range_matches-eq-in_range_example : range_matches (num 4) from_3 ≡ in_range (num 4) from_3
range_matches-eq-in_range_example = range_matches-eq-in_range (num 4) from_3

column_lem_example :
    ((column two_rows (text "n") ≡ ok none) × (get (text "n") two_cells ≡ none))
    ⊎ ((c : Column Bits Sample) × (cells : List (Cell Sample)) × (column two_rows (text "n")
          ≡ ok (some c))
        × (get (text "n") two_cells ≡ some cells)
        × HoldsValues c cells
        × HoldsNulls (get (text "n") two_rows.null_rows) cells
        × (length cells ≡ 2))
column_lem_example = column_lem two_rows two_cells (text "n") two_rows-Represents

abbrev threes : List (Cell Sample)
threes = Cell.integer (ℤ.pos 3) ∷ Cell.integer (ℤ.pos 5) ∷ []

no_nulls_n : HoldsNulls (get (text "n") two_rows.null_rows) threes
unfolding get beq
no_nulls_n = nulls_n

aggregate_column_numeric_example :
    aggregate_column
      (true ∷ true ∷ [])
      two_rows
      true
      (text "n")
      (some (Column.integer (ℤ.pos 3 ∷ ℤ.pos 5 ∷ [])))
      default_response
    ≡ ok (add_numeric (text "n") (stats_of (numbers threes (0 ∷ 1 ∷ []))) default_response)
aggregate_column_numeric_example =
    aggregate_column_numeric (true ∷ true ∷ []) two_rows true (text "n")
      (Column.integer (ℤ.pos 3 ∷ ℤ.pos 5 ∷ [])) threes default_response tt (refl, (tt, (tt, tt)))
      no_nulls_n (omega arith, (omega arith, tt))

quote_ident-read_ident_example :
    read_ident (quote_ident (text "a\"; b") ++ text ", c") ≡ some (text "a\"; b", text ", c")
quote_ident-read_ident_example = quote_ident-read_ident (text "a\"; b") (text ", c") refl

abbrev hidden_column : SearchableColumn
hidden_column = record { column_type = ColumnType.integer; hidden = true }

abbrev with_n : Response Sample
with_n = record {
  matched_rows = 1;
  numeric = (text "n", stats_of (num 3 ∷ [])) ∷ [];
  column_types = [];
  string_counts = [];
}

hidden_n : get (text "n") ((text "n", hidden_column) ∷ []) ≡ some hidden_column
unfolding get beq
hidden_n = refl

present-hidden_example :
    get (text "n") (present ((text "n", hidden_column) ∷ []) with_n).numeric ≡ none
present-hidden_example =
    present-hidden ((text "n", hidden_column) ∷ []) with_n (text "n") hidden_column hidden_n refl

-- A configuration for a source with an integer column, sorted by no column.
abbrev one_column : AppConfig
one_column = record {
  source = SourceConfig.csv (text "t.csv") none false;
  engine = record {
    memory_limit = 1000;
    chunk_size_rows = 10;
    worker_threads = 1;
    string_value_counts = false;
    reload_interval_mins = 0;
  };
  api = record { bind = text "" };
  searchable = (text "n", hidden_column) ∷ [];
  partition_column = none;
}

abbrev loaded : Ingestor
loaded = record { adapter = Adapter.csv_ingestor; cfg = one_column; last_loaded = some 5 }

first_reload :
    reload
      (ok 5)
      (λ adapter cfg. ok two_rows)
      (ok 5)
      (record { adapter = Adapter.csv_ingestor; cfg = one_column; last_loaded = none })
    ≡ (ok (some two_rows), loaded)
unfolding reload Ingestion.finalize
first_reload = refl

reload-reload_example : reload (ok 5) (λ adapter cfg. ok two_rows) (ok 5) loaded ≡ (ok none, loaded)
reload-reload_example =
    reload-reload 5 (λ adapter cfg. ok two_rows) (λ adapter cfg. ok two_rows) (ok 5) (ok 5)
      (record { adapter = Adapter.csv_ingestor; cfg = one_column; last_loaded = none }) loaded
      two_rows first_reload

matched_rows-add_all_example :
    (add_all default_response (one_row ∷ with_n ∷ [])).matched_rows
    ≡ (0 + sum_matched (one_row ∷ with_n ∷ [])) % 2 ^ 64
matched_rows-add_all_example = matched_rows-add_all default_response (one_row ∷ with_n ∷ []) refl

abbrev from_3_below_9 : RangeDto Sample
from_3_below_9 = record {
  eq = none;
  gt = none;
  gte = some (BoundValue.number (num 3));
  lt = some (BoundValue.number (num 9));
  lte = none;
}

abbrev filter_3_9 : RangeFilter Sample
filter_3_9 = record {
  lower = some (record { value = num 3; comparison = gte });
  upper = some (record { value = num 9; comparison = lt });
}

accepted_3_9 : range_filter no_time from_3_below_9 ≡ some filter_3_9
unfolding range_filter one_bound to_bound bound_value
accepted_3_9 = refl

in_range-range_filter_example : in_range (num 4) filter_3_9 ≡ (
    (passes no_time (λ y. samples.le y (num 4)) from_3_below_9.gte
      && passes no_time (λ y. samples.lt y (num 4)) from_3_below_9.gt)
    && passes no_time (λ y. samples.le (num 4) y) from_3_below_9.lte
    && passes no_time (λ y. samples.lt (num 4) y) from_3_below_9.lt)
in_range-range_filter_example =
    in_range-range_filter no_time from_3_below_9 filter_3_9 (num 4) refl (inr refl) (inl refl)
      accepted_3_9

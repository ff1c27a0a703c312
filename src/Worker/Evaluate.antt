-- ===== src/Worker/Evaluate.antt =====
-- execution/worker.rs: `evaluate_filter` and its helpers. An index out of range panics, as it does in
-- the source.
use stats_cruncher.Base.{
  ℕ, ◌%◌, ◌^◌, Bool, true, false, Option, none, some, List, [], ◌∷◌, if◌then◌else◌, AppResult, ok,
  ◌>>=◌,
}
use stats_cruncher.Text.{Text}
use stats_cruncher.Map.{Map, text_key}
use stats_cruncher.Float.{Float}
use stats_cruncher.Bitmap.{Bitmap}
use stats_cruncher.Query.{Query, StringMatch, RangeFilter, NumericBound, gt, gte, lt, lte}
use stats_cruncher.Storage.Dictionary.{StringDictionary, code_of, postings_of}
use stats_cruncher.Storage.Column.{Column}
use stats_cruncher.Storage.Store.{ColumnStore, column, index, null_rows_for}

-- A loop of `evaluate_filter` goes on with a bitmap, or returns one.
pub data Flow (B : Type 0) : Type 0 where
  next : B → Flow B
  return : B → Flow B

module _ {W : Type 0} ⦃f : Float W⦄ where
  unfoldable pub lower_ok : W → Option (NumericBound W) → Bool
  lower_ok value none = true
  lower_ok value (some lower) = elim lower.comparison [
    | gt ↦ f.lt lower.value value
    | gte ↦ f.le lower.value value
    | lt ↦ false
    | lte ↦ false
  ]

  unfoldable pub upper_ok : W → Option (NumericBound W) → Bool
  upper_ok value none = true
  upper_ok value (some upper) = elim upper.comparison [
    | lt ↦ f.lt value upper.value
    | lte ↦ f.le value upper.value
    | gt ↦ false
    | gte ↦ false
  ]

  unfoldable pub range_matches : W → RangeFilter W → Bool
  unfolding lower_ok upper_ok
  range_matches value rf = if lower_ok value rf.lower then upper_ok value rf.upper else false

  -- `filters.iter().any(|rf| range_matches(value(), rf))`: no filter, no value.
  unfoldable pub any_matches : AppResult W → List (RangeFilter W) → AppResult Bool
  unfolding range_matches
  any_matches value [] = ok false
  any_matches value (rf ∷ filters) = do
    x ← value
    if range_matches x rf then ok true else any_matches value filters

  -- The test that a numeric column gives a row, and nothing for a string column.
  unfoldable pub row_test :
      {B : Type 0} → Column B W → List (RangeFilter W) → Option (ℕ → AppResult Bool)
  unfolding any_matches
  row_test (Column.integer v) filters =
      some λ row. any_matches (do i ← index v row; ok (f.of_int i)) filters
  row_test (Column.date_time v) filters =
      some λ row. any_matches (do i ← index v row; ok (f.of_int i)) filters
  row_test (Column.float v) filters = some λ row. any_matches (index v row) filters
  row_test (Column.string sc) filters = none

-- `iter().filter(keep)`
unfoldable pub keep_rows : (ℕ → AppResult Bool) → List ℕ → AppResult (List ℕ)
keep_rows keep [] = ok []
keep_rows keep (row ∷ rows) = do
  kept ← keep row
  rest ← keep_rows keep rows
  ok (if kept then row ∷ rest else rest)

module _ {B : Type 0} ⦃m : Bitmap B⦄ where
  unfoldable pub retain_numeric : B → (ℕ → AppResult Bool) → AppResult B
  unfolding keep_rows
  retain_numeric bitmap keep = do rows ← keep_rows keep (m.iter bitmap); ok (m.collect rows)

  -- `if let Some(code) = … { if let Some(p) = … { union |= p; } }`
  unfoldable pub add_postings : StringDictionary B → Text → B → B
  unfolding code_of postings_of
  add_postings d value union = elim (code_of d value) [
    | none ↦ union
    | some code ↦ elim (postings_of d code) [ none ↦ union | some p ↦ m.union union p ]
  ]

  -- `for value in &sm.values { … }`
  unfoldable pub union_postings : StringDictionary B → List Text → B → B
  unfolding add_postings
  union_postings d [] union = union
  union_postings d (value ∷ values) union = union_postings d values (add_postings d value union)

  -- `if bitmap.is_empty() { return bitmap; }`
  abbrev pub unless_empty : B → Flow B
  unless_empty bitmap = if m.is_empty bitmap then Flow.return bitmap else Flow.next bitmap

  -- The next loop, unless the one before returned.
  abbrev pub and_then : AppResult (Flow B) → (B → AppResult (Flow B)) → AppResult (Flow B)
  and_then r k = r >>= elim [ Flow.next b ↦ k b | Flow.return b ↦ ok (Flow.return b) ]

  -- Null rows hold dummy values that must not match any range.
  unfoldable pub without_nulls : Option B → B → B
  without_nulls none bitmap = bitmap
  without_nulls (some nulls) bitmap = m.diff bitmap nulls

  unfoldable pub range_test : Option (ℕ → AppResult Bool) → Option B → B → AppResult (Flow B)
  unfolding retain_numeric without_nulls
  range_test none nulls bitmap = ok (Flow.return m.new)
  range_test (some keep) nulls bitmap = do
    kept ← retain_numeric bitmap keep
    ok (unless_empty (without_nulls nulls kept))

  abbrev pub flow_bitmap : Flow B → B
  flow_bitmap (Flow.next b) = b
  flow_bitmap (Flow.return b) = b

module _ {B W : Type 0} ⦃m : Bitmap B⦄ where
  unfoldable pub must_step : Option (Column B W) → StringMatch → B → Flow B
  unfolding union_postings
  must_step (some (Column.string sc)) sm bitmap =
      unless_empty (m.inter bitmap (union_postings sc.dictionary sm.values m.new))
  must_step _ sm bitmap = Flow.return m.new

  unfoldable pub must_not_step : Option (Column B W) → StringMatch → B → Flow B
  unfolding union_postings
  must_not_step (some (Column.string sc)) sm bitmap =
      unless_empty (m.diff bitmap (union_postings sc.dictionary sm.values m.new))
  must_not_step _ sm bitmap = Flow.next bitmap

  unfoldable pub must_loop : ColumnStore B W → Map Text StringMatch → B → AppResult (Flow B)
  unfolding must_step column
  must_loop st [] bitmap = ok (Flow.next bitmap)
  must_loop st ((name, sm) ∷ rest) bitmap =
      and_then (do c ← column st name; ok (must_step c sm bitmap)) (must_loop st rest)

  unfoldable pub must_not_loop : ColumnStore B W → Map Text StringMatch → B → AppResult (Flow B)
  unfolding must_not_step column
  must_not_loop st [] bitmap = ok (Flow.next bitmap)
  must_not_loop st ((name, sm) ∷ rest) bitmap =
      and_then (do c ← column st name; ok (must_not_step c sm bitmap)) (must_not_loop st rest)

module _ {B W : Type 0} ⦃m : Bitmap B⦄ ⦃f : Float W⦄ where
  unfoldable pub range_step : ColumnStore B W → Text → List (RangeFilter W) → B → AppResult (Flow B)
  unfolding row_test range_test column null_rows_for
  range_step st name filters bitmap = do
    c ← column st name
    range_test (elim c [ none ↦ none | some col ↦ row_test col filters ]) (null_rows_for st name)
        bitmap

  unfoldable pub range_loop :
      ColumnStore B W → Map Text (List (RangeFilter W)) → B → AppResult (Flow B)
  unfolding range_step
  range_loop st [] bitmap = ok (Flow.next bitmap)
  range_loop st ((name, filters) ∷ rest) bitmap =
      and_then (range_step st name filters bitmap) (range_loop st rest)

  -- The rows are cast to `u32`.
  unfoldable pub evaluate_filter : Query W → ColumnStore B W → ℕ → ℕ → AppResult B
  unfolding must_loop must_not_loop range_loop
  evaluate_filter query st start end = do
    let bitmap = m.insert_range (start % 2 ^ 32) (end % 2 ^ 32) m.new
    flow ←
        and_then (and_then (must_loop st query.must bitmap) (must_not_loop st query.must_not))
          (range_loop st query.ranges)
    ok (flow_bitmap flow)

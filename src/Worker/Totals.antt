-- ===== src/Worker/Totals.antt =====
-- `aggregate` and `execute` of execution/worker.rs, against the table.
use stats_cruncher.Base.{
  ℕ, zero, suc, ◌+◌, ◌≤◌, ◌<◌, ◌≡◌, refl, sym, ◌∙◌, ap, inl, inr, Bool, true, none, some, List, [],
  ◌∷◌, arith, length, filter, range, All, ok, Bool-cases, Option-cases,
}
use stats_cruncher.Text.{Text, beq}
use stats_cruncher.Map.{get, text_key}
use stats_cruncher.Float.{Float}
use stats_cruncher.Bitmap.{Bitmap, IsBitmap}
use stats_cruncher.Query.{Query, Response}
use stats_cruncher.Storage.Column.{Column}
use stats_cruncher.Storage.Store.{ColumnStore, column}
use stats_cruncher.Storage.Table.{Cell, Table, Represents, position, has_name}
use stats_cruncher.Worker.Meaning.{satisfies}
use stats_cruncher.Query.Stats.{stats_of}
use stats_cruncher.Worker.Aggregate.{aggregate}
use stats_cruncher.Worker.{execute}
use stats_cruncher.Worker.Filter.{evaluate_filter_lem}
use stats_cruncher.Worker.Folds.{numbers, IsNumeric}
use stats_cruncher.Worker.Columns.{aggregate_columns_lem}

position-has_name :
    (name : Text) (names : List Text) (i : ℕ)
    → position name names ≡ some i
    → has_name name names ≡ true
position-has_name name [] i e = cc
position-has_name name (n ∷ names) i e = elim (Bool-cases (beq n name)) [
  | inl same ↦ rw same refl
  | inr other ↦ elim (Option-cases (position name names)) [
    | inl q ↦ ground arith
    | inr (j, q) ↦ rw other (position-has_name name names j q)
  ]
]

filter-bound :
    (p : ℕ → Bool) (start count bound : ℕ)
    → start + count ≤ bound
    → All (λ row. row < bound) (filter p (range start count))
filter-bound p start zero bound h = tt
filter-bound p start (suc count) bound h =
    let rest = filter-bound p (suc start) count bound (omega arith) in
    elim (Bool-cases (p start)) [
      | inl kept ↦ rw kept (omega arith, rest)
      | inr dropped ↦ rw dropped rest
    ]

module _ {B W : Type 0} ⦃m : Bitmap B⦄ ⦃f : Float W⦄ (st : ColumnStore B W) (table : Table W)
    (r : Represents st table) where
  -- A column has its name among those of the store.
  has_name_of_column :
      (name : Text) (c : Column B W) → column st name ≡ ok (some c) → has_name name st.names ≡ true
  unfolding column
  has_name_of_column name c e = elim (Option-cases (position name st.names)) [
    | inl q ↦ absurd (no_column c (sym (column_none (r.lookups name ∙ q)) ∙ e))
    | inr (i, q) ↦ position-has_name name st.names i q
  ]
    where
      column_none : get name st.lookup ≡ none → column st name ≡ ok none
      column_none q = rw (q, column) refl

      no_column : (c : Column B W) → ok none ≡ ok (some c) → ⊥
      no_column c h = cc

  module _ (laws : IsBitmap B) where
    -- A task over a range of rows of a store that represents a table succeeds; its partial result
    -- counts the rows of the range that satisfy the query, and has for each numeric column the
    -- statistics of the cells of these rows that are not null.
    pub execute_lem :
        (query : Query W) (chunk_id query_id start count : ℕ) (string_value_counts : Bool)
        → start + count ≤ st.row_count
        → (partial : Response W) × (execute
              (record {
                chunk_id = chunk_id;
                query_id = query_id;
                query = query;
                start = start;
                end = start + count;
              })
              st
              string_value_counts
            ≡ ok partial)
          × (partial.matched_rows ≡ length (filter (satisfies query table) (range start count)))
          × ((name : Text) (c : Column B W) (cells : List (Cell W))
              → column st name ≡ ok (some c)
              → IsNumeric c
              → get name table ≡ some cells
              → get name partial.numeric
                ≡ some
                    (stats_of (numbers cells (filter (satisfies query table) (range start count)))))
    unfolding execute aggregate
    execute_lem query chunk_id query_id start count string_value_counts h =
        let (b, e, rows) = evaluate_filter_lem laws st table r query start count h in
        let bound : All (λ row. row < st.row_count) (m.iter b) =
          rw rows (filter-bound (satisfies query table) start count st.row_count h) in
        let (partial, e', n, has) =
          aggregate_columns_lem st table r b string_value_counts st.names
            (record { matched_rows = m.len b; numeric = []; column_types = []; string_counts = [] })
            bound in
        (
          partial,
          rw e e',
          n ∙ laws.len-iter b ∙ ap length rows,
          λ name c cells at k t.
              has name (inl (has_name_of_column name c at)) c cells at k t
              ∙ ap (λ z. some (stats_of (numbers cells z))) rows,
        )

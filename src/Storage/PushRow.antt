-- ===== src/Storage/PushRow.antt =====
-- `push_row` of storage.rs against the table.
use stats_cruncher.Base.{
  ℕ, suc, ◌+◌, ◌^◌, ◌<◌, ◌≡◌, refl, ◌∙◌, ap, subst, inl, inr, Bool, true, false, not, ◌&&◌, ◌||◌,
  Option, List, [], ◌∷◌, ◌++◌, arith, ◌==◌, if◌then◌else◌, length, length-append, get_elem?-snoc,
  AppResult, ok, err, ◌>>=◌, Option-cases, get_elem?-none, AppError, >>=-eq-ok, ok-injective,
  ==_iff, lt→ltb,
}
use stats_cruncher.Base.Int.{ℤ}
use stats_cruncher.Text.{Text, beq, beq_iff}
use stats_cruncher.Map.{Map, get, get-insert, eq_refl, text_key}
use stats_cruncher.Float.{Float}
use stats_cruncher.Bitmap.{Bitmap, IsBitmap}
use stats_cruncher.Storage.Column.{Column}
use stats_cruncher.Storage.Coerce.{RawValue, push_value}
use stats_cruncher.Storage.Store.{ColumnStore, note_null, push_values, push_row, count_row}
use stats_cruncher.Storage.Table.{
  Cell, Table, is_null_cell, Holds, null_test, NullsWithin, Represents, Distinct, has_name,
}
use stats_cruncher.Storage.NullRows.{push_values-NullsWithin, NullsWithin-weaken}
use stats_cruncher.Storage.Push.{cell_of, push_value-HoldsValues}

-- One more cell at the end of each column.
unfoldable pub add_row : {W : Type 0} → Table W → List (Cell W) → Table W
add_row [] cells = []
add_row (column ∷ table) [] = column ∷ table
add_row ((name, cells) ∷ table) (cell ∷ row) = (name, cells ++ cell ∷ []) ∷ add_row table row

module _ {B : Type 0} ⦃m : Bitmap B⦄ where
  -- The null rows once a value, or none, has been pushed under a name.
  abbrev after_push : Bool → Text → ℕ → Map Text B → Map Text B
  after_push has_value name row nulls = if has_value then nulls else note_null name row nulls

  get-after_push_ne :
      (has_value : Bool) (name n : Text) (row : ℕ) (nulls : Map Text B)
      → beq name n ≡ false
      → get n (after_push has_value name row nulls) ≡ get n nulls
  unfolding note_null
  get-after_push_ne true name n row nulls h = refl
  get-after_push_ne false name n row nulls h = rw (get-insert, h)

  null_test-after_push :
      (laws : IsBitmap B) (has_value : Bool) (name : Text) (row : ℕ) (nulls : Map Text B) (r : ℕ)
      → null_test (get name (after_push has_value name row nulls)) r
        ≡ ((not has_value && row == r) || null_test (get name nulls) r)
  unfolding note_null
  null_test-after_push laws true name row nulls r = refl
  null_test-after_push laws false name row nulls r = elim (Option-cases (get name nulls)) [
    | inl e ↦
        rw (get-insert, eq_refl name, e)
          (laws.contains-insert row r m.new ∙ ap (◌||◌ (row == r)) (laws.contains-new r))
    | inr (b, e) ↦ rw (get-insert, eq_refl name, e) (laws.contains-insert row r b)
  ]

module _ {B W : Type 0} ⦃m : Bitmap B⦄ ⦃f : Float W⦄ where
  -- What is pushed under another name leaves the columns as they are.
  Holds-after_push :
      (has_value : Bool) (rows row : ℕ) (name : Text) (nulls : Map Text B) (names : List Text)
      (columns : List (Column B W)) (table : Table W)
      → has_name name names ≡ false
      → Holds rows nulls names columns table
      → Holds rows (after_push has_value name row nulls) names columns table
  Holds-after_push v rows row name nulls [] [] [] p h = tt
  Holds-after_push v rows row name nulls (n ∷ names) (c ∷ columns) ((k, cells) ∷ table) p h =
      let apart : beq name n ≡ false = ground (arith, beq_iff name n, beq_iff n name) in
      (
        h.0,
        h.1,
        h.2,
        rw (get-after_push_ne v name n row nulls apart) h.3,
        Holds-after_push v rows row name nulls names columns table (ground arith) h.4,
      )
  Holds-after_push v rows row name nulls _ _ _ p h = absurd h

module _ {B W : Type 0} ⦃m : Bitmap B⦄ ⦃f : Float W⦄ (parse_rfc3339 : Text → Option ℤ) where
  -- The cells of a row, column by column, or the first error.
  unfoldable pub cells_of : List (Column B W) → List (RawValue W) → AppResult (List (Cell W))
  cells_of (c ∷ columns) (value ∷ values) = do
    cell ← cell_of parse_rfc3339 c value
    cells ← cells_of columns values
    ok (cell ∷ cells)
  cells_of [] [] = ok []
  cells_of _ _ = err AppError.ingestion

  push_values-step :
      (c c' : Column B W) (columns columns' : List (Column B W)) (name : Text) (names : List Text)
      (nulls nulls' : Map Text B) (value : RawValue W) (values : List (RawValue W)) (row : ℕ)
      (has_value : Bool)
      → push_value parse_rfc3339 c value row ≡ ok (has_value, c')
      → push_values parse_rfc3339 columns names (after_push has_value name row nulls) values row
        ≡ (ok tt, columns', nulls')
      → push_values parse_rfc3339 (c ∷ columns) (name ∷ names) nulls (value ∷ values) row
        ≡ (ok tt, c' ∷ columns', nulls')
  unfolding push_values
  push_values-step c c' columns columns' name names nulls nulls' value values row has_value p q =
      rw (p, push_values) (rw q refl)

  module _ (laws : IsBitmap B) where
    abbrev Pushed :
        List (Column B W)
        → List Text
        → Map Text B
        → List (RawValue W)
        → ℕ
        → Table W
        → List (Cell W)
        → Type 0
    Pushed columns names nulls values row table cells =
        (columns' : List (Column B W)) × (nulls' : Map Text B) × (push_values parse_rfc3339 columns
            names nulls values row
          ≡ (ok tt, columns', nulls'))
        × Holds (row + 1) nulls' names columns' (add_row table cells)
        × ((n : Text) → has_name n names ≡ false → get n nulls' ≡ get n nulls)

    push_values-Pushed :
        (columns : List (Column B W)) (names : List Text) (nulls : Map Text B)
        (values : List (RawValue W)) (row : ℕ) (table : Table W) (cells : List (Cell W))
        → Holds row nulls names columns table
        → Distinct names
        → row < 2 ^ 32
        → cells_of columns values ≡ ok cells
        → Pushed columns names nulls values row table cells
    unfolding push_values cells_of add_row
    push_values-Pushed [] [] nulls [] row [] cells h d b e = ([], nulls, refl, tt, λ n p. refl)
    push_values-Pushed (c ∷ columns) (name ∷ names) nulls (value ∷ values) row ((k, column) ∷ table)
          cells h d b e =
        let (cell, p, q) =
          >>=-eq-ok (cell_of parse_rfc3339 c value)
            (λ cell. cells_of columns values >>= λ rest. ok (cell ∷ rest)) e in
        let (rest, p', q') = >>=-eq-ok (cells_of columns values) (λ rest. ok (cell ∷ rest)) q in
        let (c', pushed, values_hold) =
          push_value-HoldsValues parse_rfc3339 laws c column value cell row h.2 h.1 b p in
        let v = not (is_null_cell cell) in
        let nulls1 = after_push v name row nulls in
        let (columns', nulls', loop, tail, keeps) =
          push_values-Pushed columns names nulls1 values row table rest
            (Holds-after_push v row row name nulls names columns table d.0 h.4) d.1 b p' in
        rw (← ok-injective _ _ q') (
          c' ∷ columns',
          nulls',
          push_values-step c c' columns columns' name names nulls nulls' value values row v pushed
              loop,
          (
            h.0,
            omega (arith, length-append column (cell ∷ []), h.1),
            values_hold,
            λ r. rw (keeps name d.0) (
                null_test-after_push laws v name row nulls r
                ∙ ground
                    (arith, h.1, h.3 r, get_elem?-snoc column cell r, get_elem?-none column r)),
            tail,
          ),
          λ n other. keeps n (ground arith) ∙ get-after_push_ne v name n row nulls (ground arith),
        )
    push_values-Pushed _ _ nulls _ row _ cells h d b e = ground arith

    length-cells_of :
        (columns : List (Column B W)) (values : List (RawValue W)) (cells : List (Cell W))
        → cells_of columns values ≡ ok cells
        → length values ≡ length columns
    unfolding cells_of
    length-cells_of [] [] cells e = refl
    length-cells_of (c ∷ columns) (value ∷ values) cells e =
        let (cell, p, q) =
          >>=-eq-ok (cell_of parse_rfc3339 c value)
            (λ cell. cells_of columns values >>= λ rest. ok (cell ∷ rest)) e in
        let (rest, p', q') = >>=-eq-ok (cells_of columns values) (λ rest. ok (cell ∷ rest)) q in
        ap suc (length-cells_of columns values rest p')
    length-cells_of _ _ cells e = cc

    push_row_ok :
        (st : ColumnStore B W) (values : List (RawValue W)) (columns' : List (Column B W))
        (nulls' : Map Text B)
        → length values ≡ length st.columns
        → push_values parse_rfc3339 st.columns st.names st.null_rows values st.row_count
          ≡ (ok tt, columns', nulls')
        → push_row parse_rfc3339 values st
          ≡ count_row (ok tt) (record st { columns = columns'; null_rows = nulls' })
    unfolding push_row
    push_row_ok st values columns' nulls' l p =
        rw ((==_iff (length values) (length st.columns)).1 l, p) refl

    -- A row whose values all have cells in their columns is pushed as that row of cells: the store then
    -- represents the table with the row at the end, if `row_count` has room for it.
    pub push_row-Represents :
        (st : ColumnStore B W) (table : Table W) (values : List (RawValue W))
        (cells : List (Cell W))
        → Represents st table
        → cells_of st.columns values ≡ ok cells
        → st.row_count + 1 < 2 ^ 32
        → (st' : ColumnStore B W) × (push_row parse_rfc3339 values st ≡ (ok tt, st'))
          × Represents st' (add_row table cells)
          × (st'.row_count ≡ st.row_count + 1)
    unfolding count_row
    push_row-Represents st table values cells r e room =
        let (columns', nulls', loop, holds, _) =
          push_values-Pushed st.columns st.names st.null_rows values st.row_count table cells
            r.holds r.distinct r.row_bound e in
        let pushed = record st { columns = columns'; null_rows = nulls' } in
        (
          record pushed { row_count = st.row_count + 1 },
          push_row_ok st values columns' nulls' (length-cells_of st.columns values cells e) loop
              ∙ rw (lt→ltb _ _ room) refl,
          record {
            holds = holds;
            nulls_within = subst (NullsWithin (st.row_count + 1)) (ap (λ x. x.2) loop) (
                push_values-NullsWithin laws parse_rfc3339 st.columns st.names st.null_rows values
                  st.row_count (NullsWithin-weaken laws st.row_count st.null_rows r.nulls_within));
            lookups = r.lookups;
            distinct = r.distinct;
            hidden_flags = r.hidden_flags;
            row_bound = room;
            chunks = r.chunks;
          },
          refl,
        )

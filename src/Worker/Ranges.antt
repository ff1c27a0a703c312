-- ===== src/Worker/Ranges.antt =====
-- The range loop of `evaluate_filter` against the table.
use stats_cruncher.Base.{
  ℕ, zero, suc, ◌<◌, ◌≡◌, refl, sym, ◌∙◌, ap, inl, inr, Bool, true, false, not, ◌&&◌, Option, none,
  some, List, [], ◌∷◌, map, arith, length, get_elem?, elem, any, filter, All, AppResult, ok, ◌>>=◌,
  get_elem?_total, get_elem?-map,
}
use stats_cruncher.Text.{Text}
use stats_cruncher.Map.{Map, get, text_key}
use stats_cruncher.Float.{Float}
use stats_cruncher.Bitmap.{Bitmap, IsBitmap}
use stats_cruncher.Bitmap.Sets.{elem-filter}
use stats_cruncher.Query.{RangeFilter, NumericBound}
use stats_cruncher.Storage.Column.{Column}
use stats_cruncher.Storage.Store.{ColumnStore, index, null_rows_for}
use stats_cruncher.Storage.Table.{
  Cell, Table, HoldsValues, HoldsNulls, null_test, Represents, test_at, is_null_cell, IsInteger,
  IsFloatCell, IsString, IsDateTime, int_cell, float_cell,
}
use stats_cruncher.Storage.Lookup.{column_lem}
use stats_cruncher.Worker.Evaluate.{
  Flow, unless_empty, keep_rows, retain_numeric, without_nulls, row_test, range_test, range_step,
  range_loop, any_matches, range_matches, lower_ok, upper_ok,
}
use stats_cruncher.Worker.Meaning.{
  cell_passes, in_range, in_ranges, ranges_hold, above_bound, below_bound, meets,
}
use stats_cruncher.Worker.Flow.{
  Runs, Runs-and_then, Selects-unless_empty, test_at_never, cell_passes-none, cell_passes-some,
  Runs-congr,
}
use stats_cruncher.Worker.Strings.{nothing}

module _ {W : Type 0} ⦃f : Float W⦄ where
  lower_ok-meets : (x : W) (o : Option (NumericBound W)) → lower_ok x o ≡ meets (above_bound x) o
  unfolding lower_ok
  lower_ok-meets x none = refl
  lower_ok-meets x (some b) = refl

  upper_ok-meets : (x : W) (o : Option (NumericBound W)) → upper_ok x o ≡ meets (below_bound x) o
  unfolding upper_ok
  upper_ok-meets x none = refl
  upper_ok-meets x (some b) = refl

  -- A value passes a filter exactly when it meets both bounds.
  pub range_matches-eq-in_range : (x : W) (rf : RangeFilter W) → range_matches x rf ≡ in_range x rf
  unfolding range_matches
  range_matches-eq-in_range x rf =
      ground (arith, lower_ok-meets x rf.lower, upper_ok-meets x rf.upper)

  any_matches-ok :
      (x : W) (filters : List (RangeFilter W))
      → any_matches (ok x) filters ≡ ok (any (in_range x) filters)
  unfolding any_matches
  any_matches-ok x [] = refl
  any_matches-ok x (rf ∷ filters) =
      rw (range_matches-eq-in_range x rf) (ground (arith, any_matches-ok x filters))

  test_at-some :
      (t : Cell W → Bool) (cells : List (Cell W)) (x : ℕ) {c : Cell W}
      → get_elem? cells x ≡ some c
      → t c ≡ test_at t cells x
  test_at-some t cells x e = ground arith

  -- The test of a row reads the number that the column stores for its cell.
  any_matches-stored :
      {A : Type 0} (g : Cell W → A) (h : A → W) (v : List A) (cells : List (Cell W))
      (filters : List (RangeFilter W)) (x : ℕ)
      → v ≡ map g cells
      → x < length cells
      → any_matches (index v x >>= λ a. ok (h a)) filters
        ≡ ok (test_at (λ c. any (in_range (h (g c))) filters) cells x)
  any_matches-stored g h v cells filters x e l =
      let (c, at) = get_elem?_total cells x l in
      rw (e, index, get_elem?-map g cells x at)
        (any_matches-ok (h (g c)) filters ∙ ap ok (test_at-some _ cells x at))

  any_matches-floats :
      (v : List W) (cells : List (Cell W)) (filters : List (RangeFilter W)) (x : ℕ)
      → v ≡ map float_cell cells
      → x < length cells
      → any_matches (index v x) filters
        ≡ ok (test_at (λ c. any (in_range (float_cell c)) filters) cells x)
  any_matches-floats v cells filters x e l =
      let (c, at) = get_elem?_total cells x l in
      rw (e, index, get_elem?-map float_cell cells x at)
        (any_matches-ok (float_cell c) filters ∙ ap ok (test_at-some _ cells x at))

  -- What a column stores for null is taken out with the null rows.
  drop_nulls :
      (P : Cell W → Type 0) (t u : Cell W → Bool) (cells : List (Cell W)) (x : ℕ)
      → All P cells
      → ((c : Cell W) → P c → (t c && not (is_null_cell c)) ≡ u c)
      → (test_at t cells x && not (test_at is_null_cell cells x)) ≡ test_at u cells x
  drop_nulls P t u [] x a h = refl
  drop_nulls P t u (c ∷ cells) zero a h = h c a.0
  drop_nulls P t u (c ∷ cells) (suc x) a h = drop_nulls P t u cells x a.1 h

  integers_in_ranges :
      (filters : List (RangeFilter W)) (c : Cell W)
      → IsInteger c
      → (any (in_range (f.of_int (int_cell c))) filters && not (is_null_cell c))
        ≡ in_ranges filters c
  integers_in_ranges filters Cell.null h = ground arith
  integers_in_ranges filters (Cell.integer i) h = ground arith
  integers_in_ranges filters _ h = elim h [ ]

  date_times_in_ranges :
      (filters : List (RangeFilter W)) (c : Cell W)
      → IsDateTime c
      → (any (in_range (f.of_int (int_cell c))) filters && not (is_null_cell c))
        ≡ in_ranges filters c
  date_times_in_ranges filters Cell.null h = ground arith
  date_times_in_ranges filters (Cell.date_time i) h = ground arith
  date_times_in_ranges filters _ h = elim h [ ]

  floats_in_ranges :
      (filters : List (RangeFilter W)) (c : Cell W)
      → IsFloatCell c
      → (any (in_range (float_cell c)) filters && not (is_null_cell c)) ≡ in_ranges filters c
  floats_in_ranges filters Cell.null h = ground arith
  floats_in_ranges filters (Cell.float x) h = ground arith
  floats_in_ranges filters _ h = elim h [ ]

  strings_in_ranges :
      (filters : List (RangeFilter W)) (c : Cell W) → IsString c → in_ranges filters c ≡ false
  strings_in_ranges filters Cell.null h = refl
  strings_in_ranges filters (Cell.str s) h = refl
  strings_in_ranges filters _ h = elim h [ ]

keep_rows-eq-filter :
    (keep : ℕ → AppResult Bool) (p : ℕ → Bool) (rows : List ℕ)
    → ((x : ℕ) → elem x rows ≡ true → keep x ≡ ok (p x))
    → keep_rows keep rows ≡ ok (filter p rows)
unfolding keep_rows
keep_rows-eq-filter keep p [] h = refl
keep_rows-eq-filter keep p (row ∷ rows) h =
    rw (h row (ground arith), keep_rows-eq-filter keep p rows (λ x e. h x (ground arith))) refl

module _ {B : Type 0} ⦃m : Bitmap B⦄ (laws : IsBitmap B) where
  contains-retain_numeric :
      (b : B) (keep : ℕ → AppResult Bool) (p : ℕ → Bool)
      → ((x : ℕ) → m.contains b x ≡ true → keep x ≡ ok (p x))
      → (b' : B) × (retain_numeric b keep ≡ ok b')
        × ((x : ℕ) → m.contains b' x ≡ (m.contains b x && p x))
  unfolding retain_numeric
  contains-retain_numeric b keep p h = (
    m.collect (filter p (m.iter b)),
    rw (keep_rows-eq-filter keep p (m.iter b) (λ x e. h x (laws.contains-iter b x ∙ e))) refl,
    λ x.
        laws.contains-collect (filter p (m.iter b)) x
        ∙ elem-filter p (m.iter b) x
        ∙ ap (λ t. t && p x) (sym (laws.contains-iter b x)),
  )

  contains-without_nulls :
      (nulls : Option B) (b : B) (x : ℕ)
      → m.contains (without_nulls nulls b) x ≡ (m.contains b x && not (null_test nulls x))
  unfolding without_nulls
  contains-without_nulls none b x = ground arith
  contains-without_nulls (some n) b x = laws.contains-diff b n x

  Runs-range_test :
      (keep : ℕ → AppResult Bool) (p q : ℕ → Bool) (nulls : Option B) (b : B)
      → ((x : ℕ) → m.contains b x ≡ true → keep x ≡ ok (p x))
      → ((x : ℕ) → (p x && not (null_test nulls x)) ≡ q x)
      → Runs b q (range_test (some keep) nulls b)
  unfolding range_test
  Runs-range_test keep p q nulls b h k =
      let (b', e, s) = contains-retain_numeric b keep p h in
      rw e (
        unless_empty (without_nulls nulls b'),
        refl,
        Selects-unless_empty laws b (without_nulls nulls b') q
            λ x. ground (arith, contains-without_nulls nulls b' x, s x, k x),
      )

module _ {B W : Type 0} ⦃m : Bitmap B⦄ ⦃f : Float W⦄ (laws : IsBitmap B) where
  Runs-column :
      (c : Column B W) (cells : List (Cell W)) (filters : List (RangeFilter W)) (nulls : Option B)
      (b : B)
      → HoldsValues c cells
      → HoldsNulls nulls cells
      → ((x : ℕ) → m.contains b x ≡ true → x < length cells)
      → Runs b (test_at (in_ranges filters) cells) (range_test (row_test c filters) nulls b)
  unfolding row_test range_test
  Runs-column (Column.integer v) cells filters nulls b h n bound =
      Runs-range_test laws _ _ _ nulls b
        (λ x e. any_matches-stored int_cell f.of_int v cells filters x h.0 (bound x e))
        λ x. rw (n x) (drop_nulls IsInteger _ _ cells x h.1 (integers_in_ranges filters))
  Runs-column (Column.date_time v) cells filters nulls b h n bound =
      Runs-range_test laws _ _ _ nulls b
        (λ x e. any_matches-stored int_cell f.of_int v cells filters x h.0 (bound x e))
        λ x. rw (n x) (drop_nulls IsDateTime _ _ cells x h.1 (date_times_in_ranges filters))
  Runs-column (Column.float v) cells filters nulls b h n bound =
      Runs-range_test laws _ _ _ nulls b
        (λ x e. any_matches-floats v cells filters x h.0 (bound x e))
        λ x. rw (n x) (drop_nulls IsFloatCell _ _ cells x h.1 (floats_in_ranges filters))
  Runs-column (Column.string sc) cells filters nulls b h n bound = (
    Flow.return m.new,
    refl,
    nothing laws b _
        λ x. test_at_never IsString (in_ranges filters) cells x h.3 (strings_in_ranges filters),
  )

  module _ (st : ColumnStore B W) (table : Table W) (r : Represents st table) where
    Runs-range_step :
        (name : Text) (filters : List (RangeFilter W)) (b : B)
        → ((x : ℕ) → m.contains b x ≡ true → x < st.row_count)
        → Runs b (cell_passes (in_ranges filters) table name) (range_step st name filters b)
    unfolding range_step null_rows_for
    Runs-range_step name filters b bound = elim (column_lem st table name r) [
      | inl (e, q) ↦
          rw (e, range_step)
            (Flow.return m.new, refl, nothing laws b _ (λ x. cell_passes-none _ table name x q))
      | inr (c, cells, e, q, h, n, l) ↦
          rw (e, range_step)
            (Runs-congr b _ _ _ (λ x. cell_passes-some _ table name cells x q)
              (Runs-column c cells filters (get name st.null_rows) b h n (λ x p. rw l (bound x p))))
    ]

    -- The range loop keeps the rows that meet every clause.
    pub Runs-range_loop :
        (clauses : Map Text (List (RangeFilter W))) (b : B)
        → ((x : ℕ) → m.contains b x ≡ true → x < st.row_count)
        → Runs b (ranges_hold table clauses) (range_loop st clauses b)
    unfolding range_loop
    Runs-range_loop [] b bound = (Flow.next b, refl, λ x. ground arith)
    Runs-range_loop ((name, filters) ∷ rest) b bound =
        Runs-and_then b _ _ _ _ (Runs-range_step name filters b bound)
          λ b' s. Runs-range_loop rest b' (λ x e. bound x (ground (arith, s x)))

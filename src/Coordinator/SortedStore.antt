-- ===== src/Coordinator/SortedStore.antt =====
-- storage.rs and execution/coordinator.rs: what `sort_by` makes of a store, and the skip masks of the result.
use stats_cruncher.Base.{
  range, err, AppError, no_err, Option-cases, ◌>>=◌, ℕ, ◌≡◌, ◌≢◌, refl, sym, ◌∙◌, ap, subst, inl,
  inr, true, false, none, some, List, [], ◌∷◌, arith, ◌==◌, ==_iff, Bool-cases, length, get_elem?,
  ok, ok-injective,
}
use mathlib.Core.Option.{some-injective}
use stats_cruncher.Text.{Text}
use stats_cruncher.Map.{Map, get, text_key}
use stats_cruncher.Float.{Float, IsFloat}
use stats_cruncher.Bitmap.{Bitmap, IsBitmap}
use stats_cruncher.Config.{ColumnType}
use stats_cruncher.Storage.Column.{Column}
use stats_cruncher.Storage.Kinds.{kind}
use stats_cruncher.Storage.Lookup.{column_lem, column-index, column-missing, index_ok}
use stats_cruncher.Storage.Store.{ColumnStore, column}
use stats_cruncher.Storage.Table.{Cell, Table, Holds, HoldsValues, Represents}
use stats_cruncher.Storage.Sort.{sort_by, partition_keys, sort_rows}
use stats_cruncher.Storage.Keys.{rows_in}
use stats_cruncher.Storage.Permuted.{IsPermutation, pick, permuted, get-permuted}
use stats_cruncher.Storage.KeyCells.{HasNoNan}
use stats_cruncher.Storage.SortBy.{SortedBy, sort_with, sort_by-SortedBy}
use stats_cruncher.Coordinator.Skips.{SkipsSoundly}
use stats_cruncher.Coordinator.Unzoned.{unzoned-SkipsSoundly}
use stats_cruncher.Coordinator.InOrder.{IsInOrder, SortedBy-IsInOrder, SortedBy-SkipsSoundly}

Holds-none :
    {B W : Type 0} ⦃m : Bitmap B⦄ ⦃f : Float W⦄ (nulls : Map Text B) (names : List Text)
    (columns : List (Column B W)) (table : Table W)
    → Holds 0 nulls names columns table
    → permuted [] table ≡ table
Holds-none nulls [] [] [] h = refl
Holds-none nulls (name ∷ names) (c ∷ columns) ((n, []) ∷ table) h =
    ap (λ rest. (n, []) ∷ rest) (Holds-none nulls names columns table h.4)
Holds-none nulls (name ∷ names) (c ∷ columns) ((n, cell ∷ cells) ∷ table) h =
    absurd (omega (arith, h.1))
Holds-none nulls _ _ _ h = absurd h

module _ {B W : Type 0} ⦃m : Bitmap B⦄ ⦃f : Float W⦄ (st : ColumnStore B W) where
  -- What a store that has been sorted is: its rows are permuted, and its masks are sound.
  abbrev pub IsSortedSoundly : Table W → ColumnStore B W → Type 0
  IsSortedSoundly table st' =
      (perm : List ℕ) × IsPermutation st.row_count perm
      × Represents st' (permuted perm table)
      × (st'.row_count ≡ st.row_count)
      × SkipsSoundly st' (permuted perm table)

  nil-IsPermutation : (st.row_count == 0) ≡ true → IsPermutation st.row_count []
  nil-IsPermutation empty = record {
    same_length = ground (arith, empty);
    within = tt;
    once = λ row l. absurd (ground (arith, empty, l));
  }

  same_table :
      (table : Table W)
      → Represents st table
      → (st.row_count == 0) ≡ true
      → permuted [] table ≡ table
  same_table table r empty = Holds-none st.null_rows st.names st.columns table (
      subst (λ n. Holds n st.null_rows st.names st.columns table) ((==_iff st.row_count 0).0 empty)
        r.holds)

  -- Without rows nothing changes.
  sort_by_none :
      (name : Text) (idx : ℕ)
      → get name st.lookup ≡ some idx
      → (st.row_count == 0) ≡ true
      → sort_by name st ≡ ok st
  unfolding sort_by
  sort_by_none name idx e empty = rw (sort_by, e, empty) refl

  sort_by_unknown :
      (name : Text) → get name st.lookup ≡ none → sort_by name st ≡ err AppError.config
  unfolding sort_by
  sort_by_unknown name e = rw (sort_by, e) refl

  -- A store with rows is not sorted by a string column.
  sort_by_string :
      (name : Text) (idx : ℕ) (c : Column B W)
      → get name st.lookup ≡ some idx
      → get_elem? st.columns idx ≡ some c
      → (st.row_count == 0) ≡ false
      → kind c ≡ ColumnType.string
      → sort_by name st ≡ err AppError.config
  unfolding sort_by partition_keys
  sort_by_string name idx (Column.string sc) e at full k =
      rw (sort_by, e, full)
        (ap
          (λ r. r >>= λ c. partition_keys c >>= λ keys.
            sort_rows keys (range 0 st.row_count) >>= λ pairs.
            sort_with st name keys (rows_in pairs))
          (index_ok st.columns idx (Column.string sc) at))
  sort_by_string name idx (Column.integer v) e at full k = cc
  sort_by_string name idx (Column.float v) e at full k = cc
  sort_by_string name idx (Column.date_time v) e at full k = cc

module _ {B W : Type 0} ⦃m : Bitmap B⦄ ⦃f : Float W⦄ (laws : IsBitmap B) (order : IsFloat W)
    (st : ColumnStore B W) (table : Table W) (name : Text) (r : Represents st table) where
  -- A column that is found has its cells in the table.
  found_cells :
      (c : Column B W)
      → column st name ≡ ok (some c)
      → (cells : List (Cell W)) × (get name table ≡ some cells)
        × HoldsValues c cells
        × (length cells ≡ st.row_count)
  found_cells c there = elim (column_lem st table name r) [
    | inl (e, _) ↦ absurd (not_none (sym e ∙ there))
    | inr (d, cells, e, named, values, nulls, l) ↦ (
      cells,
      named,
      subst (λ x. HoldsValues x cells) (some-injective _ _ (ok-injective _ _ (sym e ∙ there)))
          values,
      l,
    )
  ]
    where
      not_none : ok none ≡ ok (some c) → ⊥
      not_none e = cc

  sorted_rows :
      (c : Column B W)
      → column st name ≡ ok (some c)
      → kind c ≢ ColumnType.string
      → (st.row_count == 0) ≡ false
      → (cells : List (Cell W)) × (st' : ColumnStore B W) × (get name table ≡ some cells)
        × (sort_by name st ≡ ok st')
        × SortedBy name cells table st st'
  sorted_rows c there numeric full =
      let (idx, e, at) = column-index st name c there in
      let (cells, named, values, l) = found_cells c there in
      let (st', done, s) =
        sort_by-SortedBy laws order st table name idx c cells r e at values l numeric full in
      (cells, st', named, done, s)

  no_rows-IsInOrder :
      (c : Column B W)
      → column st name ≡ ok (some c)
      → (st.row_count == 0) ≡ true
      → IsInOrder name (permuted [] table)
  no_rows-IsInOrder c there empty cells i j a b x y named l p q nx ny =
      let (cells', named', _, len) = found_cells c there in
      let same : cells ≡ pick Cell.null [] cells' =
        some-injective _ _ (sym named ∙ get-permuted [] table name cells' named') in
      absurd (no_cell (sym (ap (λ v. get_elem? v i) same) ∙ p))
    where
      no_cell : none ≡ some a → ⊥
      no_cell e = cc

  -- Sorting a store by a numeric column succeeds: the result represents the table with its rows
  -- permuted, each row kept whole, and the numbers in the column rise from row to row in the order of
  -- `total_cmp`.
  pub sort_by-Represents :
      (c : Column B W)
      → column st name ≡ ok (some c)
      → kind c ≢ ColumnType.string
      → (st' : ColumnStore B W) × (perm : List ℕ) × (sort_by name st ≡ ok st')
        × IsPermutation st.row_count perm
        × Represents st' (permuted perm table)
        × IsInOrder name (permuted perm table)
  sort_by-Represents c there numeric = elim (Bool-cases (st.row_count == 0)) [
    | inl empty ↦
        let (idx, e, at) = column-index st name c there in
        (
          st,
          [],
          sort_by_none st name idx e empty,
          nil-IsPermutation st empty,
          subst (Represents st) (sym (same_table st table r empty)) r,
          no_rows-IsInOrder c there empty,
        )
    | inr full ↦
        let (cells, st', named, done, s) = sorted_rows c there numeric full in
        (
          st',
          s.perm,
          done,
          s.permutes,
          s.represents,
          SortedBy-IsInOrder order st st' table name cells named s,
        )
  ]

  sorted_soundly :
      (st' : ColumnStore B W) (idx : ℕ) (c : Column B W)
      → sort_by name st ≡ ok st'
      → get name st.lookup ≡ some idx
      → column st name ≡ ok (some c)
      → ((cells : List (Cell W)) → get name table ≡ some cells → HasNoNan cells)
      → (st.row_count == 0) ≡ false
      → IsSortedSoundly st table st'
  sorted_soundly st' idx c h e there no_nan full =
      let numeric : kind c ≢ ColumnType.string = λ k.
        let (i, e', at) = column-index st name c there in
        no_err AppError.config (sym (sort_by_string st name i c e' at full k) ∙ h) in
      let (cells, sorted, named, done, s) = sorted_rows c there numeric full in
      subst (IsSortedSoundly st table) (ok-injective _ _ (sym done ∙ h)) (
        s.perm,
        s.permutes,
        s.represents,
        s.same_rows,
        SortedBy-SkipsSoundly order st sorted table name cells named (no_nan cells named) s,
      )

  -- A store without zones that has been sorted, when no number in the column is NaN: it represents the
  -- table with its rows permuted, and for every query the chunks that its zones skip have no row that
  -- satisfies it.
  pub sort_by-SkipsSoundly :
      (st' : ColumnStore B W)
      → st.zone_stats ≡ none
      → ((cells : List (Cell W)) → get name table ≡ some cells → HasNoNan cells)
      → sort_by name st ≡ ok st'
      → IsSortedSoundly st table st'
  sort_by-SkipsSoundly st' unzoned no_nan h = elim (Option-cases (get name st.lookup)) [
    | inl e ↦ absurd (no_err AppError.config (sym (sort_by_unknown st name e) ∙ h))
    | inr (idx, e) ↦ elim (Bool-cases (st.row_count == 0)) [
      | inl empty ↦
          subst (IsSortedSoundly st table)
            (ok-injective _ _ (sym (sort_by_none st name idx e empty) ∙ h))
            (
              [],
              nil-IsPermutation st empty,
              subst (Represents st) (sym (same_table st table r empty)) r,
              refl,
              unzoned-SkipsSoundly st (permuted [] table) r.chunks unzoned,
            )
      | inr full ↦ elim (column_lem st table name r) [
        | inl (missing, _) ↦ absurd (column-missing st name idx e missing)
        | inr (c, cells, there, _, _, _, _) ↦ sorted_soundly st' idx c h e there no_nan full
      ]
    ]
  ]

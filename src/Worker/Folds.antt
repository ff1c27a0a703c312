-- ===== src/Worker/Folds.antt =====
-- `fold` and `aggregate` of execution/worker.rs on one column, against the cells of the table.
use stats_cruncher.Base.{
  ℕ, zero, suc, ◌<◌, ◌≡◌, refl, subst, ◌∙◌, ap, inl, inr, Bool, true, false, ◌⊎◌, Option, none,
  some, List, [], ◌∷◌, map, arith, if◌then◌else◌, length, get_elem?, All, AppResult, ok, ◌>>=◌,
  get_elem?_total, get_elem?-map,
}
use mathlib.Core.Option.{some-injective}
use stats_cruncher.Text.{Text}
use stats_cruncher.Map.{get, text_key}
use stats_cruncher.Float.{Float}
use stats_cruncher.Bitmap.{Bitmap}
use stats_cruncher.Storage.Column.{Column}
use stats_cruncher.Storage.Store.{ColumnStore, index, null_rows_for}
use stats_cruncher.Storage.Table.{
  Cell, HoldsValues, HoldsNulls, null_test, is_null_cell, IsInteger, IsFloatCell, IsDateTime,
  int_cell, float_cell,
}
use stats_cruncher.Query.{Response, NumericStats, observe, observe_all, empty_stats}
use stats_cruncher.Query.Stats.{stats_of}
use stats_cruncher.Worker.Aggregate.{fold, fold_rows, add_numeric, aggregate_column}
use stats_cruncher.Worker.Meaning.{number_of}

module _ {W : Type 0} ⦃f : Float W⦄ where
  -- The number in a row, unless the cell is null or a text.
  abbrev pub number_at : List (Cell W) → ℕ → Option W
  number_at cells row = elim (get_elem? cells row) [ none ↦ none | some c ↦ number_of c ]

  abbrev pub numbers : List (Cell W) → List ℕ → List W
  numbers cells [] = []
  numbers cells (row ∷ rows) = elim (number_at cells row) [
    | none ↦ numbers cells rows
    | some x ↦ x ∷ numbers cells rows
  ]

  numbers-none :
      (cells : List (Cell W)) (row : ℕ) (rows : List ℕ)
      → number_at cells row ≡ none
      → numbers cells (row ∷ rows) ≡ numbers cells rows
  numbers-none cells row rows e = ground arith

  numbers-some :
      (cells : List (Cell W)) (row : ℕ) (rows : List ℕ) (x : W)
      → number_at cells row ≡ some x
      → numbers cells (row ∷ rows) ≡ x ∷ numbers cells rows
  numbers-some cells row rows x e = ground arith

  -- A row is null, or its value is read.
  abbrev ReadsRow :
      {B : Type 0} ⦃m : Bitmap B⦄ → (ℕ → AppResult W) → Option B → List (Cell W) → ℕ → Type 0
  ReadsRow value_at nulls cells row =
      ((null_test nulls row ≡ true) × (number_at cells row ≡ none))
      ⊎ ((x : W) × (null_test nulls row ≡ false)
          × (value_at row ≡ ok x)
          × (number_at cells row ≡ some x))

module _ {W : Type 0} ⦃f : Float W⦄ where
  All-at :
      (P : Cell W → Type 0) (cells : List (Cell W)) (row : ℕ) {c : Cell W}
      → All P cells
      → get_elem? cells row ≡ some c
      → P c
  All-at P [] row a e = cc
  All-at P (d ∷ cells) zero a e = subst P (some-injective _ _ e) a.0
  All-at P (d ∷ cells) (suc row) a e = All-at P cells row a.1 e

  -- What a column stores for a cell: the number, or a dummy where the cell is null.
  abbrev Stores : {A : Type 0} → (Cell W → A) → (A → W) → Cell W → Type 0
  Stores g h c =
      ((is_null_cell c ≡ true) × (number_of c ≡ none))
      ⊎ ((is_null_cell c ≡ false) × (number_of c ≡ some (h (g c))))

  integer-Stores : (c : Cell W) → IsInteger c → Stores int_cell f.of_int c
  integer-Stores Cell.null h = inl (refl, refl)
  integer-Stores (Cell.integer i) h = inr (refl, refl)
  integer-Stores _ h = elim h [ ]

  date_time-Stores : (c : Cell W) → IsDateTime c → Stores int_cell f.of_int c
  date_time-Stores Cell.null h = inl (refl, refl)
  date_time-Stores (Cell.date_time i) h = inr (refl, refl)
  date_time-Stores _ h = elim h [ ]

  float-Stores : (c : Cell W) → IsFloatCell c → Stores float_cell (λ x. x) c
  float-Stores Cell.null h = inl (refl, refl)
  float-Stores (Cell.float x) h = inr (refl, refl)
  float-Stores _ h = elim h [ ]

All-map :
    {A : Type 0} (P Q : A → Type 0) (xs : List A) → ((x : A) → P x → Q x) → All P xs → All Q xs
All-map P Q [] h a = tt
All-map P Q (x ∷ xs) h a = (h x a.0, All-map P Q xs h a.1)

index-map :
    {A B : Type 0} (g : A → B) (v : List B) (cells : List A) (row : ℕ) (c : A)
    → v ≡ map g cells
    → get_elem? cells row ≡ some c
    → index v row ≡ ok (g c)
index-map g v cells row c e at = rw (e, index, get_elem?-map g cells row at) refl

module _ {B W : Type 0} ⦃m : Bitmap B⦄ ⦃f : Float W⦄ where
  fold_rows-step :
      (value_at : ℕ → AppResult W) (nulls : Option B) (row : ℕ) (rows : List ℕ) (s : NumericStats W)
      → fold_rows value_at nulls (row ∷ rows) s ≡ (
          if null_test nulls row
          then fold_rows value_at nulls rows s
          else (value_at row >>= λ x. fold_rows value_at nulls rows (observe s x)))
  unfolding fold_rows
  fold_rows-step value_at none row rows s = refl
  fold_rows-step value_at (some n) row rows s = refl

  fold_rows-numbers :
      (value_at : ℕ → AppResult W) (nulls : Option B) (cells : List (Cell W)) (rows : List ℕ)
      (s : NumericStats W)
      → All (ReadsRow value_at nulls cells) rows
      → fold_rows value_at nulls rows s ≡ ok (observe_all s (numbers cells rows))
  unfolding observe_all
  fold_rows-numbers value_at nulls cells [] s a = unfold fold_rows in refl
  fold_rows-numbers value_at nulls cells (row ∷ rows) s (inl (n, e), a) =
      fold_rows-step value_at nulls row rows s
      ∙ rw (n, numbers-none cells row rows e) (fold_rows-numbers value_at nulls cells rows s a)
  fold_rows-numbers value_at nulls cells (row ∷ rows) s (inr (x, n, v, e), a) =
      fold_rows-step value_at nulls row rows s
      ∙ rw (n, v, numbers-some cells row rows x e)
          (fold_rows-numbers value_at nulls cells rows (observe s x) a)

  module _ (cells : List (Cell W)) (nulls : Option B) (holds : HoldsNulls nulls cells) where
    reads_stored :
        {A : Type 0} (P : Cell W → Type 0) (g : Cell W → A) (h : A → W) (value_at : ℕ → AppResult W)
        → ((row : ℕ) (c : Cell W) → get_elem? cells row ≡ some c → value_at row ≡ ok (h (g c)))
        → All P cells
        → ((c : Cell W) → P c → Stores g h c)
        → (row : ℕ) → row < length cells
        → ReadsRow value_at nulls cells row
    reads_stored P g h value_at v a k row l =
        let (c, at) = get_elem?_total cells row l in
        elim (k c (All-at P cells row a at)) [
          | inl (n, z) ↦ inl (holds row ∙ ground arith, ground arith)
          | inr (n, z) ↦ inr (h (g c), holds row ∙ ground arith, v row c at, ground arith)
        ]

    fold_column :
        {A : Type 0} (matched : B) (P : Cell W → Type 0) (g : Cell W → A) (h : A → W)
        (value_at : ℕ → AppResult W)
        → ((row : ℕ) (c : Cell W) → get_elem? cells row ≡ some c → value_at row ≡ ok (h (g c)))
        → All P cells
        → ((c : Cell W) → P c → Stores g h c)
        → All (λ row. row < length cells) (m.iter matched)
        → fold matched value_at nulls ≡ ok (stats_of (numbers cells (m.iter matched)))
    unfolding fold
    fold_column matched P g h value_at v a k bound =
        fold_rows-numbers value_at nulls cells (m.iter matched) empty_stats
          (All-map _ _ (m.iter matched) (reads_stored P g h value_at v a k) bound)

-- The numeric columns.
abbrev pub IsNumeric : {B W : Type 0} → Column B W → Type 0
IsNumeric (Column.integer v) = Unit
IsNumeric (Column.float v) = Unit
IsNumeric (Column.string sc) = ⊥
IsNumeric (Column.date_time v) = Unit

module _ {B W : Type 0} ⦃m : Bitmap B⦄ ⦃f : Float W⦄ where
  -- A numeric column adds the statistics of its matched cells that are not null.
  pub aggregate_column_numeric :
      (matched : B) (st : ColumnStore B W) (counts : Bool) (name : Text) (c : Column B W)
      (cells : List (Cell W)) (partial : Response W)
      → IsNumeric c
      → HoldsValues c cells
      → HoldsNulls (get name st.null_rows) cells
      → All (λ row. row < length cells) (m.iter matched)
      → aggregate_column matched st counts name (some c) partial
        ≡ ok (add_numeric name (stats_of (numbers cells (m.iter matched))) partial)
  unfolding aggregate_column null_rows_for
  aggregate_column_numeric matched st counts name (Column.integer v) cells partial k h n bound =
      ap (λ r. r >>= λ s. ok (add_numeric name s partial))
        (fold_column cells (get name st.null_rows) n matched IsInteger int_cell f.of_int _
          (λ row c at.
            ap (λ r. r >>= λ i. ok (f.of_int i)) (index-map int_cell v cells row c h.0 at))
          h.1 integer-Stores bound)
  aggregate_column_numeric matched st counts name (Column.date_time v) cells partial k h n bound =
      ap (λ r. r >>= λ s. ok (add_numeric name s partial))
        (fold_column cells (get name st.null_rows) n matched IsDateTime int_cell f.of_int _
          (λ row c at.
            ap (λ r. r >>= λ i. ok (f.of_int i)) (index-map int_cell v cells row c h.0 at))
          h.1 date_time-Stores bound)
  aggregate_column_numeric matched st counts name (Column.float v) cells partial k h n bound =
      ap (λ r. r >>= λ s. ok (add_numeric name s partial))
        (fold_column cells (get name st.null_rows) n matched IsFloatCell float_cell (λ x. x) _
          (λ row c at. index-map float_cell v cells row c h.0 at) h.1 float-Stores bound)
  aggregate_column_numeric matched st counts name (Column.string sc) cells partial k h n bound =
      absurd k

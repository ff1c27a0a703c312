-- ===== src/Storage/Table.antt =====
-- The abstract view of a store: a table of named columns of cells, and when columns hold a table.
use stats_cruncher.Base.{
  ℕ, suc, ◌^◌, ◌≤◌, ◌<◌, ◌≡◌, Bool, true, false, ◌||◌, Option, none, some, List, [], ◌∷◌, map,
  length, get_elem?, All, if◌then◌else◌,
}
use stats_cruncher.Base.Int.{ℤ, pos}
use stats_cruncher.Text.{Text, beq}
use stats_cruncher.Map.{Map, get, text_key}
use stats_cruncher.Float.{Float}
use stats_cruncher.Bitmap.{Bitmap}
use stats_cruncher.Storage.Dictionary.{IsDictionary, posted, cardinality}
use stats_cruncher.Storage.Column.{Column}
use stats_cruncher.Storage.Store.{ColumnStore}

pub data Cell (W : Type 0) : Type 0 where
  null : Cell W
  integer : ℤ → Cell W
  float : W → Cell W
  str : Text → Cell W
  date_time : ℤ → Cell W

-- A column's name and its cells, row by row.
abbrev pub Table : Type 0 → Type 0
Table W = Map Text (List (Cell W))

module _ {W : Type 0} where
  abbrev pub is_null_cell : Cell W → Bool
  is_null_cell null = true
  is_null_cell (integer i) = false
  is_null_cell (float x) = false
  is_null_cell (str s) = false
  is_null_cell (date_time t) = false

  abbrev pub is_str : Text → Cell W → Bool
  is_str s null = false
  is_str s (integer i) = false
  is_str s (float x) = false
  is_str s (str t) = beq t s
  is_str s (date_time t) = false

  -- A test of the cell in a row; there is none below the last row.
  abbrev pub test_at : (Cell W → Bool) → List (Cell W) → ℕ → Bool
  test_at p cells row = elim (get_elem? cells row) [ none ↦ false | some c ↦ p c ]

  -- What a numeric column stores for a cell: 0 for null.
  abbrev pub int_cell : Cell W → ℤ
  int_cell null = pos 0
  int_cell (integer i) = i
  int_cell (float x) = pos 0
  int_cell (str s) = pos 0
  int_cell (date_time t) = t

  abbrev pub IsInteger : Cell W → Type 0
  IsInteger null = Unit
  IsInteger (integer i) = Unit
  IsInteger (float x) = ⊥
  IsInteger (str s) = ⊥
  IsInteger (date_time t) = ⊥

  abbrev pub IsDateTime : Cell W → Type 0
  IsDateTime null = Unit
  IsDateTime (integer i) = ⊥
  IsDateTime (float x) = ⊥
  IsDateTime (str s) = ⊥
  IsDateTime (date_time t) = Unit

  abbrev pub IsFloatCell : Cell W → Type 0
  IsFloatCell null = Unit
  IsFloatCell (integer i) = ⊥
  IsFloatCell (float x) = Unit
  IsFloatCell (str s) = ⊥
  IsFloatCell (date_time t) = ⊥

  abbrev pub IsString : Cell W → Type 0
  IsString null = Unit
  IsString (integer i) = ⊥
  IsString (float x) = ⊥
  IsString (str s) = Unit
  IsString (date_time t) = ⊥

  abbrev pub float_cell : ⦃f : Float W⦄ → Cell W → W
  float_cell ⦃f⦄ null = f.nought
  float_cell ⦃f⦄ (integer i) = f.nought
  float_cell ⦃f⦄ (float x) = x
  float_cell ⦃f⦄ (str s) = f.nought
  float_cell ⦃f⦄ (date_time t) = f.nought

module _ {B : Type 0} ⦃m : Bitmap B⦄ where
  abbrev pub null_test : Option B → ℕ → Bool
  null_test none row = false
  null_test (some b) row = m.contains b row

  abbrev pub HoldsNulls : {W : Type 0} → Option B → List (Cell W) → Type 0
  HoldsNulls nulls cells = (row : ℕ) → null_test nulls row ≡ test_at is_null_cell cells row

  -- Only rows of the store are recorded as null.
  abbrev pub NullsWithin : ℕ → Map Text B → Type 0
  NullsWithin rows nulls = All (λ e. (row : ℕ) → m.contains e.1 row ≡ true → row < rows) nulls

module _ {B W : Type 0} ⦃m : Bitmap B⦄ ⦃f : Float W⦄ where
  -- The column holds the values of the cells.
  abbrev pub HoldsValues : Column B W → List (Cell W) → Type 0
  HoldsValues (Column.integer v) cells = (v ≡ map int_cell cells) × All IsInteger cells
  HoldsValues (Column.float v) cells = (v ≡ map float_cell cells) × All IsFloatCell cells
  HoldsValues (Column.string sc) cells =
      IsDictionary sc.dictionary
      × (cardinality sc.dictionary ≤ length cells)
      × ((s : Text) (row : ℕ) → posted sc.dictionary s row ≡ test_at (is_str s) cells row)
      × All IsString cells
  HoldsValues (Column.date_time v) cells = (v ≡ map int_cell cells) × All IsDateTime cells

  -- The named columns hold a table of so many rows.
  abbrev pub Holds : ℕ → Map Text B → List Text → List (Column B W) → Table W → Type 0
  Holds rows nulls [] [] [] = Unit
  Holds rows nulls (name ∷ names) (c ∷ columns) ((n, cells) ∷ table) =
      (name ≡ n)
      × (length cells ≡ rows)
      × HoldsValues c cells
      × HoldsNulls (get name nulls) cells
      × Holds rows nulls names columns table
  Holds rows nulls _ _ _ = ⊥

-- The first position of a name.
abbrev pub position : Text → List Text → Option ℕ
position name [] = none
position name (n ∷ names) =
    if beq n name
    then some 0
    else elim (position name names) [ none ↦ none | some i ↦ some (suc i) ]

abbrev pub has_name : Text → List Text → Bool
has_name name [] = false
has_name name (n ∷ names) = beq n name || has_name name names

abbrev pub Distinct : List Text → Type 0
Distinct [] = Unit
Distinct (n ∷ names) = (has_name n names ≡ false) × Distinct names

pub record Represents {B W : Type 0} ⦃m : Bitmap B⦄ ⦃f : Float W⦄ (st : ColumnStore B W)
    (table : Table W) : Type 0 where
  pub holds : Holds st.row_count st.null_rows st.names st.columns table
  pub nulls_within : NullsWithin st.row_count st.null_rows
  pub lookups : (name : Text) → get name st.lookup ≡ position name st.names
  pub distinct : Distinct st.names
  pub hidden_flags : length st.hidden ≡ length st.names
  pub row_bound : st.row_count < 2 ^ 32
  pub chunks : 1 ≤ st.chunk_size

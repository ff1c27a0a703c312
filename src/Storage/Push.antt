-- ===== src/Storage/Push.antt =====
-- `push_value` of storage.rs against the table.
use mathlib.Core.List.{map-append}
use stats_cruncher.Base.{
  Bool, true, ◌&&◌, none, some, err, AppError, sym, ◌∙◌, ℕ, ◌+◌, ◌^◌, ◌<◌, ◌≡◌, refl, inl, inr,
  false, not, Option, List, [], ◌∷◌, ◌++◌, arith, if◌then◌else◌, length, length-append,
  get_elem?-snoc, All, AppResult, ok, ◌>>=◌, Bool-cases, get_elem?-none, >>=-eq-ok, ok-injective,
}
use stats_cruncher.Base.Int.{ℤ}
use stats_cruncher.Text.{Text, trim, trim_start, trim_end, is_empty, is_whitespace}
use stats_cruncher.Numerals.{parse_i64}
use stats_cruncher.Float.{Float}
use stats_cruncher.Bitmap.{Bitmap, IsBitmap}
use stats_cruncher.Storage.Dictionary.{intern_lem}
use stats_cruncher.Storage.Column.{Column}
use stats_cruncher.Storage.Coerce.{
  RawValue, or_ingestion, coerce_integer, coerce_float, coerce_str, coerce_datetime, is_null,
  push_null, push_some, push_value,
}
use stats_cruncher.Storage.Table.{
  Cell, is_null_cell, IsInteger, IsFloatCell, IsString, IsDateTime, HoldsValues,
}

All-snoc {ℓ κ} :
    {A : Type ℓ} (P : A → Type κ) (xs : List A) (x : A) → All P xs → P x → All P (xs ++ x ∷ [])
All-snoc P [] x q p = (p, tt)
All-snoc P (y ∷ xs) x q p = (q.0, All-snoc P xs x q.1 p)

-- The cell of what a text was read as.
abbrev pub parsed : {A W : Type 0} → (A → Cell W) → Option A → AppResult (Cell W)
parsed g none = err AppError.ingestion
parsed g (some a) = ok (g a)

parsed-or_ingestion :
    {A W : Type 0} (g : A → Cell W) (o : Option A) → parsed g o ≡ (or_ingestion o >>= λ a. ok (g a))
parsed-or_ingestion g none = refl
parsed-or_ingestion g (some a) = refl

abbrev pub all_whitespace : Text → Bool
all_whitespace [] = true
all_whitespace (c ∷ s) = is_whitespace c && all_whitespace s

trim_end-is_empty : (s : Text) → is_empty (trim_end s) ≡ all_whitespace s
unfolding trim_end is_empty
trim_end-is_empty [] = refl
trim_end-is_empty (c ∷ s) = ends (trim_end s) (trim_end-is_empty s)
  where
    ends :
        (rest : Text)
        → is_empty rest ≡ all_whitespace s
        → is_empty (elim rest as (λ x. Text) [
          | [] ↦ if is_whitespace c then [] else c ∷ []
          | d ∷ r ↦ c ∷ d ∷ r
        ])
          ≡ is_whitespace c && all_whitespace s
    ends [] h = ground (arith, h)
    ends (d ∷ r) h = ground (arith, h)

-- A text that is empty when it is trimmed is all whitespace.
is_empty-trim : (s : Text) → is_empty (trim s) ≡ all_whitespace s
unfolding trim trim_start is_empty
is_empty-trim [] = refl
is_empty-trim (c ∷ s) = elim (Bool-cases (is_whitespace c)) [
  | inl white ↦ rw white (is_empty-trim s)
  | inr black ↦ rw black (trim_end-is_empty (c ∷ s) ∙ rw black refl)
]

module _ {B W : Type 0} ⦃m : Bitmap B⦄ ⦃f : Float W⦄ (parse_rfc3339 : Text → Option ℤ) where
  -- The cell that a value which is not null becomes in a column. A text is trimmed for a number or a date, and a
  -- text column takes it as it is; a number without a fraction is an integer.
  unfoldable pub some_cell_of : Column B W → RawValue W → AppResult (Cell W)
  some_cell_of (Column.integer v) (RawValue.integer i) = ok (Cell.integer i)
  some_cell_of (Column.integer v) (RawValue.float x) =
      if f.is_whole x then ok (Cell.integer (f.to_int x)) else err AppError.ingestion
  some_cell_of (Column.integer v) (RawValue.str s) = parsed Cell.integer (parse_i64 (trim s))
  some_cell_of (Column.integer v) RawValue.null = err AppError.ingestion
  some_cell_of (Column.float v) (RawValue.integer i) = ok (Cell.float (f.of_int i))
  some_cell_of (Column.float v) (RawValue.float x) = ok (Cell.float x)
  some_cell_of (Column.float v) (RawValue.str s) = parsed Cell.float (f.parse (trim s))
  some_cell_of (Column.float v) RawValue.null = err AppError.ingestion
  some_cell_of (Column.string sc) (RawValue.integer i) = err AppError.ingestion
  some_cell_of (Column.string sc) (RawValue.float x) = err AppError.ingestion
  some_cell_of (Column.string sc) (RawValue.str s) = ok (Cell.str s)
  some_cell_of (Column.string sc) RawValue.null = err AppError.ingestion
  some_cell_of (Column.date_time v) (RawValue.integer i) = ok (Cell.date_time i)
  some_cell_of (Column.date_time v) (RawValue.float x) = err AppError.ingestion
  some_cell_of (Column.date_time v) (RawValue.str s) =
      parsed Cell.date_time (parse_rfc3339 (trim s))
  some_cell_of (Column.date_time v) RawValue.null = err AppError.ingestion

  -- The cell that a value becomes in a column, or an error: null for null and for a text of nothing but
  -- whitespace, whatever the column.
  unfoldable pub cell_of : Column B W → RawValue W → AppResult (Cell W)
  unfolding some_cell_of
  cell_of c RawValue.null = ok Cell.null
  cell_of c (RawValue.str s) =
      if all_whitespace s then ok Cell.null else some_cell_of c (RawValue.str s)
  cell_of c (RawValue.integer i) = some_cell_of c (RawValue.integer i)
  cell_of c (RawValue.float x) = some_cell_of c (RawValue.float x)

  pub cell_of-is_null :
      (c : Column B W) (value : RawValue W)
      → cell_of c value ≡ (if is_null value then ok Cell.null else some_cell_of c value)
  unfolding cell_of is_null
  cell_of-is_null c RawValue.null = refl
  cell_of-is_null c (RawValue.str s) = rw (is_empty-trim s) refl
  cell_of-is_null c (RawValue.integer i) = refl
  cell_of-is_null c (RawValue.float x) = refl

  -- The cell of what the value is coerced to.
  abbrev pub coerced : Column B W → RawValue W → AppResult (Cell W)
  coerced (Column.integer v) value = coerce_integer value >>= λ i. ok (Cell.integer i)
  coerced (Column.float v) value = coerce_float value >>= λ x. ok (Cell.float x)
  coerced (Column.string sc) value = coerce_str value >>= λ s. ok (Cell.str s)
  coerced (Column.date_time v) value =
      coerce_datetime parse_rfc3339 value >>= λ t. ok (Cell.date_time t)

  pub some_cell_of-coerced :
      (c : Column B W) (value : RawValue W) → some_cell_of c value ≡ coerced c value
  unfolding some_cell_of coerce_integer coerce_float coerce_str coerce_datetime
  some_cell_of-coerced (Column.integer v) (RawValue.integer i) = refl
  some_cell_of-coerced (Column.integer v) (RawValue.float x) = elim (Bool-cases (f.is_whole x)) [
    | inl whole ↦ rw whole refl
    | inr part ↦ rw part refl
  ]
  some_cell_of-coerced (Column.integer v) (RawValue.str s) =
      parsed-or_ingestion Cell.integer (parse_i64 (trim s))
  some_cell_of-coerced (Column.integer v) RawValue.null = refl
  some_cell_of-coerced (Column.float v) (RawValue.integer i) = refl
  some_cell_of-coerced (Column.float v) (RawValue.float x) = refl
  some_cell_of-coerced (Column.float v) (RawValue.str s) =
      parsed-or_ingestion Cell.float (f.parse (trim s))
  some_cell_of-coerced (Column.float v) RawValue.null = refl
  some_cell_of-coerced (Column.string sc) (RawValue.integer i) = refl
  some_cell_of-coerced (Column.string sc) (RawValue.float x) = refl
  some_cell_of-coerced (Column.string sc) (RawValue.str s) = refl
  some_cell_of-coerced (Column.string sc) RawValue.null = refl
  some_cell_of-coerced (Column.date_time v) (RawValue.integer i) = refl
  some_cell_of-coerced (Column.date_time v) (RawValue.float x) = refl
  some_cell_of-coerced (Column.date_time v) (RawValue.str s) =
      parsed-or_ingestion Cell.date_time (parse_rfc3339 (trim s))
  some_cell_of-coerced (Column.date_time v) RawValue.null = refl

  push_null-HoldsValues :
      (c : Column B W) (cells : List (Cell W))
      → HoldsValues c cells
      → HoldsValues (push_null c) (cells ++ Cell.null ∷ [])
  unfolding push_null
  push_null-HoldsValues (Column.integer v) cells (e, a) =
      (rw (e, map-append) refl, All-snoc IsInteger cells Cell.null a tt)
  push_null-HoldsValues (Column.float v) cells (e, a) =
      (rw (e, map-append) refl, All-snoc IsFloatCell cells Cell.null a tt)
  push_null-HoldsValues (Column.date_time v) cells (e, a) =
      (rw (e, map-append) refl, All-snoc IsDateTime cells Cell.null a tt)
  push_null-HoldsValues (Column.string sc) cells (d, k, h, a) = (
    d,
    omega (arith, length-append cells (Cell.null ∷ [])),
    λ s row. ground (arith, h s row, get_elem?-snoc cells Cell.null row, get_elem?-none cells row),
    All-snoc IsString cells Cell.null a tt,
  )

  module _ (laws : IsBitmap B) where
    push_some-HoldsValues :
        (c : Column B W) (cells : List (Cell W)) (value : RawValue W) (cell : Cell W) (row : ℕ)
        → HoldsValues c cells
        → length cells ≡ row
        → row < 2 ^ 32
        → some_cell_of c value ≡ ok cell
        → (c' : Column B W) × (push_some parse_rfc3339 c value row ≡ ok c')
          × HoldsValues c' (cells ++ cell ∷ [])
          × (is_null_cell cell ≡ false)
    unfolding push_some
    push_some-HoldsValues (Column.integer v) cells value cell row h l b e =
        let (i, p, q) =
          >>=-eq-ok (coerce_integer value) (λ i. ok (Cell.integer i))
            (sym (some_cell_of-coerced (Column.integer v) value) ∙ e) in
        rw (← ok-injective _ _ q) (
          Column.integer (v ++ i ∷ []),
          rw p refl,
          (rw (h.0, map-append) refl, All-snoc IsInteger cells (Cell.integer i) h.1 tt),
          refl,
        )
    push_some-HoldsValues (Column.float v) cells value cell row h l b e =
        let (x, p, q) =
          >>=-eq-ok (coerce_float value) (λ x. ok (Cell.float x))
            (sym (some_cell_of-coerced (Column.float v) value) ∙ e) in
        rw (← ok-injective _ _ q) (
          Column.float (v ++ x ∷ []),
          rw p refl,
          (rw (h.0, map-append) refl, All-snoc IsFloatCell cells (Cell.float x) h.1 tt),
          refl,
        )
    push_some-HoldsValues (Column.string sc) cells value cell row h l b e =
        let (s, p, q) =
          >>=-eq-ok (coerce_str value) (λ s. ok (Cell.str s))
            (sym (some_cell_of-coerced (Column.string sc) value) ∙ e) in
        let (d, code, interned, promise) =
          intern_lem laws sc.dictionary s row h.0 (omega (arith, h.1)) in
        rw (← ok-injective _ _ q) (
          Column.string (record { dictionary = d; count = sc.count + 1 }),
          rw (p, interned) refl,
          (
            promise.dictionary,
            omega (arith, promise.grows, h.1, length-append cells (Cell.str s ∷ [])),
            λ t r. ground (
              arith,
              promise.posts t r,
              h.2 t r,
              get_elem?-snoc cells (Cell.str s) r,
              get_elem?-none cells r,
            ),
            All-snoc IsString cells (Cell.str s) h.3 tt,
          ),
          refl,
        )
    push_some-HoldsValues (Column.date_time v) cells value cell row h l b e =
        let (t, p, q) =
          >>=-eq-ok (coerce_datetime parse_rfc3339 value) (λ t. ok (Cell.date_time t))
            (sym (some_cell_of-coerced (Column.date_time v) value) ∙ e) in
        rw (← ok-injective _ _ q) (
          Column.date_time (v ++ t ∷ []),
          rw p refl,
          (rw (h.0, map-append) refl, All-snoc IsDateTime cells (Cell.date_time t) h.1 tt),
          refl,
        )

    -- A value that has a cell in a column is stored there as that cell: a null and a blank text as null, whatever the
    -- column, and the returned flag says that it is not null.
    pub push_value-HoldsValues :
        (c : Column B W) (cells : List (Cell W)) (value : RawValue W) (cell : Cell W) (row : ℕ)
        → HoldsValues c cells
        → length cells ≡ row
        → row < 2 ^ 32
        → cell_of c value ≡ ok cell
        → (c' : Column B W) × (push_value parse_rfc3339 c value row
            ≡ ok (not (is_null_cell cell), c'))
          × HoldsValues c' (cells ++ cell ∷ [])
    unfolding push_value
    push_value-HoldsValues c cells value cell row h l b e' =
        let e = sym (cell_of-is_null c value) ∙ e' in
        elim (Bool-cases (is_null value)) [
          | inl blank ↦
              let q : ok Cell.null ≡ ok cell = rw blank at e in
              rw (← ok-injective _ _ q, blank) (push_null c, refl, push_null-HoldsValues c cells h)
          | inr full ↦
              let (c', p, holds, some_cell) =
                push_some-HoldsValues c cells value cell row h l b (rw full at e) in
              rw full (c', rw (p, some_cell) refl, holds)
        ]

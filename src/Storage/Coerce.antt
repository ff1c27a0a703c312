-- ===== src/Storage/Coerce.antt =====
-- storage.rs: untyped values and their coercion to the type of a column. `parse_rfc3339` stands for
-- chrono's `DateTime::parse_from_rfc3339`, taken to the epoch seconds of the result.
use stats_cruncher.Base.{
  ℕ, ◌+◌, Bool, true, false, Option, none, some, [], ◌∷◌, ◌++◌, if◌then◌else◌, AppResult, ok, err,
  ◌>>=◌, AppError,
}
use stats_cruncher.Base.Int.{ℤ, pos}
use stats_cruncher.Text.{Text, trim, is_empty}
use stats_cruncher.Float.{Float}
use stats_cruncher.Numerals.{parse_i64}
use stats_cruncher.Bitmap.{Bitmap}
use stats_cruncher.Storage.Dictionary.{intern}
use stats_cruncher.Storage.Column.{Column}

pub data RawValue (W : Type 0) : Type 0 where
  integer : ℤ → RawValue W
  float : W → RawValue W
  str : Text → RawValue W
  null : RawValue W

-- `map_err` to an ingestion error.
abbrev pub or_ingestion {ℓ} : {A : Type ℓ} → Option A → AppResult A
or_ingestion none = err AppError.ingestion
or_ingestion (some a) = ok a

module _ {W : Type 0} ⦃f : Float W⦄ where
  unfoldable pub coerce_integer : RawValue W → AppResult ℤ
  coerce_integer (integer i) = ok i
  coerce_integer (float x) = if f.is_whole x then ok (f.to_int x) else err AppError.ingestion
  coerce_integer (str s) = or_ingestion (parse_i64 (trim s))
  coerce_integer null = err AppError.ingestion

  unfoldable pub coerce_float : RawValue W → AppResult W
  coerce_float (integer i) = ok (f.of_int i)
  coerce_float (float x) = ok x
  coerce_float (str s) = or_ingestion (f.parse (trim s))
  coerce_float null = err AppError.ingestion

module _ {W : Type 0} where
  unfoldable pub coerce_str : RawValue W → AppResult Text
  coerce_str (str s) = ok s
  coerce_str _ = err AppError.ingestion

  unfoldable pub coerce_datetime : (Text → Option ℤ) → RawValue W → AppResult ℤ
  coerce_datetime parse_rfc3339 (str s) = or_ingestion (parse_rfc3339 (trim s))
  coerce_datetime parse_rfc3339 (integer i) = ok i
  coerce_datetime parse_rfc3339 _ = err AppError.ingestion

  -- Null, or a text of whitespace.
  unfoldable pub is_null : RawValue W → Bool
  is_null null = true
  is_null (str s) = is_empty (trim s)
  is_null _ = false

module _ {B W : Type 0} ⦃m : Bitmap B⦄ ⦃f : Float W⦄ where
  unfoldable pub push_null : Column B W → Column B W
  push_null (Column.integer v) = Column.integer (v ++ pos 0 ∷ [])
  push_null (Column.float v) = Column.float (v ++ f.nought ∷ [])
  push_null (Column.date_time v) = Column.date_time (v ++ pos 0 ∷ [])
  push_null (Column.string sc) = Column.string sc

  unfoldable pub push_some :
      (Text → Option ℤ) → Column B W → RawValue W → ℕ → AppResult (Column B W)
  unfolding coerce_integer coerce_float coerce_str coerce_datetime
  push_some parse_rfc3339 (Column.integer v) value row = do
    i ← coerce_integer value
    ok (Column.integer (v ++ i ∷ []))
  push_some parse_rfc3339 (Column.float v) value row = do
    x ← coerce_float value
    ok (Column.float (v ++ x ∷ []))
  push_some parse_rfc3339 (Column.string sc) value row = do
    s ← coerce_str value
    (d, code) ← intern s row sc.dictionary
    ok (Column.string (record { dictionary = d; count = sc.count + 1 }))
  push_some parse_rfc3339 (Column.date_time v) value row = do
    t ← coerce_datetime parse_rfc3339 value
    ok (Column.date_time (v ++ t ∷ []))

  -- Whether a value was stored, and the column; an error leaves the column as it was.
  unfoldable pub push_value :
      (Text → Option ℤ) → Column B W → RawValue W → ℕ → AppResult (Bool × Column B W)
  unfolding push_null push_some is_null
  push_value parse_rfc3339 column value row =
      if is_null value
      then ok (false, push_null column)
      else do column' ← push_some parse_rfc3339 column value row; ok (true, column')

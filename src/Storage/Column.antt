-- ===== src/Storage/Column.antt =====
-- storage/column.rs: a column of values. The elements of an integer and of a date-time column are `i64`.
use stats_cruncher.Base.{ℕ, Bool, List, length, ◌==◌}
use stats_cruncher.Base.Int.{ℤ}
use stats_cruncher.Text.{Text, text}
use stats_cruncher.Storage.Dictionary
use stats_cruncher.Storage.Dictionary.{StringDictionary}

pub record StringColumn (B : Type 0) : Type 0 where
  pub dictionary : StringDictionary B
  pub count : ℕ

pub data Column (B W : Type 0) : Type 0 where
  integer : List ℤ → Column B W
  float : List W → Column B W
  string : StringColumn B → Column B W
  date_time : List ℤ → Column B W

module _ {B : Type 0} where
  unfoldable pub new_string : StringColumn B
  unfolding Dictionary.new
  new_string = record { dictionary = Dictionary.new; count = 0 }

module _ {B W : Type 0} where
  unfoldable pub len : Column B W → ℕ
  len (integer v) = length v
  len (float v) = length v
  len (string sc) = sc.count
  len (date_time v) = length v

  unfoldable pub is_empty : Column B W → Bool
  unfolding len
  is_empty c = len c == 0

  unfoldable pub type_name : Column B W → Text
  type_name (integer v) = text "integer"
  type_name (float v) = text "float"
  type_name (string sc) = text "string"
  type_name (date_time v) = text "date-time"

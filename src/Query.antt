-- ===== src/Query.antt =====
-- query/model.rs: queries, responses and the statistics of a column. A `u64` wraps at 2 ^ 64, as in
-- a release build.
mod Order
pub mod Stats
pub mod Readings
pub mod Numbers
use stats_cruncher.Base.{ℕ, ◌+◌, ◌%◌, ◌^◌, Option, List, [], ◌∷◌, if◌then◌else◌}
use stats_cruncher.Text.{Text}
use stats_cruncher.Map.{Map}
use stats_cruncher.Float.{Float}

pub data Comparison : Type 0 where
  gt gte lt lte : Comparison

pub record NumericBound (W : Type 0) : Type 0 where
  pub value : W
  pub comparison : Comparison

pub record RangeFilter (W : Type 0) : Type 0 where
  pub lower : Option (NumericBound W)
  pub upper : Option (NumericBound W)

pub record StringMatch : Type 0 where
  pub values : List Text

pub record Query (W : Type 0) : Type 0 where
  pub must : Map Text StringMatch
  pub must_not : Map Text StringMatch
  pub ranges : Map Text (List (RangeFilter W))

pub data ColumnKind : Type 0 where
  numeric date_time : ColumnKind

pub record NumericStats (W : Type 0) : Type 0 where
  pub count : ℕ
  pub sum : W
  pub min : W
  pub max : W

pub record Response (W : Type 0) : Type 0 where
  pub matched_rows : ℕ
  pub numeric : Map Text (NumericStats W)
  pub column_types : Map Text ColumnKind
  pub string_counts : Map Text (Map Text ℕ)

-- `a += b` on a `u64`.
abbrev pub add_u64 : ℕ → ℕ → ℕ
add_u64 a b = (a + b) % 2 ^ 64

abbrev pub default_response : {W : Type 0} → Response W
default_response = record { matched_rows = 0; numeric = []; column_types = []; string_counts = [] }

module _ {W : Type 0} ⦃f : Float W⦄ where
  unfoldable pub empty_stats : NumericStats W
  empty_stats = record { count = 0; sum = f.nought; min = f.infinity; max = f.neg_infinity }

  unfoldable pub observe : NumericStats W → W → NumericStats W
  observe s value = record {
    count = add_u64 s.count 1;
    sum = f.add s.sum value;
    min = if f.lt value s.min then value else s.min;
    max = if f.lt s.max value then value else s.max;
  }

  unfoldable pub merge_stats : NumericStats W → NumericStats W → NumericStats W
  merge_stats s other = record {
    count = add_u64 s.count other.count;
    sum = f.add s.sum other.sum;
    min = if f.lt other.min s.min then other.min else s.min;
    max = if f.lt s.max other.max then other.max else s.max;
  }

  -- The values of a column observed one after another.
  unfoldable pub observe_all : NumericStats W → List W → NumericStats W
  observe_all s [] = s
  observe_all s (x ∷ xs) = observe_all (observe s x) xs

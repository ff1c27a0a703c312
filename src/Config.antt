-- ===== src/Config.antt =====
-- config/schema.rs: the configuration that the other components read. The TOML decoding is serde's.
pub mod ByteSize
use stats_cruncher.Base.{ℕ, Bool, Option, none, some}
use stats_cruncher.Text.{Text}
use stats_cruncher.Map.{Map}

pub data ColumnType : Type 0 where
  integer float string date_time : ColumnType

pub record SearchableColumn : Type 0 where
  pub column_type : ColumnType
  pub hidden : Bool

-- `delimiter` is a `char`, by its code point.
pub data SourceConfig : Type 0 where
  csv : (path : Text) (delimiter : Option ℕ) (gzip : Bool) → SourceConfig
  sqlite : (path : Text) (table : Text) → SourceConfig

unfoldable pub file_path : SourceConfig → Option Text
file_path (csv path delimiter gzip) = some path
file_path (sqlite path table) = some path

pub record EngineConfig : Type 0 where
  pub memory_limit : ℕ
  pub chunk_size_rows : ℕ
  pub worker_threads : ℕ
  pub string_value_counts : Bool
  pub reload_interval_mins : ℕ

pub record ApiConfig : Type 0 where
  pub bind : Text

pub record AppConfig : Type 0 where
  pub source : SourceConfig
  pub engine : EngineConfig
  pub api : ApiConfig
  pub searchable : Map Text SearchableColumn
  pub partition_column : Option Text

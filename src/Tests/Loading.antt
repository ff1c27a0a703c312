-- ===== src/Tests/Loading.antt =====
-- Examples of a source that is loaded and queried.
use stats_cruncher.Base.{
  Bool, true, All, if◌then◌else◌, ℕ, ◌≡◌, refl, false, Option, none, some, List, [], ◌∷◌, AppResult,
  ok, map, ◌>>=◌, err, AppError,
}
use stats_cruncher.Base.Int.{ℤ}
use stats_cruncher.Text.{Text, text, beq, trim, is_empty}
use stats_cruncher.Map.{get, insert, text_key, number_key}
use stats_cruncher.Numerals.{parse_i64}
use stats_cruncher.Float.Sample.{Sample, samples}
use stats_cruncher.Bitmap.Sample.{Bits, bits, bits-IsBitmap}
use stats_cruncher.Config.{AppConfig, SourceConfig, ColumnType}
use stats_cruncher.Storage.Column.{Column}
use stats_cruncher.Storage.Store
use stats_cruncher.Storage.Store.{ColumnStore, chunk_count}
use stats_cruncher.Storage.Table.{Cell, Represents, has_name}
use stats_cruncher.Storage.Coerce.{RawValue, push_value}
use stats_cruncher.Storage.Created.{no_rows, new-Represents}
use stats_cruncher.Ingestion.{Adapter, CsvReader, ingest_csv, ValueRef, reload}
use stats_cruncher.Ingestion.Fields.{record_values, IsSeparator}
use stats_cruncher.Ingestion.Rows.{IsIngested, ingest_csv-IsIngested}
use stats_cruncher.Ingestion
use stats_cruncher.Ingestion.Again.{reload-reload_rejected}

abbrev pub numbers : AppConfig
numbers = record {
  source = SourceConfig.csv (text "t.csv") none false;
  engine = record {
    memory_limit = 1000;
    chunk_size_rows = 1;
    worker_threads = 1;
    string_value_counts = false;
    reload_interval_mins = 0;
  };
  api = record { bind = text "" };
  searchable = (text "n", record { column_type = ColumnType.integer; hidden = false }) ∷ [];
  partition_column = none;
}

abbrev pub no_date : Text → Option ℤ
no_date t = none

abbrev pub little : ℕ → ℕ
little n = 100

abbrev pub header : AppResult (List Text)
header = ok (text "n" ∷ [])

abbrev one_record : List (AppResult (List Text))
one_record = ok (text "3" ∷ []) ∷ []

abbrev one_row : ColumnStore Bits Sample
one_row = record {
  names = text "n" ∷ [];
  columns = Column.integer (ℤ.pos 3 ∷ []) ∷ [];
  lookup = (text "n", 0) ∷ [];
  hidden = false ∷ [];
  row_count = 1;
  chunk_size = 1;
  zone_stats = none;
  null_rows = [];
}

abbrev one_reader : ℕ → CsvReader
one_reader separator = record { headers = header; records = one_record }

abbrev open_one : Text → Bool → AppResult (ℕ → CsvReader)
open_one path gzip = ok one_reader

taken_in :
    ingest_csv no_date numbers little open_one (SourceConfig.csv (text "t.csv") none false)
    ≡ ok one_row
unfolding ingest_csv beq trim is_empty parse_i64 push_value insert
taken_in = refl

ingest_csv-IsIngested_example :
    (separator : ℕ) × (headers : List Text) × IsSeparator none separator
    × (header ≡ ok headers)
    × All (λ name. has_name name headers ≡ true) (text "n" ∷ [])
    × IsIngested no_date numbers
        (map (λ r. r >>= record_values headers (text "n" ∷ [])) one_record)
        one_row
ingest_csv-IsIngested_example =
    ingest_csv-IsIngested no_date bits-IsBitmap numbers (refl, tt) little (text "t.csv") none false
      open_one one_reader one_row refl taken_in

abbrev three_rows : List (AppResult (List (ValueRef Sample)))
three_rows = ok (ValueRef.integer (ℤ.pos 3) ∷ []) ∷ []

abbrev query_one : Text → AppResult (List (AppResult (List (ValueRef Sample))))
query_one sql =
    if beq sql (text "SELECT \"n\" FROM \"t\"") then ok three_rows else err AppError.ingestion

abbrev connect_one : Text → AppResult (Text → AppResult (List (AppResult (List (ValueRef Sample)))))
connect_one path = ok query_one

abbrev two_values : List (AppResult (List (RawValue Sample)))
two_values = ok (RawValue.integer (ℤ.pos 3) ∷ []) ∷ ok (RawValue.null ∷ []) ∷ []

abbrev two_cells : List (List (Cell Sample))
two_cells = (Cell.integer (ℤ.pos 3) ∷ []) ∷ (Cell.null ∷ []) ∷ []

new-Represents_example :
    Represents (Store.new {B = Bits} numbers) (no_rows {W = Sample} numbers.searchable)
new-Represents_example = new-Represents Bits Sample numbers (refl, tt)

-- A configuration that partitions by a column that is not there.
abbrev unknown_partition : AppConfig
unknown_partition = record numbers { partition_column = some (text "m") }

unsorted : Ingestion.finalize one_row unknown_partition ≡ err AppError.config
unfolding Ingestion.finalize get beq
unsorted = refl

reload-reload_rejected_example :
    (reload
        (ok 5)
        (λ adapter c. ok one_row)
        (ok 5)
        (record { adapter = Adapter.csv_ingestor; cfg = unknown_partition; last_loaded = none })
      ≡ (
        err AppError.config,
        record { adapter = Adapter.csv_ingestor; cfg = unknown_partition; last_loaded = some 5 },
      ))
    × (reload
          (ok 5)
          (λ adapter c. ok one_row)
          (ok 5)
          (record { adapter = Adapter.csv_ingestor; cfg = unknown_partition; last_loaded = some 5 })
        ≡ (
          ok none,
          record { adapter = Adapter.csv_ingestor; cfg = unknown_partition; last_loaded = some 5 },
        ))
reload-reload_rejected_example =
    reload-reload_rejected 5 (λ adapter c. ok one_row) (λ adapter c. ok one_row) (ok 5)
      (record { adapter = Adapter.csv_ingestor; cfg = unknown_partition; last_loaded = none })
      one_row AppError.config refl refl unsorted

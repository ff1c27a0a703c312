-- ===== src/Ingestion.antt =====
-- ingestion.rs, ingestion/csv.rs and ingestion/sqlite.rs: from the records of a source to a store. The
-- csv crate, rusqlite and the file system are parameters: what they return is passed in: readers
-- of CSV files, connections to databases, the times of modification and the resident set size.
pub mod Quoting
pub mod Again
pub mod Fields
pub mod Rows
use stats_cruncher.Base.{
  ℕ, suc, ◌+◌, ◌%◌, ◌^◌, Bool, false, Option, none, some, List, [], ◌∷◌, ◌++◌, map, get_elem?, ltb,
  ◌==◌, if◌then◌else◌, AppResult, ok, err, panic, AppError, ◌>>=◌, ◌>>◌,
}
use stats_cruncher.Base.Int.{ℤ}
use stats_cruncher.Text.{Text, text, beq}
use stats_cruncher.Float.{Float}
use stats_cruncher.Bitmap.{Bitmap}
use stats_cruncher.Config.{AppConfig, SourceConfig}
use stats_cruncher.Coordinator.{check_memory}
use stats_cruncher.Storage.Coerce.{RawValue}
use stats_cruncher.Storage.Store
use stats_cruncher.Storage.Store.{ColumnStore, push_row, column_names}
use stats_cruncher.Storage.Sort.{sort_by}

-- `c as u8` of an ASCII character.
unfoldable pub resolve_delimiter : Option ℕ → AppResult ℕ
resolve_delimiter none = ok 44
resolve_delimiter (some c) = if ltb c 128 then ok c else err AppError.config

unfoldable pub header_position : Text → List Text → Option ℕ
header_position name [] = none
header_position name (h ∷ headers) =
    let rest = header_position name headers in
    if beq h name then some 0 else elim rest [ none ↦ none | some i ↦ some (suc i) ]

unfoldable pub map_headers : AppResult (List Text) → List Text → AppResult (List ℕ)
unfolding header_position
map_headers headers [] = headers >>= λ hs. ok []
map_headers headers (name ∷ expected) = do
  hs ← headers
  pos ← elim (header_position name hs) [ none ↦ err AppError.ingestion | some i ↦ ok i ]
  rest ← map_headers headers expected
  ok (pos ∷ rest)

-- The cells of a record at the indices of the declared columns.
unfoldable pub row_buf : {W : Type 0} → List Text → List ℕ → AppResult (List (RawValue W))
row_buf record_cells [] = ok []
row_buf record_cells (idx ∷ indices) = do
  cell ← elim (get_elem? record_cells idx) [ none ↦ err AppError.ingestion | some c ↦ ok c ]
  rest ← row_buf record_cells indices
  ok (RawValue.str cell ∷ rest)

-- What SQLite stores; the text is the decoded one if its bytes are UTF-8.
pub data ValueRef (W : Type 0) : Type 0 where
  null blob : ValueRef W
  integer : ℤ → ValueRef W
  real : W → ValueRef W
  string : Option Text → ValueRef W

unfoldable pub map_value : {W : Type 0} → ValueRef W → AppResult (RawValue W)
map_value ValueRef.null = ok RawValue.null
map_value (ValueRef.integer i) = ok (RawValue.integer i)
map_value (ValueRef.real x) = ok (RawValue.float x)
map_value (ValueRef.string (some t)) = ok (RawValue.str t)
map_value (ValueRef.string none) = err AppError.ingestion
map_value ValueRef.blob = err AppError.ingestion

unfoldable pub map_values : {W : Type 0} → List (ValueRef W) → AppResult (List (RawValue W))
unfolding map_value
map_values [] = ok []
map_values (v ∷ values) = do raw ← map_value v; rest ← map_values values; ok (raw ∷ rest)

-- A quotation mark is 34.
unfoldable pub escape_quotes : Text → Text
escape_quotes [] = []
escape_quotes (c ∷ cs) = let rest = escape_quotes cs in if c == 34 then 34 ∷ 34 ∷ rest else c ∷ rest

unfoldable pub quote_ident : Text → Text
unfolding escape_quotes
quote_ident name = 34 ∷ escape_quotes name ++ 34 ∷ []

join : Text → List Text → Text
join between [] = []
join between (t ∷ []) = t
join between (t ∷ u ∷ ts) = t ++ between ++ join between (u ∷ ts)

unfoldable pub select_sql : List Text → Text → Text
unfolding quote_ident join
select_sql columns table =
    text "SELECT "
    ++ join (text ", ") (map quote_ident columns)
    ++ text " FROM "
    ++ quote_ident table

-- What the csv crate reads: the header and the records, each of which may fail.
pub record CsvReader : Type 0 where
  pub headers : AppResult (List Text)
  pub records : List (AppResult (List Text))

-- `ingested % check_every == 0`, where `%` panics on zero, and the check of the memory.
unfoldable pub check_row : ℕ → ℕ → (ℕ → ℕ) → ℕ → AppResult (Unit {0})
unfolding check_memory
check_row limit check_every rss ingested =
    if check_every == 0
    then panic
    else (if ingested % check_every == 0 then check_memory limit (rss ingested) else ok tt)

module _ {B W : Type 0} ⦃m : Bitmap B⦄ ⦃f : Float W⦄ (parse_rfc3339 : Text → Option ℤ) where
  -- The loop over the rows: each is a result of the reader.
  unfoldable pub ingest_rows :
      ℕ
      → ℕ
      → (ℕ → ℕ)
      → List (AppResult (List (RawValue W)))
      → ℕ
      → ColumnStore B W
      → AppResult (ColumnStore B W)
  unfolding push_row check_row
  ingest_rows limit check_every rss [] ingested st = ok st
  ingest_rows limit check_every rss (row ∷ rows) ingested st = do
    values ← row
    let (pushed, st') = push_row parse_rfc3339 values st in
        do
          pushed
          check_row limit check_every rss ((ingested + 1) % 2 ^ 64)
          ingest_rows limit check_every rss rows ((ingested + 1) % 2 ^ 64) st'

  -- `ingest_into_store` of csv.rs. `open_reader` opens the file, unpacked or not, and gives what the csv crate reads
  -- from it for a delimiter.
  unfoldable pub ingest_csv :
      AppConfig
      → (ℕ → ℕ)
      → (Text → Bool → AppResult (ℕ → CsvReader))
      → SourceConfig
      → AppResult (ColumnStore B W)
  unfolding ingest_rows resolve_delimiter map_headers row_buf Store.new
  ingest_csv cfg rss open_reader (SourceConfig.csv path delimiter gzip) =
      let st = Store.new cfg in
      do
        reader ← open_reader path gzip
        separator ← resolve_delimiter delimiter
        indices ← map_headers (reader separator).headers (column_names st)
        ingest_rows cfg.engine.memory_limit cfg.engine.chunk_size_rows rss
            (map (λ r. r >>= λ cells. row_buf cells indices) (reader separator).records) 0 st
  ingest_csv cfg rss open_reader (SourceConfig.sqlite path table) = panic

  -- `ingest_into_store` of sqlite.rs. `connect` opens the database, and gives the rows of a statement that can be
  -- prepared and run.
  unfoldable pub ingest_sqlite :
      AppConfig
      → (ℕ → ℕ)
      → (Text → AppResult (Text → AppResult (List (AppResult (List (ValueRef W))))))
      → SourceConfig
      → AppResult (ColumnStore B W)
  unfolding ingest_rows map_values select_sql Store.new
  ingest_sqlite cfg rss connect (SourceConfig.csv path delimiter gzip) = panic
  ingest_sqlite cfg rss connect (SourceConfig.sqlite path table) =
      let st = Store.new cfg in
      do
        query ← connect path
        rows ← query (select_sql (column_names st) table)
        ingest_rows cfg.engine.memory_limit cfg.engine.chunk_size_rows rss
            (map (λ r. r >>= map_values) rows) 0 st

module _ {B W : Type 0} ⦃m : Bitmap B⦄ ⦃f : Float W⦄ where
  unfoldable pub finalize : ColumnStore B W → AppConfig → AppResult (ColumnStore B W)
  unfolding sort_by
  finalize st cfg = elim cfg.partition_column [ none ↦ ok st | some col ↦ sort_by col st ]

pub data Adapter : Type 0 where
  csv_ingestor sqlite_ingestor : Adapter

-- A `CsvIngestor` or a `SqliteIngestor`.
pub record Ingestor : Type 0 where
  pub adapter : Adapter
  pub cfg : AppConfig
  pub last_loaded : Option ℕ

unfoldable pub adapter_for : SourceConfig → Adapter
adapter_for (SourceConfig.csv path delimiter gzip) = Adapter.csv_ingestor
adapter_for (SourceConfig.sqlite path table) = Adapter.sqlite_ingestor

-- The adapter of the source, which has loaded nothing.
unfoldable pub select : AppConfig → Ingestor
unfolding adapter_for
select cfg = record { adapter = adapter_for cfg.source; cfg = cfg; last_loaded = none }

module _ {B W : Type 0} ⦃m : Bitmap B⦄ ⦃f : Float W⦄ (parse_rfc3339 : Text → Option ℤ) (rss : ℕ → ℕ)
    (open_reader : Text → Bool → AppResult (ℕ → CsvReader))
    (connect : Text → AppResult (Text → AppResult (List (AppResult (List (ValueRef W)))))) where
  -- The read of an adapter.
  unfoldable pub ingest_into_store : Adapter → AppConfig → AppResult (ColumnStore B W)
  unfolding ingest_csv ingest_sqlite
  ingest_into_store Adapter.csv_ingestor cfg =
      ingest_csv parse_rfc3339 cfg rss open_reader cfg.source
  ingest_into_store Adapter.sqlite_ingestor cfg =
      ingest_sqlite parse_rfc3339 cfg rss connect cfg.source

abbrev pub same_time : Option ℕ → ℕ → Bool
same_time none t = false
same_time (some u) t = t == u

module _ {B W : Type 0} ⦃m : Bitmap B⦄ ⦃f : Float W⦄ where
  -- `reload`, given the times of modification before and after the read, and the read.
  unfoldable pub reload :
      AppResult ℕ
      → (Adapter → AppConfig → AppResult (ColumnStore B W))
      → AppResult ℕ
      → Ingestor
      → AppResult (Option (ColumnStore B W)) × Ingestor
  unfolding finalize
  reload (err e) ingest mtime_after g = (err e, g)
  reload panic ingest mtime_after g = (panic, g)
  reload (ok before) ingest mtime_after g =
      if same_time g.last_loaded before then (ok none, g) else elim (ingest g.adapter g.cfg) [
        | err e ↦ (err e, g)
        | panic ↦ (panic, g)
        | ok st ↦ elim mtime_after [
          | err e ↦ (err e, g)
          | panic ↦ (panic, g)
          | ok after ↦
              if after == before
              then (
                finalize st g.cfg >>= λ sorted. ok (some sorted),
                record g { last_loaded = some after },
              )
              else (ok none, g)
        ]
      ]

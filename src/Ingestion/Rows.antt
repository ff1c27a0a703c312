-- ===== src/Ingestion/Rows.antt =====
-- ingestion/csv.rs and ingestion/sqlite.rs: the loops over the rows of a source, against the table of their cells.
use stats_cruncher.Base.{
  err, panic, ap₂, Bool, true, All, ℕ, ◌+◌, ◌%◌, ◌^◌, ◌≡◌, refl, sym, ◌∙◌, ap, subst, Option, none,
  List, [], ◌∷◌, arith, map, length, AppResult, ok, ◌>>=◌, >>=-eq-ok, ok-injective,
}
use stats_cruncher.Base.Int.{ℤ}
use stats_cruncher.Text.{Text}
use stats_cruncher.Float.{Float}
use stats_cruncher.Bitmap.{Bitmap, IsBitmap}
use stats_cruncher.Config.{AppConfig, SourceConfig}
use stats_cruncher.Storage.Column.{Column}
use stats_cruncher.Storage.Coerce.{RawValue}
use stats_cruncher.Storage.Store
use stats_cruncher.Storage.Store.{ColumnStore, push_row}
use stats_cruncher.Storage.Table.{Cell, Table, Represents, Distinct, has_name}
use stats_cruncher.Storage.PushRow.{add_row, cells_of, push_row-Represents}
use stats_cruncher.Storage.Kinds.{kinds, cells_of-kinds, push_row-Accepts}
use stats_cruncher.Storage.Created.{
  declared_columns, kinds-new, kinds-declared_columns, declared_names, no_rows, new-Declared,
  new-Represents,
}
use stats_cruncher.Ingestion.{
  ingest_rows, ingest_csv, check_row, map_headers, row_buf, resolve_delimiter, CsvReader,
}
use stats_cruncher.Ingestion.Fields.{
  record_values, IsSeparator, resolve_delimiter-IsSeparator, map_headers-record_values,
}

map_bind :
    {A C : Type 0} {f g : A → AppResult C}
    → ((a : A) → f a ≡ g a)
    → (rs : List (AppResult A)) → map (λ r. r >>= f) rs ≡ map (λ r. r >>= g) rs
map_bind e [] = refl
map_bind e (ok a ∷ rs) = ap₂ ◌∷◌ (e a) (map_bind e rs)
map_bind e (err x ∷ rs) = ap (λ l. err x ∷ l) (map_bind e rs)
map_bind e (panic ∷ rs) = ap (λ l. panic ∷ l) (map_bind e rs)

-- Headers are read before they are looked up.
headers_ok :
    {A : Type 0} (headers : AppResult (List Text)) (names : List Text) (k : List ℕ → AppResult A)
    {a : A}
    → (map_headers headers names >>= k) ≡ ok a
    → (hs : List Text) × (indices : List ℕ) × (headers ≡ ok hs)
      × (map_headers (ok hs) names ≡ ok indices)
      × (k indices ≡ ok a)
unfolding map_headers
headers_ok (ok hs) names k h =
    let (indices, e, r) = >>=-eq-ok (map_headers (ok hs) names) k h in (hs, indices, refl, e, r)
headers_ok (err x) [] k h = cc
headers_ok (err x) (n ∷ names) k h = cc
headers_ok panic [] k h = cc
headers_ok panic (n ∷ names) k h = cc

abbrev pub add_rows : {W : Type 0} → Table W → List (List (Cell W)) → Table W
add_rows table [] = table
add_rows table (cells ∷ rest) = add_rows (add_row table cells) rest

module _ {B W : Type 0} ⦃m : Bitmap B⦄ ⦃f : Float W⦄ (parse_rfc3339 : Text → Option ℤ) where
  -- The cells of all rows in the columns, or the first error.
  unfoldable pub read_rows :
      List (Column B W) → List (AppResult (List (RawValue W))) → AppResult (List (List (Cell W)))
  read_rows columns [] = ok []
  read_rows columns (row ∷ rows) = do
    values ← row
    cells ← cells_of parse_rfc3339 columns values
    rest ← read_rows columns rows
    ok (cells ∷ rest)

  read_rows_cons :
      (columns : List (Column B W)) (row : AppResult (List (RawValue W)))
      (rows : List (AppResult (List (RawValue W)))) (values : List (RawValue W))
      (cells : List (Cell W)) (rest : List (List (Cell W)))
      → row ≡ ok values
      → cells_of parse_rfc3339 columns values ≡ ok cells
      → read_rows columns rows ≡ ok rest
      → read_rows columns (row ∷ rows) ≡ ok (cells ∷ rest)
  unfolding read_rows
  read_rows_cons columns row rows values cells rest e c i = rw (e, c, i) refl

  module _ (laws : IsBitmap B) (limit check_every : ℕ) (rss : ℕ → ℕ) where
    -- What the loop leaves: the table with the cells of all rows at its end.
    pub record Ingested (columns : List (Column B W)) (rows : List (AppResult (List (RawValue W))))
        (table : Table W) (st st' : ColumnStore B W) (cells : List (List (Cell W))) : Type 0 where
      pub cells_read : read_rows columns rows ≡ ok cells
      pub represents : Represents st' (add_rows table cells)
      pub counted : st'.row_count ≡ st.row_count + length cells
      pub same_zones : st'.zone_stats ≡ st.zone_stats

    -- A row that is accepted is a row of cells of the table.
    one_row :
        (columns : List (Column B W)) (st st' : ColumnStore B W) (table : Table W)
        (values : List (RawValue W))
        → kinds st.columns ≡ kinds columns
        → Represents st table
        → push_row parse_rfc3339 values st ≡ (ok tt, st')
        → (cells : List (Cell W)) × (cells_of parse_rfc3339 columns values ≡ ok cells)
          × Represents st' (add_row table cells)
          × (st'.row_count ≡ st.row_count + 1)
          × (kinds st'.columns ≡ kinds columns)
          × (st'.zone_stats ≡ st.zone_stats)
    one_row columns st st' table values k r h =
        let (cells, a) = push_row-Accepts parse_rfc3339 st st' values h in
        let (st1, p, r1, n) =
          push_row-Represents parse_rfc3339 laws st table values cells r a.have_cells a.room in
        let same : st1 ≡ st' = ap (λ x. x.1) (sym p ∙ h) in
        (
          cells,
          sym (cells_of-kinds parse_rfc3339 columns st.columns values k) ∙ a.have_cells,
          subst (λ x. Represents x (add_row table cells)) same r1,
          ap (λ x. x.row_count) (sym same) ∙ n,
          a.same_kinds ∙ k,
          a.same_zones,
        )

    pub ingest_rows-Ingested :
        (columns : List (Column B W)) (rows : List (AppResult (List (RawValue W)))) (ingested : ℕ)
        (table : Table W) (st st' : ColumnStore B W)
        → kinds st.columns ≡ kinds columns
        → Represents st table
        → ingest_rows parse_rfc3339 limit check_every rss rows ingested st ≡ ok st'
        → (cells : List (List (Cell W))) × Ingested columns rows table st st' cells
    unfolding ingest_rows read_rows
    ingest_rows-Ingested columns [] ingested table st st' k r h =
        let same = ok-injective _ _ h in
        (
          [],
          record {
            cells_read = refl;
            represents = subst (λ x. Represents x table) same r;
            counted = omega (arith, ap (λ x. x.row_count) same);
            same_zones = ap (λ x. x.zone_stats) (sym same);
          },
        )
    ingest_rows-Ingested columns (row ∷ rows) ingested table st st' k r h =
        let (values, e, h1) = >>=-eq-ok row _ h in
        let st1 = (push_row parse_rfc3339 values st).1 in
        let (u, p, h2) = >>=-eq-ok (push_row parse_rfc3339 values st).0 _ h1 in
        let (v, q, h3) =
          >>=-eq-ok (check_row limit check_every rss ((ingested + 1) % 2 ^ 64)) _ h2 in
        let (cells, c, r1, n, k1, z) =
          one_row columns st st1 table values k r (ap (λ x. (x, st1)) p) in
        let (rest, i) =
          ingest_rows-Ingested columns rows ((ingested + 1) % 2 ^ 64) (add_row table cells) st1 st'
            k1 r1 h3 in
        (
          cells ∷ rest,
          record {
            cells_read = read_rows_cons columns row rows values cells rest e c i.cells_read;
            represents = i.represents;
            counted = omega (arith, i.counted, n);
            same_zones = i.same_zones ∙ z;
          },
        )

module _ {B W : Type 0} ⦃m : Bitmap B⦄ ⦃f : Float W⦄ (parse_rfc3339 : Text → Option ℤ)
    (cfg : AppConfig) where
  -- A store that is returned for a source: it represents the table of the declared columns with the
  -- cells of all rows, and has no zones yet.
  abbrev pub IsIngested : List (AppResult (List (RawValue W))) → ColumnStore B W → Type 0
  IsIngested rows st' =
      (cells : List (List (Cell W))) × (read_rows parse_rfc3339
          (declared_columns {B = B} cfg.searchable) rows
        ≡ ok cells)
      × Represents st' (add_rows (no_rows cfg.searchable) cells)
      × (st'.row_count ≡ length cells)
      × (st'.zone_stats ≡ none)

module _ {B W : Type 0} ⦃m : Bitmap B⦄ ⦃f : Float W⦄ (parse_rfc3339 : Text → Option ℤ)
    (laws : IsBitmap B) (cfg : AppConfig) (distinct : Distinct (declared_names cfg.searchable))
    (rss : ℕ → ℕ) where
  IsIngested-new :
      (rows : List (AppResult (List (RawValue W)))) (st' : ColumnStore B W)
      → ingest_rows parse_rfc3339 cfg.engine.memory_limit cfg.engine.chunk_size_rows rss rows 0
          (Store.new cfg)
        ≡ ok st'
      → IsIngested parse_rfc3339 cfg rows st'
  IsIngested-new rows st' h =
      let d = new-Declared B W cfg distinct in
      let (cells, i) =
        ingest_rows-Ingested parse_rfc3339 laws cfg.engine.memory_limit cfg.engine.chunk_size_rows
          rss (declared_columns cfg.searchable) rows 0 (no_rows cfg.searchable) (Store.new cfg) st'
          (kinds-new B W cfg distinct ∙ sym (kinds-declared_columns B W cfg.searchable))
          (new-Represents B W cfg distinct) h in
      (cells, i.cells_read, i.represents, omega (arith, i.counted, d.rows), i.same_zones ∙ d.zones)

  module _ (path : Text) where
    -- A CSV source that is taken in. Its delimiter is a comma or the ASCII character that is configured, every
    -- declared column has a header, every record has a cell under each of these, and the store represents the
    -- table of all the records, in order, each column with the cells under the first header of its name.
    pub ingest_csv-IsIngested :
        (delimiter : Option ℕ) (gzip : Bool) (open_reader : Text → Bool → AppResult (ℕ → CsvReader))
        (reader : ℕ → CsvReader) (st' : ColumnStore B W)
        → open_reader path gzip ≡ ok reader
        → ingest_csv parse_rfc3339 cfg rss open_reader (SourceConfig.csv path delimiter gzip)
          ≡ ok st'
        → (separator : ℕ) × (headers : List Text) × IsSeparator delimiter separator
          × ((reader separator).headers ≡ ok headers)
          × All (λ name. has_name name headers ≡ true) (declared_names cfg.searchable)
          × IsIngested parse_rfc3339 cfg
              (map
                (λ r. r >>= record_values headers (declared_names cfg.searchable))
                (reader separator).records)
              st'
    unfolding ingest_csv
    ingest_csv-IsIngested delimiter gzip open_reader reader st' opened h =
        let d = new-Declared B W cfg distinct in
        let (found, o, h0) = >>=-eq-ok (open_reader path gzip) _ h in
        let same : found ≡ reader = ok-injective _ _ (sym o ∙ opened) in
        let (separator, s, h1) = >>=-eq-ok (resolve_delimiter delimiter) _ h0 in
        let (headers, indices, g, e, h2) = headers_ok (found separator).headers _ _ h1 in
        let all = map_headers-record_values {W = W} headers (declared_names cfg.searchable) in
        let e' = ap (map_headers (ok headers)) (sym d.names) ∙ e in
        (
          separator,
          headers,
          resolve_delimiter-IsSeparator delimiter separator s,
          ap (λ x. (x separator).headers) (sym same) ∙ g,
          (all [] indices e').1,
          subst
              (λ x.
                IsIngested parse_rfc3339 cfg
                  (map (λ r. r >>= record_values headers (declared_names cfg.searchable))
                    (x separator).records)
                  st')
              same
              (subst (λ rows. IsIngested parse_rfc3339 cfg rows st')
                (map_bind (λ cells. (all cells indices e').0) (found separator).records)
                (IsIngested-new
                  (map (λ r. r >>= λ cells. row_buf cells indices) (found separator).records) st'
                  h2)),
        )

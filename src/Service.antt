-- ===== src/Service.antt =====
-- From a file to the replies: ingestion/csv.rs, ingestion.rs, storage.rs and execution/ put together.
use stats_cruncher.Base.{
  Bool, true, All, sym, ◌%◌, ◌^◌, err, panic, no_err, no_panic, ◌==◌, if◌then◌else◌, Bool-cases,
  >>=-eq-ok, ap, ℕ, ◌≡◌, refl, subst, inl, inr, ◌∙◌, Option-cases, AppResult-cases, ok-injective,
  Option, none, some, List, map, AppResult, ok, ◌>>=◌, length,
}
use mathlib.Core.Option.{some-injective}
use stats_cruncher.Base.Int.{ℤ}
use stats_cruncher.Text.{Text}
use stats_cruncher.Float.{Float, IsFloat}
use stats_cruncher.Map.{get, text_key}
use stats_cruncher.Bitmap.{Bitmap, IsBitmap}
use stats_cruncher.Config.{AppConfig, SourceConfig}
use stats_cruncher.Query.{Query}
use stats_cruncher.Storage.Store.{ColumnStore}
use stats_cruncher.Storage.Table.{Cell, Table, Distinct, Represents, has_name}
use stats_cruncher.Storage.Permuted.{permuted}
use stats_cruncher.Storage.KeyCells.{HasNoNan}
use stats_cruncher.Storage.Created.{declared_columns, declared_names, no_rows}
use stats_cruncher.Ingestion.{
  Adapter, CsvReader, ValueRef, Ingestor, ingest_csv, ingest_into_store, adapter_for, reload,
  select, finalize,
}
use stats_cruncher.Ingestion.Fields.{record_values, IsSeparator}
use stats_cruncher.Ingestion.Rows.{read_rows, add_rows, ingest_csv-IsIngested}
use stats_cruncher.Coordinator.System.{System, Reach}
use stats_cruncher.Coordinator.Invariant.{AreAnswers, matching, AreMeasured-same}
use stats_cruncher.Coordinator.Skips.{SkipsSoundly}
use stats_cruncher.Coordinator.SortedStore.{sort_by-SkipsSoundly}
use stats_cruncher.Coordinator.SameCounts.{matching-permuted, Holds-IsWide}
use stats_cruncher.Coordinator.Unzoned.{unzoned-SkipsSoundly}
use stats_cruncher.Coordinator.Answers.{initial, skips-AreAnswers}

module _ {W : Type 0} ⦃f : Float W⦄ where
  -- No number in the partition column is NaN.
  abbrev pub HasNumericKeys : AppConfig → Table W → Type 0
  HasNumericKeys cfg table =
      (col : Text) (cells : List (Cell W))
      → cfg.partition_column ≡ some col
      → get col table ≡ some cells
      → HasNoNan cells

module _ {B W : Type 0} ⦃m : Bitmap B⦄ ⦃f : Float W⦄ where
  -- A store that `reload` gives is one that was read, and finalized.
  reload-finalize :
      (cfg : AppConfig) (before after : AppResult ℕ)
      (ingest : Adapter → AppConfig → AppResult (ColumnStore B W)) (st : ColumnStore B W)
      (g : Ingestor)
      → reload before ingest after (select cfg) ≡ (ok (some st), g)
      → (raw : ColumnStore B W) × (ingest (adapter_for cfg.source) cfg ≡ ok raw)
        × (finalize raw cfg ≡ ok st)
  unfolding reload select
  reload-finalize cfg (err e) after ingest st g h = cc
  reload-finalize cfg panic after ingest st g h = cc
  reload-finalize cfg (ok before) after ingest st g h =
      elim (AppResult-cases (ingest (adapter_for cfg.source) cfg)) [
        | inl (raw, e) ↦ (raw, e, after_read raw after (rw e at h))
        | inr (inl (x, e)) ↦ absurd (no_err x (ap (λ p. p.0) (rw e at h)))
        | inr (inr e) ↦ absurd (no_panic (ap (λ p. p.0) (rw e at h)))
      ]
    where
      nothing : ok none ≡ ok (some st) → ⊥
      nothing e = cc

      after_read :
          (raw : ColumnStore B W) (after : AppResult ℕ)
          → (elim after as (λ k. AppResult (Option (ColumnStore B W)) × Ingestor) [
            | err e ↦ (err e, select cfg)
            | panic ↦ (panic, select cfg)
            | ok t ↦
                if t == before
                then (
                  finalize raw cfg >>= λ sorted. ok (some sorted),
                  record (select cfg) { last_loaded = some t },
                )
                else (ok none, select cfg)
          ])
            ≡ (ok (some st), g)
          → finalize raw cfg ≡ ok st
      after_read raw (err e) q = cc
      after_read raw panic q = cc
      after_read raw (ok t) q = elim (Bool-cases (t == before)) [
        | inl same ↦
            let (sorted, done, e) =
              >>=-eq-ok (finalize raw cfg) (λ sorted. ok (some sorted))
                (ap (λ p. p.0) (rw same at q)) in
            done ∙ ap ok (some-injective _ _ (ok-injective _ _ e))
        | inr other ↦ absurd (nothing (ap (λ p. p.0) (rw other at q)))
      ]

  -- A finalized store holds the records, in some order: its masks are sound, and as many of its rows satisfy a
  -- query as in the table.
  record IsFinalized (st raw : ColumnStore B W) (table : Table W) : Type 0 where
    ordered : Table W
    represents : Represents st ordered
    same_rows : st.row_count ≡ raw.row_count
    skips : SkipsSoundly st ordered
    same_counts :
        (query : Query W) → matching ordered query st.row_count ≡ matching table query st.row_count

  module _ (laws : IsBitmap B) (order : IsFloat W) where
    finalize-IsFinalized :
        (cfg : AppConfig) (raw st : ColumnStore B W) (table : Table W)
        → Represents raw table
        → raw.zone_stats ≡ none
        → HasNumericKeys cfg table
        → finalize raw cfg ≡ ok st
        → IsFinalized st raw table
    unfolding finalize
    finalize-IsFinalized cfg raw st table r unzoned no_nan h =
        elim (Option-cases cfg.partition_column) [
          | inl unsorted ↦
              subst (λ x. IsFinalized x raw table) (ok-injective _ _ (rw unsorted at h))
                (record {
                  ordered = table;
                  represents = r;
                  same_rows = refl;
                  skips = unzoned-SkipsSoundly raw table r.chunks unzoned;
                  same_counts = λ query. refl;
                })
          | inr (col, partitioned) ↦
              let (perm, permutes, represents, same_rows, skips) =
                sort_by-SkipsSoundly laws order raw table col r st unzoned
                  (λ cells. no_nan col cells partitioned) (rw partitioned at h) in
              record {
                ordered = permuted perm table;
                represents = represents;
                same_rows = same_rows;
                skips = skips;
                same_counts = λ query. rw same_rows (
                    matching-permuted raw.row_count perm table query permutes (
                      Holds-IsWide raw.row_count raw.null_rows raw.names raw.columns table
                        r.holds));
              }
        ]

    IsFinalized-answers :
        (st raw : ColumnStore B W) (table : Table W) (cfg : AppConfig) (asked : ℕ → Query W)
        (s : System B W)
        → IsFinalized st raw table
        → Reach asked (initial cfg st) s
        → AreAnswers st table asked s.coordinator.sent
    IsFinalized-answers st raw table cfg asked s i reach =
        AreMeasured-same (λ p. p.matched_rows)
          (λ query. matching i.ordered query st.row_count % 2 ^ 64)
          (λ query. matching table query st.row_count % 2 ^ 64) asked
          (λ query. ap (λ n. n % 2 ^ 64) (i.same_counts query)) s.coordinator.sent
          (skips-AreAnswers laws st i.ordered i.represents asked i.represents.chunks i.skips cfg
            reach)

    -- The store that an adapter reads from a CSV source is the one that is read from the file.
    csv_source :
        (parse_rfc3339 : Text → Option ℤ) (cfg : AppConfig) (rss : ℕ → ℕ)
        (open_reader : Text → Bool → AppResult (ℕ → CsvReader))
        (connect : Text → AppResult (Text → AppResult (List (AppResult (List (ValueRef W))))))
        (source : SourceConfig)
        → cfg.source ≡ source
        → (path : Text) (delimiter : Option ℕ) (gzip : Bool)
        → source ≡ SourceConfig.csv path delimiter gzip
        → ingest_into_store {B = B} parse_rfc3339 rss open_reader connect
            (adapter_for cfg.source)
            cfg
          ≡ ingest_csv parse_rfc3339 cfg rss open_reader (SourceConfig.csv path delimiter gzip)
    unfolding ingest_into_store adapter_for
    csv_source parse_rfc3339 cfg rss open_reader connect source e path delimiter gzip e' =
        rw (e, e') refl

    -- From the records of a CSV file to the replies, when the partition column, if there is one, has no NaN: when
    -- `reload` gives a store, every declared column has a header, every record has a cell under each of these,
    -- and in every state that the coordinator with its workers reaches, each reply sent counts the records
    -- that satisfy its query, modulo 2^64, a record taken as the cells under the first header of each
    -- column. This holds whether or not the store has been sorted and its chunks are skipped by zones.
    pub reload-Reach-answers :
        (parse_rfc3339 : Text → Option ℤ) (cfg : AppConfig) (rss : ℕ → ℕ)
        (open_reader : Text → Bool → AppResult (ℕ → CsvReader))
        (connect : Text → AppResult (Text → AppResult (List (AppResult (List (ValueRef W))))))
        (path : Text) (delimiter : Option ℕ) (gzip : Bool) (reader : ℕ → CsvReader)
        (before after : AppResult ℕ) (st : ColumnStore B W) (g : Ingestor) (asked : ℕ → Query W)
        (s : System B W)
        → Distinct (declared_names cfg.searchable)
        → cfg.source ≡ SourceConfig.csv path delimiter gzip
        → open_reader path gzip ≡ ok reader
        → ((separator : ℕ) (headers : List Text) (cells : List (List (Cell W)))
            → IsSeparator delimiter separator
            → (reader separator).headers ≡ ok headers
            → read_rows parse_rfc3339 (declared_columns {B = B} cfg.searchable) (
                map
                  (λ r. r >>= record_values headers (declared_names cfg.searchable))
                  (reader separator).records)
              ≡ ok cells
            → HasNumericKeys cfg (add_rows (no_rows cfg.searchable) cells))
        → reload before (ingest_into_store parse_rfc3339 rss open_reader connect) after (select cfg)
          ≡ (ok (some st), g)
        → Reach asked (initial cfg st) s
        → (separator : ℕ) × (headers : List Text) × (cells : List (List (Cell W))) × IsSeparator
            delimiter separator
          × ((reader separator).headers ≡ ok headers)
          × All (λ name. has_name name headers ≡ true) (declared_names cfg.searchable)
          × (read_rows parse_rfc3339 (declared_columns {B = B} cfg.searchable) (
                map
                  (λ r. r >>= record_values headers (declared_names cfg.searchable))
                  (reader separator).records)
              ≡ ok cells)
          × (st.row_count ≡ length cells)
          × AreAnswers st (add_rows (no_rows cfg.searchable) cells) asked s.coordinator.sent
    reload-Reach-answers parse_rfc3339 cfg rss open_reader connect path delimiter gzip reader before
          after st g asked s distinct source opened no_nan h reach =
        let (raw, ingested, finalized) =
          reload-finalize cfg before after (ingest_into_store parse_rfc3339 rss open_reader connect)
            st g h in
        let from_csv =
          csv_source parse_rfc3339 cfg rss open_reader connect cfg.source refl path delimiter gzip
            source in
        let (separator, headers, p, e, all, (cells, read, r, n, z)) =
          ingest_csv-IsIngested parse_rfc3339 laws cfg distinct rss path delimiter gzip open_reader
            reader raw opened (sym from_csv ∙ ingested) in
        let table = add_rows (no_rows cfg.searchable) cells in
        let i =
          finalize-IsFinalized cfg raw st table r z (no_nan separator headers cells p e read)
            finalized in
        (
          separator,
          headers,
          cells,
          p,
          e,
          all,
          read,
          i.same_rows ∙ n,
          IsFinalized-answers st raw table cfg asked s i reach,
        )

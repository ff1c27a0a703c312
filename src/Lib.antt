-- ===== src/Lib.antt =====
-- stats-cruncher: a service that loads a table from a CSV file or a SQLite table into a columnar store in
-- memory, and answers statistical queries over it, in parallel over chunks of rows.
--
-- Parts and files. A store (src/storage.rs and src/storage/) has a column for each declared name: numbers
-- as they are, strings as a dictionary whose values have the bitmap of their rows, and the rows with a
-- null in a bitmap beside the columns. An ingestor (src/ingestion.rs, src/ingestion/) fills it row by row
-- and sorts it by a partition column. The coordinator (src/execution/coordinator.rs) checks a query, skips
-- the chunks whose zone cannot match, and sends a task for each other chunk; a worker
-- (src/execution/worker.rs) filters and aggregates the rows of a task; an aggregator
-- (src/execution/aggregator.rs) merges the partial results, and the coordinator replies after the last.
--
-- Query, Query/Stats, Query/Order: src/query/model.rs. `observe` and `merge_stats` are
-- `NumericStats::observe` and `NumericStats::merge`. Query/Readings: what adds up when statistics
-- are merged. Query/Numbers: what the statistics of a list of numbers are.
-- Config, Config/ByteSize, Config/ByteSize/Sized: src/config/schema.rs, with `parse_byte_size`.
-- Base/Results: src/error.rs. An `AppResult` is a value, an error without its message, or a panic.
-- Storage/Dictionary, Storage/Column: src/storage/dictionary.rs and src/storage/column.rs.
-- Storage/Coerce, Storage/Store, Storage/Sort: src/storage.rs, `push_value` and the coercions, the store
-- with `new`, `push_row` and the lookups, and `sort_by` with `apply_perm`.
-- Storage/Table: the abstract view, a table of cells under column names, and what it means that a store
-- represents one. Storage/Push, PushRow, NullRows, Kinds, Created and Lookup are about it.
-- Of `sort_by`: Storage/Sorted, Keys and KeyCells are about the sort of the keys, ZoneEnds about the zones, Permuted about
-- a table in another order, Codes, RowCodes and Rebuilt about `apply_perm` on a string column, Reordered
-- about all columns, Places and MovedNulls about the null rows, SortBy about the whole.
-- Worker, Worker/Evaluate, Worker/Aggregate: src/execution/worker.rs and src/execution/chunk.rs.
-- Worker/Meaning says what a query means on a table; Worker/Flow, Strings, Ranges, Filter, Folds,
-- Columns and Totals relate the code to it, and Entries counts the entries of a partial result.
-- Aggregator, Aggregator/Complete, Numeric: src/execution/aggregator.rs.
-- Coordinator, Coordinator/Chunks, Zones, Validate, Hidden: src/execution/coordinator.rs, and `check_memory` of
-- src/resource.rs. Tasks that were sent and replies are lists in the state. `admit` and `outcome` are
-- `submit` before and after it waits for the reply.
-- Coordinator/System: the coordinator with the worker threads and the result pump that `start` spawns, as a
-- step relation. Dispatch, Finalized, Inflight, Weights, Numbered and Skips are about its parts; Invariant
-- states what holds in its states, and Workers, Pump, Entered, Submit, Answers and Progress are about its
-- steps. The invariant is stated for any Measure of a response that adds up over the tasks: Matched is the count
-- of rows, ColumnMeasure what the statistics of a column say, which Statistics puts together.
-- Unzoned and Zoned are about the masks of a store without zone statistics, and with them; InOrder, SortedZones and
-- SortedStore about a store that has been sorted, and SameCounts about counts in another order of the rows.
-- Metrics, Metrics/History, Ring, Windows: src/metrics.rs. Api/Dto, Api/Bounds: src/api/dto.rs. Api/Handlers, Api/Recorded:
-- src/api/handlers.rs and the rejections of src/api/dto.rs.
-- Reload, Reload/Serving: src/reload.rs, `bootstrap` and the start of the watcher in src/app.rs, `load` and `parse` of
-- src/config.rs. A round of the watcher's loop is a function.
-- Ingestion, Ingestion/Quoting, Again, Fields, Rows: src/ingestion.rs, src/ingestion/csv.rs and
-- src/ingestion/sqlite.rs.
-- Float, Bitmap: the machine's floating-point numbers and the roaring crate's bitmaps, which are
-- parameters, with records of the laws that the proofs use. Float/Sample and Bitmap/Sample are instances
-- that satisfy the laws. Bitmap/Sets: bitmaps as sets.
-- Text, Numerals, Map: strings as lists of code points, `str::parse` of integers, and maps as association
-- lists (those of a BTreeMap are kept sorted by `insert`).
-- Service: from a file to the replies, through the parts above.
-- Tests, Tests/Service, Loading, Counting, Pruning, Sorting, Statistics: the theorems at concrete inputs. Tests/Store: the store that they use.
--
-- Integers. A `u64` that wraps is written with `% 2 ^ 64`, a cast to `u32` with `% 2 ^ 32`; `checked_add`
-- and `checked_mul` are tests of the bound. An `i64` is an integer, which only the parser bounds.
-- Loops are recursions on the list that they run over; `chunks` takes `row_count` as its fuel, and one round
-- of the loop takes at least one row.
--
-- Steps. A submission is one step of the system: `enqueue` is taken as a whole, between the steps of the
-- threads. A reply channel has a number, `asked` gives the query of each, and `accepted` is a history of the
-- replies whose query was accepted. The counter of queries does not reach 2 ^ 64. The workers receive
-- as long as the coordinator lives, so that `send` succeeds.
--
-- Not modelled: locks and the memory they order, HTTP, JSON and TOML, files, the csv and rusqlite crates,
-- the clock, sleeping and the text of messages. What such code returns is an argument where a definition needs
-- it (a parser of dates, the times of modification, the reader of a CSV file, the
-- connection to a database, a decoder of the configuration). The
-- command line, the log, the router and the server's start and shutdown (src/main.rs, src/app.rs,
-- src/api/router.rs, src/api/docs.rs) are left out.
pub mod Base
pub mod Text
pub mod Numerals
pub mod Map
pub mod Float
pub mod Bitmap
pub mod Query
pub mod Config
pub mod Storage
pub mod Worker
pub mod Aggregator
pub mod Coordinator
pub mod Metrics
pub mod Api
pub mod Ingestion
pub mod Reload
pub mod Service
pub mod Tests

-- ===== src/Coordinator.antt =====
-- execution/coordinator.rs: admission, chunking, pruning, dispatch and completion. The channels are
-- part of the state: `tasks` is the task channel, oldest first, `closed` says that no worker receives
-- from it any more, and `sent` holds what went through the reply channels, which have numbers.
pub mod Zones
pub mod Chunks
pub mod Validate
pub mod Hidden
pub mod System
pub mod Dispatch
pub mod Inflight
pub mod Weights
pub mod Numbered
pub mod Measure
pub mod Invariant
pub mod Workers
pub mod Matched
pub mod ColumnMeasure
pub mod Finalized
pub mod Pump
pub mod Skips
pub mod Entered
pub mod Submit
pub mod Unzoned
pub mod Zoned
pub mod Answers
pub mod Statistics
pub mod Progress
pub mod SortedZones
pub mod InOrder
pub mod SortedStore
pub mod SameCounts
use stats_cruncher.Base.{
  ℕ, zero, suc, ◌+◌, ◌%◌, ◌^◌, ◌<◌, Bool, true, false, not, Option, none, some, List, [], ◌∷◌, ◌++◌,
  map, ltb, ◌==◌, if◌then◌else◌, length, get_elem?, filter, replicate, AppResult, ok, err, panic,
  AppError, ◌>>=◌, ◌>>◌,
}
use stats_cruncher.Text.{Text}
use stats_cruncher.Map.{Map, get, insert, remove, text_key, number_key}
use stats_cruncher.Float.{Float}
use stats_cruncher.Bitmap.{Bitmap}
use stats_cruncher.Query.{Query, Response, ColumnKind, default_response}
use stats_cruncher.Config.{AppConfig, SearchableColumn, ColumnType}
use stats_cruncher.Storage.Store.{ColumnStore, chunk_count}
use stats_cruncher.Worker.{Task}
use stats_cruncher.Aggregator
use stats_cruncher.Aggregator.{Aggregator, merge}
use Zones.{build_skip_mask}
use Chunks.{Chunk, chunks}
use Validate.{validate}

pub record InflightQuery (W : Type 0) : Type 0 where
  pub aggregator : Aggregator W
  pub reply : Option ℕ

pub record Coordinator (B W : Type 0) : Type 0 where
  pub cfg : AppConfig
  pub store : ColumnStore B W
  pub next_id : ℕ
  pub inflight : Map ℕ (InflightQuery W)
  pub tasks : List (Task W)
  pub closed : Bool
  pub sent : List (ℕ × AppResult (Response W))

module _ {B W : Type 0} where
  -- The state that `start` returns: no query and no task. Its threads and channels are not modelled.
  unfoldable pub start : AppConfig → ColumnStore B W → Coordinator B W
  start cfg store = record {
    cfg = cfg;
    store = store;
    next_id = 1;
    inflight = [];
    tasks = [];
    closed = false;
    sent = [];
  }

  unfoldable pub next_query_id : Coordinator B W → ℕ × Coordinator B W
  next_query_id c = (c.next_id, record c { next_id = (c.next_id + 1) % 2 ^ 64 })

  -- `reply.send(r)`
  unfoldable pub send_reply : Option ℕ → AppResult (Response W) → Coordinator B W → Coordinator B W
  send_reply none r c = c
  send_reply (some reply) r c = record c { sent = c.sent ++ (reply, r) ∷ [] }

  -- The pool is gone: the query is taken back and answered with an error.
  unfoldable pub abandon : ℕ → Coordinator B W → Coordinator B W
  unfolding send_reply
  abandon query_id c = elim (get query_id c.inflight) [
    | none ↦ c
    | some state ↦
        send_reply state.reply (err AppError.execution)
          (record c { inflight = remove query_id c.inflight })
  ]

  -- The `while` loop of `enqueue` over the chunks that it passes through.
  unfoldable pub dispatch :
      List Bool
      → Query W
      → ℕ
      → List Chunk
      → Coordinator B W
      → AppResult (Unit {0}) × Coordinator B W
  unfolding abandon
  dispatch mask query query_id [] c = (ok tt, c)
  dispatch mask query query_id (chunk ∷ rest) c =
      let task : Task W = record {
        chunk_id = chunk.index;
        query_id = query_id;
        query = query;
        start = chunk.start;
        end = chunk.end;
      } in
      let skip = dispatch mask query query_id rest c in
      let send = dispatch mask query query_id rest (record c { tasks = c.tasks ++ task ∷ [] }) in
      elim (get_elem? mask chunk.index) [
        | none ↦ (panic, c)
        | some skipped ↦
            if skipped
            then skip
            else if c.closed
            then (err AppError.execution, abandon query_id c)
            else send
      ]

unfoldable pub dispatched : List Bool → ℕ
dispatched mask = length (filter not mask)

module _ {B W : Type 0} ⦃f : Float W⦄ where
  -- A query that has passed `validate`, with the mask of the chunks to skip.
  unfoldable pub start_query :
      List Bool → Query W → ℕ → Coordinator B W → AppResult (Unit {0}) × Coordinator B W
  unfolding dispatched send_reply next_query_id dispatch
  start_query mask query reply c =
      if dispatched mask == 0
      then (ok tt, send_reply (some reply) (ok default_response) c)
      else (let (query_id, c') = next_query_id c in
          let state : InflightQuery W = record {
            aggregator = Aggregator.new (dispatched mask);
            reply = some reply;
          } in
          dispatch mask query query_id (chunks c.store.row_count c.store.chunk_size)
            (record c' { inflight = insert query_id state c'.inflight }))

  unfoldable pub enqueue : Query W → ℕ → Coordinator B W → AppResult (Unit {0}) × Coordinator B W
  unfolding start_query validate build_skip_mask
  enqueue query reply c = elim (validate query c.store) [
    | err e ↦ (err e, c)
    | panic ↦ (panic, c)
    | ok u ↦
        if chunk_count c.store == 0
        then (ok tt, send_reply (some reply) (ok default_response) c)
        else start_query (build_skip_mask (chunk_count c.store) c.store query) query reply c
  ]

  -- A worker's output: the query that it belongs to and the partial result.
  unfoldable pub finalize : ℕ → Response W → Coordinator B W → Coordinator B W
  unfolding send_reply merge
  finalize query_id partial c = elim (get query_id c.inflight) [
    | none ↦ c
    | some entry ↦
        let (answer, aggregator) = merge entry.aggregator partial in
        elim answer [
          | none ↦ record c {
            inflight = insert query_id (record entry { aggregator = aggregator }) c.inflight;
          }
          | some response ↦
              send_reply entry.reply (ok response)
                (record c { inflight = remove query_id c.inflight })
        ]
  ]

unfoldable pub kind_of : ColumnType → ColumnKind
kind_of ColumnType.date_time = ColumnKind.date_time
kind_of _ = ColumnKind.numeric

module _ {W : Type 0} where
  -- What `submit` does with the response for one column.
  unfoldable pub present_column : Text → SearchableColumn → Response W → Response W
  unfolding kind_of
  present_column name col response =
      if col.hidden
      then record response { numeric = remove name response.numeric }
      else elim (get name response.numeric) [
        | none ↦ response
        | some stats ↦ record response {
          column_types = insert name (kind_of col.column_type) response.column_types;
        }
      ]

  -- `submit` adds the kinds of the columns to the response, and takes the hidden ones out.
  unfoldable pub present : Map Text SearchableColumn → Response W → Response W
  unfolding present_column
  present [] response = response
  present ((name, col) ∷ rest) response = present rest (present_column name col response)

-- `resource::check_memory`, with the resident set size that the system reports.
unfoldable pub check_memory : ℕ → ℕ → AppResult (Unit {0})
check_memory limit rss = if ltb limit rss then err AppError.storage else ok tt

-- `submit` up to the reply: the check of the memory, and `enqueue`.
unfoldable pub admit :
    {B W : Type 0} ⦃f : Float W⦄
    → ℕ
    → Query W
    → ℕ
    → Coordinator B W
    → AppResult (Unit {0}) × Coordinator B W
unfolding check_memory enqueue
admit rss query reply c = elim (check_memory c.cfg.engine.memory_limit rss) [
  | err e ↦ (err e, c)
  | panic ↦ (panic, c)
  | ok u ↦ enqueue query reply c
]

-- `submit` from the reply on.
unfoldable pub outcome :
    {W : Type 0} → Map Text SearchableColumn → AppResult (Response W) → AppResult (Response W)
unfolding present
outcome searchable reply = do response ← reply; ok (present searchable response)

-- ===== src/Metrics.antt =====
-- metrics.rs: counts of the queries and errors of each second, in a ring. The clock is a parameter: the
-- Unix time in seconds is passed in, and so is the time since the start. The mutex is not modelled.
pub mod History
pub mod Ring
pub mod Windows
use stats_cruncher.Base.{
  ℕ, ◌-◌, ◌*◌, ◌%◌, Bool, List, [], ◌∷◌, replicate, set, range, ltb, ◌==◌, if◌then◌else◌, AppResult,
  ok, ◌>>=◌,
}
use stats_cruncher.Query.{add_u64}
use stats_cruncher.Storage.Store.{index}

abbrev pub ring_size : ℕ
ring_size = 24 * 3600

pub record Bucket : Type 0 where
  pub ts : ℕ
  pub queries : ℕ
  pub errors : ℕ

pub record Metrics : Type 0 where
  pub rows_loaded : ℕ
  pub ring : List Bucket

pub record StatusSnapshot : Type 0 where
  pub uptime_secs : ℕ
  pub rows_loaded : ℕ
  pub queries_1m : ℕ
  pub queries_1h : ℕ
  pub queries_24h : ℕ
  pub errors_1m : ℕ
  pub errors_1h : ℕ
  pub errors_24h : ℕ

unfoldable pub set_rows_loaded : ℕ → Metrics → Metrics
set_rows_loaded n m = record m { rows_loaded = n }

-- `size` is `ring_size` in the program.
module _ (size : ℕ) where
  unfoldable pub new : ℕ → Metrics
  new rows_loaded = record {
    rows_loaded = rows_loaded;
    ring = replicate size (record { ts = 0; queries = 0; errors = 0 });
  }

  unfoldable pub counted : ℕ → Bool → Bucket → Bucket
  counted ts is_error b =
      let b' = if b.ts == ts then b else record { ts = ts; queries = 0; errors = 0 } in
      record {
        ts = b'.ts;
        queries = add_u64 b'.queries 1;
        errors = if is_error then add_u64 b'.errors 1 else b'.errors;
      }

  unfoldable pub record_query : ℕ → Bool → Metrics → AppResult Metrics
  unfolding counted
  record_query ts is_error m = do
    b ← index m.ring (ts % size)
    ok (record m { ring = set m.ring (ts % size) (counted ts is_error b) })

  unfoldable pub add_bucket : ℕ → Bucket → StatusSnapshot → StatusSnapshot
  add_bucket i b s = record s {
    queries_24h = add_u64 s.queries_24h b.queries;
    errors_24h = add_u64 s.errors_24h b.errors;
    queries_1h = if ltb i 3600 then add_u64 s.queries_1h b.queries else s.queries_1h;
    errors_1h = if ltb i 3600 then add_u64 s.errors_1h b.errors else s.errors_1h;
    queries_1m = if ltb i 60 then add_u64 s.queries_1m b.queries else s.queries_1m;
    errors_1m = if ltb i 60 then add_u64 s.errors_1m b.errors else s.errors_1m;
  }

  -- The loop of `snapshot` over the ages of a list.
  unfoldable pub add_ages : List Bucket → ℕ → List ℕ → StatusSnapshot → AppResult StatusSnapshot
  unfolding add_bucket
  add_ages ring now [] s = ok s
  add_ages ring now (i ∷ ages) s = do
    b ← index ring ((now - i) % size)
    add_ages ring now ages (if b.ts == now - i then add_bucket i b s else s)

  unfoldable pub snapshot : ℕ → ℕ → Metrics → AppResult StatusSnapshot
  unfolding add_ages
  snapshot now elapsed m = add_ages m.ring now (range 0 size) (record {
    uptime_secs = elapsed;
    rows_loaded = m.rows_loaded;
    queries_1m = 0;
    queries_1h = 0;
    queries_24h = 0;
    errors_1m = 0;
    errors_1h = 0;
    errors_24h = 0;
  })

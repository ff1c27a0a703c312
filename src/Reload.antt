-- ===== src/Reload.antt =====
-- reload.rs, app.rs and config.rs: the first load, and the watcher that reloads the configuration and the
-- data. One round of its loop is a function of what the system gives: the time of modification of the
-- configuration file, if it has one, its content as a configuration, and what an ingestor's `reload`
-- returns. Sleeping, logging and the HTTP server are not modelled.
pub mod Serving
use stats_cruncher.Base.{
  ℕ, Bool, true, false, Option, none, some, AppResult, ok, err, panic, AppError, ◌>>=◌, ◌==◌, ◌<◌,
  ltb, if◌then◌else◌,
}
use stats_cruncher.Text.{Text}
use stats_cruncher.Float.{Float}
use stats_cruncher.Bitmap.{Bitmap}
use stats_cruncher.Config.{AppConfig}
use stats_cruncher.Storage.Store.{ColumnStore}
use stats_cruncher.Coordinator
use stats_cruncher.Coordinator.{Coordinator, start}
use stats_cruncher.Metrics
use stats_cruncher.Metrics.{Metrics, set_rows_loaded}
use stats_cruncher.Ingestion.{Ingestor, select}

-- `config::parse`, with the TOML decoder of the toml crate, and `config::load` of what the file holds.
unfoldable pub parse : (Text → Option AppConfig) → Text → AppResult AppConfig
parse from_str raw = elim (from_str raw) [ none ↦ err AppError.config | some cfg ↦ ok cfg ]

unfoldable pub load : (Text → Option AppConfig) → Option Text → AppResult AppConfig
unfolding parse
load from_str none = err AppError.config
load from_str (some raw) = parse from_str raw

pub record AppState (B W : Type 0) : Type 0 where
  pub coordinator : Coordinator B W
  pub metrics : Metrics

pub record Watcher (B W : Type 0) : Type 0 where
  pub state : AppState B W
  pub cfg : AppConfig
  pub last_cfg_mtime : Option ℕ
  pub ingestor : Ingestor

-- `a != b` on times of modification.
abbrev pub differs : Option ℕ → Option ℕ → Bool
differs none none = false
differs none (some b) = true
differs (some a) none = true
differs (some a) (some b) = if a == b then false else true

module _ {B W : Type 0} where
  unfoldable pub apply : AppState B W → AppConfig → ColumnStore B W → AppState B W
  unfolding set_rows_loaded start
  apply state cfg store = record state {
    coordinator = start cfg store;
    metrics = set_rows_loaded store.row_count state.metrics;
  }

  -- A changed configuration: nothing of the watcher changes unless the new one has been read and loaded.
  unfoldable pub reload_config :
      Option ℕ
      → AppResult AppConfig
      → (Ingestor → AppResult (Option (ColumnStore B W)) × Ingestor)
      → Watcher B W
      → AppResult (Watcher B W)
  unfolding apply select
  reload_config mtime (err e) run_reload w = ok w
  reload_config mtime panic run_reload w = panic
  reload_config mtime (ok new_cfg) run_reload w =
      let (result, next) = run_reload (select new_cfg) in
      elim result [
        | err e ↦ ok w
        | panic ↦ panic
        | ok found ↦ elim found [
          | none ↦ ok w
          | some store ↦ ok (record {
            state = apply w.state new_cfg store;
            cfg = new_cfg;
            last_cfg_mtime = mtime;
            ingestor = next;
          })
        ]
      ]

  unfoldable pub reload_data :
      (Ingestor → AppResult (Option (ColumnStore B W)) × Ingestor)
      → Watcher B W
      → AppResult (Watcher B W)
  unfolding apply
  reload_data run_reload w =
      let (result, returned) = run_reload w.ingestor in
      elim result [
        | err e ↦ ok (record w { ingestor = returned })
        | panic ↦ panic
        | ok found ↦ elim found [
          | none ↦ ok (record w { ingestor = returned })
          | some store ↦ ok (record w { state = apply w.state w.cfg store; ingestor = returned })
        ]
      ]

  -- One round of the loop of `watcher`, after the sleep.
  unfoldable pub tick :
      Option ℕ
      → AppResult AppConfig
      → (Ingestor → AppResult (Option (ColumnStore B W)) × Ingestor)
      → Watcher B W
      → AppResult (Watcher B W)
  unfolding reload_config reload_data
  tick curr_cfg_mtime loaded run_reload w =
      if differs curr_cfg_mtime w.last_cfg_mtime
      then elim curr_cfg_mtime [ none ↦ ok w | some t ↦ reload_config (some t) loaded run_reload w ]
      else reload_data run_reload w

  -- The first load must give a store.
  unfoldable pub bootstrap_reload :
      AppResult (Option (ColumnStore B W)) × Ingestor → AppResult (Ingestor × ColumnStore B W)
  bootstrap_reload (result, ingestor) = do
    found ← result
    elim found [ none ↦ err AppError.ingestion | some store ↦ ok (ingestor, store) ]

  -- `App::bootstrap`, and the state of the watcher that `run` spawns.
  unfoldable pub bootstrap :
      ℕ
      → Option ℕ
      → AppConfig
      → (Ingestor → AppResult (Option (ColumnStore B W)) × Ingestor)
      → AppResult (Watcher B W)
  unfolding bootstrap_reload select start Metrics.new
  bootstrap size mtime cfg run_reload = do
    (ingestor, store) ← bootstrap_reload (run_reload (select cfg))
    ok (record {
      state = record { coordinator = start cfg store; metrics = Metrics.new size store.row_count };
      cfg = cfg;
      last_cfg_mtime = mtime;
      ingestor = ingestor;
    })

-- `App::run` spawns the watcher if the interval is positive.
unfoldable pub watches : AppConfig → Bool
watches cfg = ltb 0 cfg.engine.reload_interval_mins

-- ===== src/Reload/Serving.antt =====
-- reload.rs: what the watcher serves, round after round.
use stats_cruncher.Base.{
  ℕ, ◌≡◌, refl, Bool, true, false, Option, none, some, List, [], ◌∷◌, AppResult, ok, err, panic,
  ◌>>=◌, arith, >>=-eq-ok, ok-injective, subst,
}
use stats_cruncher.Config.{AppConfig}
use stats_cruncher.Storage.Store.{ColumnStore}
use stats_cruncher.Ingestion.{Ingestor, select}
use stats_cruncher.Coordinator.{start}
use stats_cruncher.Reload.{
  Watcher, tick, reload_config, reload_data, bootstrap, bootstrap_reload, apply,
}

-- What the system gives in a round.
pub record Round (B W : Type 0) : Type 0 where
  pub mtime : Option ℕ
  pub loaded : AppResult AppConfig
  pub run_reload : Ingestor → AppResult (Option (ColumnStore B W)) × Ingestor

module _ {B W : Type 0} where
  -- The coordinator has the configuration of the watcher, and the metrics show the rows of its store.
  pub record IsServing (w : Watcher B W) : Type 0 where
    pub same_cfg : w.state.coordinator.cfg ≡ w.cfg
    pub same_rows : w.state.metrics.rows_loaded ≡ w.state.coordinator.store.row_count

  unfoldable pub rounds : List (Round B W) → Watcher B W → AppResult (Watcher B W)
  rounds [] w = ok w
  rounds (i ∷ is) w = tick i.mtime i.loaded i.run_reload w >>= rounds is

  reload_config-IsServing :
      (mtime : Option ℕ) (loaded : AppResult AppConfig)
      (run_reload : Ingestor → AppResult (Option (ColumnStore B W)) × Ingestor) (w w' : Watcher B W)
      → IsServing w
      → reload_config mtime loaded run_reload w ≡ ok w'
      → IsServing w'
  unfolding reload_config apply
  reload_config-IsServing mtime (err e) run_reload w w' s h = ground (arith, h)
  reload_config-IsServing mtime panic run_reload w w' s h = cc
  reload_config-IsServing mtime (ok cfg) run_reload w w' s h = ground (arith, h)

  reload_data-IsServing :
      (run_reload : Ingestor → AppResult (Option (ColumnStore B W)) × Ingestor) (w w' : Watcher B W)
      → IsServing w
      → reload_data run_reload w ≡ ok w'
      → IsServing w'
  unfolding reload_data apply
  reload_data-IsServing run_reload w w' s h = ground (arith, h)

  tick-IsServing :
      (i : Round B W) (w w' : Watcher B W)
      → IsServing w
      → tick i.mtime i.loaded i.run_reload w ≡ ok w'
      → IsServing w'
  unfolding tick
  tick-IsServing i w w' s h = ground (
    arith,
    h,
    λ (t : ℕ). reload_config-IsServing (some t) i.loaded i.run_reload w w' s,
    reload_data-IsServing i.run_reload w w' s,
  )

  rounds-IsServing :
      (is : List (Round B W)) (w w' : Watcher B W)
      → IsServing w
      → rounds is w ≡ ok w'
      → IsServing w'
  unfolding rounds
  rounds-IsServing [] w w' s h = subst IsServing (ok-injective _ _ h) s
  rounds-IsServing (i ∷ is) w w' s h =
      let (v, e, rest) = >>=-eq-ok (tick i.mtime i.loaded i.run_reload w) (rounds is) h in
      rounds-IsServing is v w' (tick-IsServing i w v s e) rest

  bootstrap-IsServing :
      (size : ℕ) (mtime : Option ℕ) (cfg : AppConfig)
      (run_reload : Ingestor → AppResult (Option (ColumnStore B W)) × Ingestor) (w : Watcher B W)
      → bootstrap size mtime cfg run_reload ≡ ok w
      → IsServing w
  unfolding bootstrap bootstrap_reload start
  bootstrap-IsServing size mtime cfg run_reload w h = ground (arith, h)

  -- From the start on, and after any rounds of the watcher, the coordinator has the configuration of the
  -- watcher and the metrics show the number of rows of the store that it serves.
  pub bootstrap-rounds-IsServing :
      (size : ℕ) (mtime : Option ℕ) (cfg : AppConfig)
      (run_reload : Ingestor → AppResult (Option (ColumnStore B W)) × Ingestor)
      (is : List (Round B W)) (w : Watcher B W)
      → (bootstrap size mtime cfg run_reload >>= rounds is) ≡ ok w
      → IsServing w
  bootstrap-rounds-IsServing size mtime cfg run_reload is w h =
      let (v, e, rest) = >>=-eq-ok (bootstrap size mtime cfg run_reload) (rounds is) h in
      rounds-IsServing is v w (bootstrap-IsServing size mtime cfg run_reload v e) rest

  abbrev pub has_store : AppResult (Option (ColumnStore B W)) → Bool
  has_store (ok none) = false
  has_store (ok (some st)) = true
  has_store (err e) = false
  has_store panic = false

  -- A round in which no store is loaded keeps the coordinator, the configuration, the metrics and the
  -- recorded time of the configuration file, so that a changed file is tried again in the next round.
  pub tick_keeps :
      (i : Round B W) (w w' : Watcher B W)
      → ((g : Ingestor) → has_store (i.run_reload g).0 ≡ false)
      → tick i.mtime i.loaded i.run_reload w ≡ ok w'
      → (w'.state ≡ w.state) × (w'.cfg ≡ w.cfg) × (w'.last_cfg_mtime ≡ w.last_cfg_mtime)
  unfolding tick reload_config reload_data
  tick_keeps i w w' g h = go i.loaded refl
    where
      go :
          (l : AppResult AppConfig)
          → i.loaded ≡ l
          → (w'.state ≡ w.state) × (w'.cfg ≡ w.cfg) × (w'.last_cfg_mtime ≡ w.last_cfg_mtime)
      go (ok cfg) e = ground (arith, h, e, g (select cfg), g w.ingestor)
      go (err x) e = ground (arith, h, e, g w.ingestor)
      go panic e = ground (arith, h, e, g w.ingestor)

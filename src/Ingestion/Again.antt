-- ===== src/Ingestion/Again.antt =====
-- `reload` of ingestion/csv.rs and ingestion/sqlite.rs, called twice.
use stats_cruncher.Base.{ℕ, ◌≡◌, false, none, some, arith, AppResult, ok, err, AppError, ==_iff}
use stats_cruncher.Float.{Float}
use stats_cruncher.Bitmap.{Bitmap}
use stats_cruncher.Config.{AppConfig}
use stats_cruncher.Storage.Store.{ColumnStore}
use stats_cruncher.Ingestion.{Adapter, Ingestor, reload, finalize, same_time}

module _ {B W : Type 0} ⦃m : Bitmap B⦄ ⦃f : Float W⦄ where
  -- After a reload that gave a store, a reload at the same time of modification gives none, whatever the
  -- source would read as, and leaves the ingestor as it is.
  pub reload-reload :
      (t : ℕ) (ingest ingest' : Adapter → AppConfig → AppResult (ColumnStore B W))
      (after after' : AppResult ℕ) (g g' : Ingestor) (st : ColumnStore B W)
      → reload (ok t) ingest after g ≡ (ok (some st), g')
      → reload (ok t) ingest' after' g' ≡ (ok none, g')
  unfolding reload
  reload-reload t ingest ingest' after after' g g' st h = ground (arith, h)

  -- A source that is read well but that `finalize` rejects: the reload fails and records the time of
  -- modification all the same, so that the next reload at that time reports nothing and gives no store.
  pub reload-reload_rejected :
      (t : ℕ) (ingest ingest' : Adapter → AppConfig → AppResult (ColumnStore B W))
      (after' : AppResult ℕ) (g : Ingestor) (st : ColumnStore B W) (e : AppError)
      → same_time g.last_loaded t ≡ false
      → ingest g.adapter g.cfg ≡ ok st
      → finalize st g.cfg ≡ err e
      → (reload (ok t) ingest (ok t) g ≡ (err e, record g { last_loaded = some t }))
        × (reload (ok t) ingest' after' (record g { last_loaded = some t })
            ≡ (ok none, record g { last_loaded = some t }))
  unfolding reload
  reload-reload_rejected t ingest ingest' after' g st e new read rejected =
      (ground (arith, new, read, rejected, ==_iff t t), ground (arith, ==_iff t t))

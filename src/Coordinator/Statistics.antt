-- ===== src/Coordinator/Statistics.antt =====
-- execution/coordinator.rs, execution/worker.rs and execution/aggregator.rs: the statistics in the replies of the
-- coordinator with its workers.
use stats_cruncher.Base.{ℕ, ◌≡◌, sym, ◌∙◌, subst, some, List, [], ◌∷◌, AppResult, ok, ok-injective}
use stats_cruncher.Text.{Text}
use stats_cruncher.Map.{get, text_key}
use stats_cruncher.Float.{Float, IsFloat}
use stats_cruncher.Bitmap.{Bitmap, IsBitmap}
use stats_cruncher.Query.{Query, Response}
use stats_cruncher.Query.Stats.{stats_of}
use stats_cruncher.Query.Numbers.{IsStatsOf, AreSame-IsStatsOf, stats_of-IsStatsOf}
use stats_cruncher.Coordinator.Zoned.{ZonesEnclose, ZonesEnclose-SkipsSoundly}
use stats_cruncher.Query.Readings.{
  Reading, count_reading, min_reading, max_reading, readings-AreSame,
}
use stats_cruncher.Config.{AppConfig}
use stats_cruncher.Storage.Column.{Column}
use stats_cruncher.Storage.Store.{ColumnStore, column}
use stats_cruncher.Storage.Table.{Cell, Table, Represents}
use stats_cruncher.Worker.Folds.{IsNumeric}
use stats_cruncher.Coordinator.System.{System, Reach}
use stats_cruncher.Coordinator.Invariant.{AreMeasured}
use stats_cruncher.Coordinator.Answers.{initial, Reach-Answered}
use stats_cruncher.Coordinator.ColumnMeasure.{
  stats_in, column_numbers, column_measure, Answered-column_measure,
}

module _ {W : Type 0} ⦃f : Float W⦄ where
  -- The replies that were sent are responses, and their statistics of a column are those of the numbers that
  -- the query tells.
  abbrev pub HaveStatistics :
      Text → (Query W → List W) → (ℕ → Query W) → List (ℕ × AppResult (Response W)) → Type 0
  HaveStatistics name expected asked [] = Unit {0}
  HaveStatistics name expected asked ((k, r) ∷ sent) =
      ((response : Response W) × (r ≡ ok response)
        × IsStatsOf (stats_in name response) (expected (asked k)))
      × HaveStatistics name expected asked sent

  measured_first :
      (value : Response W → ℕ) (total : Query W → ℕ) (asked : ℕ → Query W) (k : ℕ)
      (r : AppResult (Response W)) (sent : List (ℕ × AppResult (Response W)))
      (response : Response W)
      → AreMeasured value total asked ((k, r) ∷ sent)
      → r ≡ ok response
      → value response ≡ total (asked k)
  measured_first value total asked k r sent response h e =
      let (other, e', v) = h.0 in
      subst (λ p. value p ≡ total (asked k)) (ok-injective other response (sym e' ∙ e)) v

  -- Statistics that read as those of the numbers that the query tells.
  HaveStatistics-readings :
      (floats : IsFloat W) (name : Text) (expected : Query W → List W) (asked : ℕ → Query W)
      (sent : List (ℕ × AppResult (Response W)))
      → ((ρ : Reading W)
          → AreMeasured
              (λ p. ρ.read (stats_in name p))
              (λ q. ρ.read (stats_of (expected q)))
              asked
              sent)
      → HaveStatistics name expected asked sent
  HaveStatistics-readings floats name expected asked [] h = tt
  HaveStatistics-readings floats name expected asked ((k, r) ∷ sent) h =
      let (response, e, counts) = (h count_reading).0 in
      let reads : (ρ : Reading W)
          → ρ.read (stats_in name response) ≡ ρ.read (stats_of (expected (asked k))) =
        λ ρ.
          measured_first (λ p. ρ.read (stats_in name p)) (λ q. ρ.read (stats_of (expected q))) asked
            k r sent response (h ρ) e in
      (
        (
          response,
          e,
          AreSame-IsStatsOf (stats_in name response) (stats_of (expected (asked k)))
              (expected (asked k))
              (readings-AreSame floats (stats_in name response) (stats_of (expected (asked k)))
                counts (λ x. reads (min_reading floats x)) (λ x. reads (max_reading floats x)))
              (stats_of-IsStatsOf floats (expected (asked k))),
        ),
        HaveStatistics-readings floats name expected asked sent (λ ρ. (h ρ).1),
      )

module _ {B W : Type 0} ⦃m : Bitmap B⦄ ⦃f : Float W⦄ (laws : IsBitmap B) (floats : IsFloat W)
    (st : ColumnStore B W) (table : Table W) (r : Represents st table) (asked : ℕ → Query W)
    (zones : ZonesEnclose st table) (cfg : AppConfig) where
  -- Under the laws of floating-point numbers, in every state that submissions and the threads reach from `start`, in
  -- any order, over a store that represents a table and that has no zones, or zones with the numbers of the partition
  -- column in their chunks between their ends: each reply that has been sent is a response. Its statistics of a
  -- numeric column (or, where it has none for the column, the empty ones) are those of the numbers of the
  -- column in the rows of the table that satisfy the query of that reply: their count modulo 2 ^ 64, a minimum
  -- that lies below just the values that one of them lies below, and a maximum that lies above just the
  -- values that one of them lies above.
  pub Reach-statistics :
      (name : Text) (c : Column B W) (cells : List (Cell W))
      → column st name ≡ ok (some c)
      → IsNumeric c
      → get name table ≡ some cells
      → {s : System B W} → Reach asked (initial cfg st) s
      → HaveStatistics name (column_numbers st table cells) asked s.coordinator.sent
  Reach-statistics name c cells at k held {s} reach =
      HaveStatistics-readings floats name (column_numbers st table cells) asked s.coordinator.sent
        (λ ρ.
          Answered-column_measure laws floats st table r name c cells at k held ρ asked
            s.coordinator.sent
            (Reach-Answered (column_measure laws floats st table r name c cells at k held ρ) asked
              r.chunks (ZonesEnclose-SkipsSoundly floats st table r.chunks zones) cfg reach))

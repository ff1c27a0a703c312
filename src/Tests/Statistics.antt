-- ===== src/Tests/Statistics.antt =====
-- Examples of the statistics in the replies of the coordinator with its workers.
use stats_cruncher.Base.{refl, ◌≡◌, some, ok, [], ◌∷◌}
use stats_cruncher.Base.Int.{ℤ}
use stats_cruncher.Text.{text, beq}
use stats_cruncher.Map.{get, text_key}
use stats_cruncher.Float.Sample.{samples, samples-IsFloat}
use stats_cruncher.Bitmap.Sample.{bits, bits-IsBitmap}
use stats_cruncher.Storage.Column.{Column}
use stats_cruncher.Storage.Store.{column}
use stats_cruncher.Storage.Table.{Cell}
use stats_cruncher.Coordinator.ColumnMeasure.{column_numbers}
use stats_cruncher.Coordinator.Statistics.{HaveStatistics, Reach-statistics}
use stats_cruncher.Tests.Store.{two_rows, two_cells, two_rows-Represents}
use stats_cruncher.Tests.Service.{one_worker, always_a, whole, Reach-whole}

column_n : column two_rows (text "n") ≡ ok (some (Column.integer (ℤ.pos 3 ∷ ℤ.pos 5 ∷ [])))
unfolding column get beq
column_n = refl

cells_n : get (text "n") two_cells ≡ some (Cell.integer (ℤ.pos 3) ∷ Cell.integer (ℤ.pos 5) ∷ [])
unfolding get beq
cells_n = refl

Reach-statistics_example :
    HaveStatistics
      (text "n")
      (column_numbers two_rows two_cells (Cell.integer (ℤ.pos 3) ∷ Cell.integer (ℤ.pos 5) ∷ []))
      always_a
      whole.coordinator.sent
Reach-statistics_example =
    Reach-statistics bits-IsBitmap samples-IsFloat two_rows two_cells two_rows-Represents always_a
      tt one_worker (text "n") (Column.integer (ℤ.pos 3 ∷ ℤ.pos 5 ∷ []))
      (Cell.integer (ℤ.pos 3) ∷ Cell.integer (ℤ.pos 5) ∷ []) column_n tt cells_n Reach-whole

-- ===== src/Tests/Pruning.antt =====
-- Examples of sorting and of the zones of a store.
use stats_cruncher.Base.{
  ℕ, ◌+◌, ◌-◌, ◌≡◌, ◌≤◌, ◌<◌, refl, sym, ap, ◌∙◌, subst, true, some, List, [], ◌∷◌, arith, ok,
  get_elem?,
}
use mathlib.Core.Option.{some-injective}
use stats_cruncher.Base.Int.{ℤ}
use stats_cruncher.Text.{text, beq}
use stats_cruncher.Map.{get, text_key}
use stats_cruncher.Float.Sample.{Sample, samples, samples-IsFloat, num}
use stats_cruncher.Bitmap.Sample.{Bits, bits}
use stats_cruncher.Storage.Store.{ColumnStore}
use stats_cruncher.Storage.Table.{Cell}
use stats_cruncher.Storage.Sort.{sort_rows, zones}
use stats_cruncher.Storage.Sorted.{SortsRows, sort_rows-SortsRows}
use stats_cruncher.Storage.ZoneEnds.{IsInZone, zones-IsInZone}
use stats_cruncher.Coordinator.Chunks.{chunks}
use stats_cruncher.Coordinator.Skips.{SkipsSoundly}
use stats_cruncher.Coordinator.Zoned.{Encloses, IsBetween, zoned-SkipsSoundly}
use stats_cruncher.Worker.Meaning.{number_of}
use stats_cruncher.Tests.Store.{two_rows, two_cells}

sort_rows-SortsRows_example :
    (pairs : List (Sample × ℕ)) × (sort_rows (num 5 ∷ num 3 ∷ []) (0 ∷ 1 ∷ []) ≡ ok pairs)
    × SortsRows (num 5 ∷ num 3 ∷ []) (0 ∷ 1 ∷ []) pairs
sort_rows-SortsRows_example =
    sort_rows-SortsRows samples-IsFloat (num 5 ∷ num 3 ∷ []) (0 ∷ 1 ∷ [])
      (omega arith, (omega arith, tt))

zones-IsInZone_example : IsInZone (num 4) (get_elem? (zones 2 (num 1 ∷ num 2 ∷ num 4 ∷ [])) 1)
zones-IsInZone_example =
    zones-IsInZone samples-IsFloat 2 (num 1 ∷ num 2 ∷ num 4 ∷ []) (omega arith) (refl, (refl, tt)) 1
      0 (num 4) (omega arith) refl

abbrev two_zones : List (Sample × Sample)
two_zones = (num 3, num 3) ∷ (num 5, num 5) ∷ []

abbrev zoned_rows : ColumnStore Bits Sample
zoned_rows = record two_rows { zone_stats = some (text "n", two_zones) }

abbrev numbers : List (Cell Sample)
numbers = Cell.integer (ℤ.pos 3) ∷ Cell.integer (ℤ.pos 5) ∷ []

-- The number in a row of the column.
number_at :
    (row : ℕ) (n : Sample) (c : Cell Sample)
    → get_elem? numbers row ≡ some c
    → number_of c ≡ some n
    → samples.le n n ≡ true
    → IsBetween two_cells (text "n") n n row
unfolding get beq
number_at row n c here number le cells cell x there at found =
    let column : numbers ≡ cells = some-injective _ _ there in
    let same : c ≡ cell = some-injective _ _ (sym here ∙ ap (λ v. get_elem? v row) column ∙ at) in
    let equal : n ≡ x = some-injective _ _ (sym number ∙ ap number_of same ∙ found) in
    subst (λ y. (samples.le n y ≡ true) × (samples.le y n ≡ true)) equal (le, le)

two_zones-Encloses : Encloses two_cells (text "n") two_zones (chunks 2 1)
unfolding chunks
two_zones-Encloses = (in_first, (in_second, tt))
  where
    in_first :
        (row : ℕ) → 0 ≤ row → row < 0 + (1 - 0) → IsBetween two_cells (text "n") (num 3) (num 3) row
    in_first row a b =
        let same : 0 ≡ row = omega (arith, b) in
        subst (λ r. IsBetween two_cells (text "n") (num 3) (num 3) r) same
          (number_at 0 (num 3) (Cell.integer (ℤ.pos 3)) refl refl refl)

    in_second :
        (row : ℕ) → 1 ≤ row → row < 1 + (2 - 1) → IsBetween two_cells (text "n") (num 5) (num 5) row
    in_second row a b =
        let same : 1 ≡ row = omega (arith, a, b) in
        subst (λ r. IsBetween two_cells (text "n") (num 5) (num 5) r) same
          (number_at 1 (num 5) (Cell.integer (ℤ.pos 5)) refl refl refl)

zoned-SkipsSoundly_example : SkipsSoundly zoned_rows two_cells
zoned-SkipsSoundly_example =
    zoned-SkipsSoundly samples-IsFloat zoned_rows two_cells (text "n") two_zones (omega arith) refl
      two_zones-Encloses

-- ===== src/Coordinator/Zoned.antt =====
-- execution/coordinator.rs, pruning: the skip masks of a store whose zones enclose the numbers of their chunks.
use stats_cruncher.Base.{
  ℕ, zero, suc, ◌+◌, ◌-◌, ◌≤◌, ◌<◌, ◌≡◌, refl, sym, subst, inl, inr, Bool, true, false, not, Option,
  none, some, List, [], ◌∷◌, arith, map, any, length, filter, range, replicate, get_elem?,
  Bool-cases, Option-cases,
}
use stats_cruncher.Text.{Text, beq, beq_iff}
use stats_cruncher.Map.{Map, get, text_key}
use stats_cruncher.Float.{Float, IsFloat}
use stats_cruncher.Query.{Query, RangeFilter}
use stats_cruncher.Storage.Store.{ColumnStore, chunk_count}
use stats_cruncher.Storage.Table.{Cell, Table, test_at}
use stats_cruncher.Worker.Meaning.{
  satisfies, in_range, in_ranges, number_of, ranges_hold, cell_passes,
}
use stats_cruncher.Coordinator.Zones.{build_skip_mask, zone_overlaps, zone_overlaps-in_range}
use stats_cruncher.Coordinator.Chunks.{Chunk, chunks}
use stats_cruncher.Coordinator.Weights.{Fits}
use stats_cruncher.Coordinator.Numbered.{Fits-replicate, matching_in}
use stats_cruncher.Coordinator.Skips.{SkipsSoundly}
use stats_cruncher.Coordinator.Unzoned.{length-chunks, unzoned-SkipsSoundly}

length-filter_none :
    (p : ℕ → Bool) (s n : ℕ)
    → ((row : ℕ) → s ≤ row → row < s + n → p row ≡ false)
    → length (filter p (range s n)) ≡ 0
length-filter_none p s zero h = refl
length-filter_none p s (suc n) h =
    rw (h s (omega arith) (omega arith))
      (length-filter_none p (suc s) n (λ row a b. h row (omega (arith, a)) (omega (arith, b))))

module _ {W : Type 0} ⦃f : Float W⦄ where
  -- A row whose cell in the column has a number has it between the ends.
  abbrev pub IsBetween : Table W → Text → W → W → ℕ → Type 0
  IsBetween table col lo hi row =
      (cells : List (Cell W)) (cell : Cell W) (x : W)
      → get col table ≡ some cells
      → get_elem? cells row ≡ some cell
      → number_of cell ≡ some x
      → (f.le lo x ≡ true) × (f.le x hi ≡ true)

  -- A zone for each chunk, with the numbers of its rows between its ends.
  abbrev pub Encloses : Table W → Text → List (W × W) → List Chunk → Type 0
  Encloses table col [] [] = Unit {0}
  Encloses table col ((lo, hi) ∷ stats) (c ∷ cs) =
      ((row : ℕ)
        → c.start ≤ row
        → row < c.start + (c.end - c.start)
        → IsBetween table col lo hi row)
      × Encloses table col stats cs
  Encloses table col _ _ = ⊥

  ranges_hold-get :
      (table : Table W) (ranges : Map Text (List (RangeFilter W))) (row : ℕ) (col : Text)
      (filters : List (RangeFilter W))
      → ranges_hold table ranges row ≡ true
      → get col ranges ≡ some filters
      → cell_passes (in_ranges filters) table col row ≡ true
  unfolding get
  ranges_hold-get table [] row col filters h e = cc
  ranges_hold-get table ((name, fs) ∷ rest) row col filters h e = elim (Bool-cases (beq name col)) [
    | inl same ↦ ground (arith, h, e, same, (beq_iff name col).0 same)
    | inr other ↦ ranges_hold-get table rest row col filters (ground (arith, h)) (rw other at e)
  ]

  module _ (laws : IsFloat W) where
    any_overlaps :
        (lo hi x : W) (filters : List (RangeFilter W))
        → f.le lo x ≡ true
        → f.le x hi ≡ true
        → any (in_range x) filters ≡ true
        → any (zone_overlaps lo hi) filters ≡ true
    any_overlaps lo hi x [] p q h = h
    any_overlaps lo hi x (rf ∷ filters) p q h = elim (Bool-cases (in_range x rf)) [
      | inl hit ↦ rw (zone_overlaps-in_range laws lo hi x rf p q hit) refl
      | inr miss ↦ ground (arith, any_overlaps lo hi x filters p q (rw miss at h))
    ]

    -- A row that satisfies the query is in no chunk that is skipped.
    overlaps-satisfies :
        (query : Query W) (table : Table W) (row : ℕ) (col : Text) (lo hi : W)
        (filters : List (RangeFilter W))
        → get col query.ranges ≡ some filters
        → IsBetween table col lo hi row
        → satisfies query table row ≡ true
        → any (zone_overlaps lo hi) filters ≡ true
    unfolding satisfies
    overlaps-satisfies query table row col lo hi filters e b h =
        let passes : cell_passes (in_ranges filters) table col row ≡ true =
          ranges_hold-get table query.ranges row col filters (ground (arith, h)) e in
        elim (Option-cases (get col table)) [
          | inl no_column ↦ absurd (no_pass (rw (cell_passes, no_column) at passes))
          | inr (cells, there) ↦ elim (Option-cases (get_elem? cells row)) [
            | inl no_cell ↦ absurd (no_pass (rw (cell_passes, there, test_at, no_cell) at passes))
            | inr (cell, at) ↦ elim (Option-cases (number_of cell)) [
              | inl no_number ↦
                  absurd
                    (no_pass (rw (cell_passes, there, test_at, at, in_ranges, no_number) at passes))
              | inr (x, number) ↦
                  let (p, q) = b cells cell x there at number in
                  any_overlaps lo hi x filters p q
                    (rw (cell_passes, there, test_at, at, in_ranges, number) at passes)
            ]
          ]
        ]
      where
        no_pass : false ≡ true → ⊥
        no_pass e = cc

    skipped-Fits :
        (query : Query W) (table : Table W) (col : Text) (filters : List (RangeFilter W))
        (stats : List (W × W)) (cs : List Chunk)
        → get col query.ranges ≡ some filters
        → Encloses table col stats cs
        → Fits
            (matching_in (satisfies query table))
            (map (λ (lo, hi). not (any (zone_overlaps lo hi) filters)) stats)
            cs
    skipped-Fits query table col filters [] [] e h = tt
    skipped-Fits query table col filters ((lo, hi) ∷ stats) (c ∷ cs) e h = (
      λ skips. length-filter_none (satisfies query table) c.start (c.end - c.start) (λ row a b.
          elim (Bool-cases (satisfies query table row)) [
            | inl hit ↦ absurd (
                ground (
                  arith,
                  skips,
                  overlaps-satisfies query table row col lo hi filters e (h.0 row a b) hit,
                ))
            | inr miss ↦ miss
          ]),
      skipped-Fits query table col filters stats cs e h.1,
    )
    skipped-Fits query table col filters [] (c ∷ cs) e h = absurd h
    skipped-Fits query table col filters (z ∷ stats) [] e h = absurd h

    -- Zones that enclose the numbers of the partition column, chunk by chunk, give sound masks: for every query a
    -- chunk that is skipped has no row that satisfies it.
    pub zoned-SkipsSoundly :
        {B : Type 0} (st : ColumnStore B W) (table : Table W) (col : Text) (stats : List (W × W))
        → 1 ≤ st.chunk_size
        → st.zone_stats ≡ some (col, stats)
        → Encloses table col stats (chunks st.row_count st.chunk_size)
        → SkipsSoundly st table
    unfolding build_skip_mask
    zoned-SkipsSoundly st table col stats chunked e h query =
        subst (λ z. Fits g (by_zones z) cs) (sym e)
          (elim (Option-cases (get col query.ranges)) [
            | inl unfiltered ↦
                subst (λ o. Fits g (by_filters stats o) cs) (sym unfiltered)
                  (subst (λ n. Fits g (replicate n false) cs) (length-chunks st chunked)
                    (Fits-replicate g cs))
            | inr (filters, found) ↦
                subst (λ o. Fits g (by_filters stats o) cs) (sym found)
                  (skipped-Fits query table col filters stats cs found h)
          ])
      where
        cs : List Chunk
        cs = chunks st.row_count st.chunk_size

        g : Chunk → ℕ
        g = matching_in (satisfies query table)

        by_filters : List (W × W) → Option (List (RangeFilter W)) → List Bool
        by_filters stats none = replicate (chunk_count st) false
        by_filters stats (some filters) =
            map (λ (lo, hi). not (any (zone_overlaps lo hi) filters)) stats

        by_zones : Option (Text × List (W × W)) → List Bool
        by_zones none = replicate (chunk_count st) false
        by_zones (some (col, stats)) = by_filters stats (get col query.ranges)

  -- A store without zones, or with zones that enclose the numbers of the partition column, chunk by chunk.
  abbrev pub ZonesEnclose : {B : Type 0} → ColumnStore B W → Table W → Type 0
  ZonesEnclose st table = elim st.zone_stats [
    | none ↦ Unit {0}
    | some z ↦ Encloses table z.0 z.1 (chunks st.row_count st.chunk_size)
  ]

  pub ZonesEnclose-SkipsSoundly :
      {B : Type 0} (laws : IsFloat W) (st : ColumnStore B W) (table : Table W)
      → 1 ≤ st.chunk_size
      → ZonesEnclose st table
      → SkipsSoundly st table
  ZonesEnclose-SkipsSoundly laws st table chunked h = elim (Option-cases st.zone_stats) [
    | inl unzoned ↦ unzoned-SkipsSoundly st table chunked unzoned
    | inr (z, zoned) ↦ zoned-SkipsSoundly laws st table z.0 z.1 chunked zoned (rw zoned at h)
  ]

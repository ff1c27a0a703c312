-- ===== src/Coordinator/Zones.antt =====
-- execution/coordinator.rs, pruning: which chunks cannot hold a row that a range filter lets through.
use stats_cruncher.Base.{
  ℕ, ◌≡◌, refl, ◌⊎◌, Bool, true, false, not, Option, none, some, List, map, arith, any, replicate,
  if◌then◌else◌,
}
use stats_cruncher.Map.{get, text_key}
use stats_cruncher.Float.{Float, IsFloat}
use stats_cruncher.Query.{Query, RangeFilter, NumericBound, gt, gte, lt, lte}
use stats_cruncher.Storage.Store.{ColumnStore}
use stats_cruncher.Worker.Meaning.{in_range, above_bound, below_bound, meets}

module _ {W : Type 0} ⦃f : Float W⦄ where
  unfoldable pub upper_overlaps : W → Option (NumericBound W) → Bool
  upper_overlaps chunk_min none = true
  upper_overlaps chunk_min (some upper) = elim upper.comparison [
    | lt ↦ f.lt chunk_min upper.value
    | lte ↦ f.le chunk_min upper.value
    | gt ↦ true
    | gte ↦ true
  ]

  unfoldable pub lower_overlaps : W → Option (NumericBound W) → Bool
  lower_overlaps chunk_max none = true
  lower_overlaps chunk_max (some lower) = elim lower.comparison [
    | gt ↦ f.lt lower.value chunk_max
    | gte ↦ f.le lower.value chunk_max
    | lt ↦ true
    | lte ↦ true
  ]

  unfoldable pub zone_overlaps : W → W → RangeFilter W → Bool
  unfolding upper_overlaps lower_overlaps
  zone_overlaps chunk_min chunk_max rf =
      if upper_overlaps chunk_min rf.upper then lower_overlaps chunk_max rf.lower else false

module _ {B W : Type 0} ⦃f : Float W⦄ where
  unfoldable pub build_skip_mask : ℕ → ColumnStore B W → Query W → List Bool
  unfolding zone_overlaps
  build_skip_mask chunk_count st query = elim st.zone_stats [
    | none ↦ replicate chunk_count false
    | some (col, stats) ↦ elim (get col query.ranges) [
      | none ↦ replicate chunk_count false
      | some filters ↦ map (λ (lo, hi). not (any (zone_overlaps lo hi) filters)) stats
    ]
  ]

module _ {W : Type 0} ⦃f : Float W⦄ (laws : IsFloat W) where
  open laws use {number_of_le, le_trans, lt-le, lt_of_not_le}

  lt_of_le_lt : (x y z : W) → f.le x y ≡ true → f.lt y z ≡ true → f.lt x z ≡ true
  lt_of_le_lt x y z p q =
      ground
        (arith, lt-le y z q, number_of_le x y p, number_of_le y z, le_trans z x y, lt_of_not_le x z)

  lt_of_lt_le : (x y z : W) → f.lt x y ≡ true → f.le y z ≡ true → f.lt x z ≡ true
  lt_of_lt_le x y z p q =
      ground
        (arith, lt-le x y p, number_of_le x y, number_of_le y z q, le_trans y z x, lt_of_not_le x z)

  upper_overlaps_lem :
      (lo x : W) (o : Option (NumericBound W))
      → f.le lo x ≡ true
      → meets (below_bound x) o ≡ true
      → upper_overlaps lo o ≡ true
  unfolding upper_overlaps
  upper_overlaps_lem lo x none p h = refl
  upper_overlaps_lem lo x (some b) p h =
      ground (arith, lt_of_le_lt lo x b.value p, le_trans lo x b.value p)

  lower_overlaps_lem :
      (hi x : W) (o : Option (NumericBound W))
      → f.le x hi ≡ true
      → meets (above_bound x) o ≡ true
      → lower_overlaps hi o ≡ true
  unfolding lower_overlaps
  lower_overlaps_lem hi x none p h = refl
  lower_overlaps_lem hi x (some b) p h =
      ground (arith, lt_of_lt_le b.value x hi, le_trans b.value x hi)

  -- A zone that encloses a value which a filter lets through overlaps the filter.
  pub zone_overlaps-in_range :
      (lo hi x : W) (rf : RangeFilter W)
      → f.le lo x ≡ true
      → f.le x hi ≡ true
      → in_range x rf ≡ true
      → zone_overlaps lo hi rf ≡ true
  unfolding zone_overlaps
  zone_overlaps-in_range lo hi x rf p q h =
      ground (arith, upper_overlaps_lem lo x rf.upper p, lower_overlaps_lem hi x rf.lower q)

  -- A zone that ends in NaN overlaps no filter with a proper lower bound.
  pub zone_overlaps_nan :
      (lo hi : W) (rf : RangeFilter W) (b : NumericBound W)
      → f.le hi hi ≡ false
      → rf.lower ≡ some b
      → (b.comparison ≡ gt) ⊎ (b.comparison ≡ gte)
      → zone_overlaps lo hi rf ≡ false
  unfolding zone_overlaps lower_overlaps
  zone_overlaps_nan lo hi rf b n e k =
      rw e (ground (arith, lt-le b.value hi, number_of_le b.value hi))
